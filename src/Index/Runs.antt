-- ===== src/Index/Runs.antt =====
-- Runs of the index on small inputs, and its theorems at concrete inputs.
use mathlib.Core.List.Perm
use tailsync.Common.{
  List, Option, none, ◌↔◌, ℕ, ◌+◌, ◌≡◌, refl, text_key, true, false, Text, some, [], ◌∷◌, arith,
}
use tailsync.Common.Table.{Table, Distinct, get}
use tailsync.Index.{Entry, Index, Time, wins, get_entry, gc_tombstones, len, values}
use tailsync.Index.Order.{wins-strict_order}
use tailsync.Index.Merge.{IsKeyed, key_at, merge, merge-perm, merge-converges}
use tailsync.Index.Gc.{get-gc_tombstones, Stays}
use tailsync.AtomicFile as AtomicFile
use tailsync.AtomicFile.{FileOps, Paths, opened, create_temp_root, fill_and_rename}
use tailsync.Index.Disk.{
  FileIo, ReadResult, content, missing, unreadable, atomic_io, index_mode, load, save, loaded,
  saved, load-save,
}

abbrev file_a : Text
file_a = b'a' ∷ []

abbrev file_b : Text
file_b = b'b' ∷ []

abbrev first_byte : Text → ℕ
first_byte [] = 0
first_byte (c ∷ t) = c

abbrev entry_at : Text → Time → Text → Entry
entry_at p t h = record {
  path = p;
  size = 3;
  mod_time = 5;
  mode = 420;
  hash = h;
  deleted = false;
  deleted_at = 0;
  updated_at = t;
}

abbrev old_a : Entry
old_a = entry_at file_a 10 (b'x' ∷ [])

-- The same clock as `old_a`, and a greater hash.
abbrev tied_a : Entry
tied_a = entry_at file_a 10 (b'y' ∷ [])

abbrev new_a : Entry
new_a = entry_at file_a 20 (b'x' ∷ [])

abbrev only_b : Entry
only_b = entry_at file_b 15 (b'z' ∷ [])

abbrev tomb_b : Entry
tomb_b = record only_b { deleted = true; deleted_at = 15; size = 0; hash = [] }

tie_by_hash : wins old_a tied_a ≡ true
unfolding wins
tie_by_hash = refl

later_wins : wins tied_a new_a ≡ true
unfolding wins
later_wins = refl

abbrev left : Table Text Entry
left = (file_a, old_a) ∷ (file_b, only_b) ∷ []

abbrev right : Table Text Entry
right = (file_a, tied_a) ∷ []

abbrev left_index : Index
left_index = record { version = 1; files = left; path = file_a }

abbrev buried_index : Index
buried_index = record {
  version = 1;
  files = (file_a, old_a) ∷ (file_b, tomb_b) ∷ [];
  path = file_a;
}

wins-strict_order_example :
    (wins old_a new_a ≡ true)
    × (wins tied_a old_a ≡ false)
    × (wins new_a tied_a ≡ false)
    × (wins new_a old_a ≡ false)
wins-strict_order_example = wins-strict_order old_a tied_a new_a tie_by_hash later_wins

merge-perm_example :
    key_at file_a (merge (tied_a ∷ new_a ∷ []) left)
    ≡ key_at file_a (merge (new_a ∷ tied_a ∷ []) left)
merge-perm_example = merge-perm file_a left (Perm.swap new_a tied_a [])

left-Distinct : Distinct left
unfolding get
left-Distinct = (refl, (refl, tt))

left-IsKeyed : IsKeyed left
left-IsKeyed = (left-Distinct, (refl, (refl, tt)))

right-IsKeyed : IsKeyed right
unfolding get
right-IsKeyed = ((refl, tt), (refl, tt))

merge-converges_example :
    key_at file_a (merge (values right) left) ≡ key_at file_a (merge (values left) right)
merge-converges_example = merge-converges left right file_a left-IsKeyed right-IsKeyed

buried-Distinct : Distinct buried_index.files
unfolding get
buried-Distinct = (refl, (refl, tt))

get-gc_tombstones_example :
    ((get_entry (gc_tombstones buried_index 90 10).0 file_b ≡ some tomb_b)
      ↔ ((get_entry buried_index file_b ≡ some tomb_b) × Stays 90 10 tomb_b))
    × (len (gc_tombstones buried_index 90 10).0 + (gc_tombstones buried_index 90 10).1
        ≡ len buried_index)
get-gc_tombstones_example =
    get-gc_tombstones buried_index 90 10 file_b tomb_b buried-Distinct (λ e. omega arith)

found_b : get_entry buried_index file_b ≡ some tomb_b
unfolding get_entry get
found_b = refl

abbrev bytes_of : ReadResult → Option (List ℕ)
bytes_of (content b) = some b
bytes_of missing = none
bytes_of unreadable = none

-- A disk of one file and one temporary file, each under whatever name.
abbrev two_files : FileOps
two_files = record {
  Fs = ReadResult × ReadResult;
  content = λ fs t. bytes_of fs.0;
  mkdir_all = λ fs d. (fs, true);
  open_excl = λ fs t. ((fs.0, content []), opened);
  write = λ fs t b. ((fs.0, content b), true);
  chmod = λ fs t m. (fs, true);
  sync = λ fs t. (fs, true);
  close = λ fs t. (fs, true);
  rename = λ fs t n. ((fs.1, missing), true);
  remove = λ fs t. ((fs.0, missing), true);
}

abbrev flat : Paths
flat = record {
  clean = λ p. p;
  is_abs = λ p. false;
  valid_path = λ p. true;
  is_local = λ p. true;
  dir = λ p. file_b;
  join = λ p q. q;
}

-- The index written by `WriteFile`, with a codec for the one index of the example.
abbrev one_file : FileIo
one_file =
    atomic_io two_files flat (λ d. file_b ∷ []) (λ fs p. fs.0) (λ df. some [])
      (λ b. some (record { version = 1; files = left }))

abbrev written : ReadResult × ReadResult
written = (content (b'\n' ∷ []), missing)

saves : save one_file (missing, missing) left_index ≡ saved written
unfolding save AtomicFile.write_file create_temp_root fill_and_rename
saves = refl

reads_back :
    (b : List ℕ)
    → one_file.write_file (missing, missing) file_a b index_mode ≡ some written
    → one_file.read_file written file_a ≡ content b
unfolding AtomicFile.write_file create_temp_root fill_and_rename
reads_back b e = ground (arith, e)

load-save_example : load one_file written file_a ≡ loaded left_index
load-save_example =
    load-save one_file left_index (missing, missing) written reads_back (λ b e. refl)
      (refl, (refl, tt)) (λ e. omega arith) saves
