-- ===== src/Scan/Runs.antt =====
-- A scan of a small directory, and the theorems about scans at it.
use tailsync.Common.{ℕ, ◌≡◌, refl, true, false, Text, Option, none, some, [], ◌∷◌, arith, text_key}
use tailsync.Common.Table.{get, put}
use tailsync.Index.{Entry, Index, get_entry}
use tailsync.Index.Merge.{IsKeyed}
use tailsync.Scan.{
  Forest, done, file, dir, Result, scan, walk, visit_file, hash_of, join_path, changes, each,
  disk_change, index_change, apply, stamp_updated_at, added, deleted,
}
use tailsync.Scan.Changes.{entries}
use tailsync.Scan.Listed.{Follows}
use tailsync.Scan.InStep.{scan-apply-Follows}
use tailsync.PathUtil.{is_reserved_component, state_name}

abbrev name_a : Text
name_a = b'a' ∷ []

abbrev name_d : Text
name_d = b'd' ∷ []

abbrev name_old : Text
name_old = b'o' ∷ []

-- A file, the state directory, and a directory with a file.
abbrev tree : Forest
tree = file name_a true (some (record { size = 3; mod_time = 50; mode = 420 })) (
    dir state_name (file name_a true none done) (
      dir name_d (file name_a true (some (record { size = 4; mod_time = 60; mode = 420 })) done)
        done))

abbrev hash_by_name : Text → Option Text
hash_by_name rel = some rel

-- The index knows a file that is gone.
abbrev old_entry : Entry
old_entry = record {
  path = name_old;
  size = 1;
  mod_time = 5;
  mode = 420;
  hash = name_old;
  deleted = false;
  deleted_at = 0;
  updated_at = 200;
}

abbrev old_index : Index
old_index = record { version = 1; files = (name_old, old_entry) ∷ []; path = name_a }

abbrev entry_of : Text → ℕ → ℕ → Entry
entry_of p size mod_time = record {
  path = p;
  size = size;
  mod_time = mod_time;
  mode = 420;
  hash = p;
  deleted = false;
  deleted_at = 0;
  updated_at = 100;
}

abbrev path_da : Text
path_da = b'd' ∷ b'/' ∷ b'a' ∷ []

-- The tombstone gets the instant after the clock of the entry, which lies ahead of `now`.
abbrev tree_result : Result
tree_result = record {
  changes =
      record { kind = added; path = name_a; entry = entry_of name_a 3 50 }
      ∷ record { kind = added; path = path_da; entry = entry_of path_da 4 60 }
      ∷ record {
        kind = deleted;
        path = name_old;
        entry = record old_entry {
          deleted = true;
          deleted_at = 100;
          updated_at = 201;
          size = 0;
          hash = [];
        };
      }
      ∷ [];
  disk = (name_a, entry_of name_a 3 50) ∷ (path_da, entry_of path_da 4 60) ∷ [];
}

scan_run : scan false hash_by_name tree old_index.files 100 ≡ some tree_result
unfolding scan walk visit_file hash_of join_path is_reserved_component get put changes each
    disk_change index_change stamp_updated_at
scan_run = refl

old_index-IsKeyed : IsKeyed old_index.files
unfolding get
old_index-IsKeyed = ((refl, tt), (refl, tt))

scan-apply-Follows_example :
    ((apply old_index tree_result).1 ≡ 3)
    × ((apply old_index tree_result).2 ≡ entries tree_result.changes)
    × Follows false hash_by_name old_index.files tree path_da
        (get_entry (apply old_index tree_result).0 path_da)
scan-apply-Follows_example =
    scan-apply-Follows false hash_by_name tree old_index 100 tree_result path_da (omega arith)
      old_index-IsKeyed scan_run
