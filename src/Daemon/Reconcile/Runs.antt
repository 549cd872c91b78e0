-- ===== src/Daemon/Reconcile/Runs.antt =====
-- Reconciles of a directory with one file.
use tailsync.Common.{
  ℕ, ◌≡◌, refl, true, false, none, some, [], ◌∷◌, Text, arith, inl, Option, text_key, text_eqb,
  Bool-cases, inr,
}
use tailsync.Common.Table.{get, put}
use tailsync.Index.{Entry, Index, gc_tombstones, gc_files, expired, put_if_wins}
use tailsync.Index.Disk.{FileIo, ReadResult, content, missing, save, write_index_file}
use tailsync.Scan.{
  Forest, file, done, Result, scan, walk, visit_file, hash_of, changes, each, disk_change,
  index_change, apply_changes, FileInfo, join_path, stamp_updated_at,
}
use tailsync.Scan as Scan
use tailsync.PathUtil.{is_reserved_component}
use tailsync.Daemon.{Tree, Stat, absent, Removal}
use tailsync.Daemon.Apply.{State}
use tailsync.Daemon.Reconcile.{reconciled, save_failed, save_reconciled, reconcile_found, reconcile}
use tailsync.Daemon.Reconcile.Saved.{Clean, reconcile-Clean}
use tailsync.Daemon.Reconcile.Unsaved.{Same, found_index, reconcile-save_failed}

abbrev idle_tree : Tree
idle_tree = record {
  Fs = Stat;
  stat = λ fs p. fs;
  read_file = λ fs p. none;
  remove = λ fs p. (absent, Removal.removed);
  chtimes = λ fs p t. (fs, true);
  chmod = λ fs p m. (fs, true);
  write_file_root = λ fs p b m. (fs, true);
}

-- 30 days, the default.
abbrev kept_for : ℕ
kept_for = 2592000000000000

-- A disk that takes what is written to it, and one that takes nothing.
abbrev disk_that : (ReadResult → Option ReadResult) → FileIo
disk_that takes = record {
  Disk = ReadResult;
  read_file = λ d p. d;
  write_file = λ d p b m. takes (content b);
  marshal = λ df. some [];
  unmarshal = λ b. none;
}

abbrev file_a : Text
file_a = b'a' ∷ []

abbrev one_file : Forest
one_file = file file_a true (some (record { size = 4; mod_time = 7; mode = 420 })) done

abbrev hash_x : Text → Option Text
hash_x p = some (b'x' ∷ [])

abbrev named_index : Index
named_index = record { version = 1; files = []; path = b'i' ∷ [] }

abbrev fresh : (takes : ReadResult → Option ReadResult) → State idle_tree (disk_that takes)
fresh takes = record { idx = named_index; fs = absent; disk = missing; applies_since_save = 0 }

abbrev entry_a : Entry
entry_a = record {
  path = file_a;
  size = 4;
  mod_time = 7;
  mode = 420;
  hash = b'x' ∷ [];
  deleted = false;
  deleted_at = 0;
  updated_at = 30;
}

finds :
    (reconcile idle_tree (disk_that some) hash_x one_file 30 31 kept_for (fresh some)).1
    ≡ reconciled true (entry_a ∷ [])
unfolding reconcile reconcile_found save_reconciled scan walk visit_file hash_of changes each
    disk_change index_change Scan.apply apply_changes gc_tombstones gc_files expired save
    write_index_file get put join_path stamp_updated_at is_reserved_component put_if_wins
finds = refl

reconcile-Clean_example :
    (res : Result) × (scan false hash_x one_file [] 30 ≡ some res)
    × Clean idle_tree
        (disk_that some)
        hash_x
        one_file
        (fresh some)
        res
        file_a
        (entry_a ∷ [])
        true
        (reconcile idle_tree (disk_that some) hash_x one_file 30 31 kept_for (fresh some)).0
reconcile-Clean_example =
    reconcile-Clean idle_tree (disk_that some) hash_x one_file 30 31 kept_for (fresh some)
      (entry_a ∷ []) true file_a (omega arith) (tt, tt) finds

abbrev refuses : ReadResult → Option ReadResult
refuses r = none

abbrev first_result : Result
first_result = record {
  changes = record { kind = Scan.added; path = file_a; entry = entry_a } ∷ [];
  disk = (file_a, entry_a) ∷ [];
}

abbrev again_entry : Entry
again_entry = record entry_a { updated_at = 40 }

abbrev again_result : Result
again_result = record { changes = []; disk = (file_a, again_entry) ∷ [] }

finds_first : scan false hash_x one_file [] 30 ≡ some first_result
unfolding scan walk visit_file hash_of changes each disk_change index_change get put join_path
    stamp_updated_at is_reserved_component
finds_first = refl

fails_to_save :
    (reconcile idle_tree (disk_that refuses) hash_x one_file 30 31 kept_for (fresh refuses)).1
    ≡ save_failed
unfolding reconcile reconcile_found save_reconciled scan walk visit_file hash_of changes each
    disk_change index_change Scan.apply apply_changes gc_tombstones gc_files expired save
    write_index_file get put join_path stamp_updated_at is_reserved_component put_if_wins
fails_to_save = refl

finds_again :
    scan false hash_x one_file
      (reconcile idle_tree
        (disk_that refuses)
        hash_x
        one_file
        30
        31
        kept_for
        (fresh refuses)).0.idx.files
      40
    ≡ some again_result
unfolding reconcile reconcile_found save_reconciled scan walk visit_file hash_of changes each
    disk_change index_change Scan.apply apply_changes gc_tombstones gc_files expired save
    write_index_file get put join_path stamp_updated_at is_reserved_component put_if_wins
finds_again = refl

files_agree : (q : Text) → Same (get q first_result.disk) (get q again_result.disk)
unfolding get
files_agree q = elim (Bool-cases (text_eqb file_a q)) [
  | inl here ↦ rw here (refl, refl, refl, refl)
  | inr there ↦ rw there tt
]

nothing_expires :
    (gc_tombstones
      (reconcile idle_tree (disk_that refuses) hash_x one_file 30 31 kept_for (fresh refuses)).0.idx
      41
      kept_for).1
    ≡ 0
unfolding reconcile reconcile_found save_reconciled scan walk visit_file hash_of changes each
    disk_change index_change Scan.apply apply_changes gc_tombstones gc_files expired save
    write_index_file get put join_path stamp_updated_at is_reserved_component put_if_wins
nothing_expires = refl

reconcile-save_failed_example :
    ((reconcile idle_tree (disk_that refuses) hash_x one_file 30 31 kept_for (fresh refuses)).0.idx
      ≡ found_index idle_tree (disk_that refuses) 31 kept_for named_index first_result)
    × (reconcile idle_tree
          (disk_that refuses)
          hash_x
          one_file
          40
          41
          kept_for
          (reconcile idle_tree (disk_that refuses) hash_x one_file 30 31 kept_for (fresh refuses)).0
        ≡ (
          (reconcile idle_tree
              (disk_that refuses)
              hash_x
              one_file
              30
              31
              kept_for
              (fresh refuses)).0,
          reconciled false [],
        ))
reconcile-save_failed_example =
    reconcile-save_failed idle_tree (disk_that refuses) hash_x hash_x one_file one_file 30 31 40 41
      kept_for (fresh refuses) first_result again_result (omega arith) (tt, tt) refl finds_first
      fails_to_save finds_again files_agree nothing_expires
