-- ===== src/Daemon/Reconcile.antt =====
-- `reconcile` of daemon/reconcile.go. What the walk over the sync directory meets and the hashes of
-- its files are arguments; `now` is read by the scan and `later` by the collection.
pub mod Saved
pub mod Unsaved
mod Runs
use tailsync.Common.{
  ℕ, zero, ltb, Bool, true, false, ◌||◌, Option, none, some, List, Text, if◌then◌else◌,
}
use tailsync.Index.{Entry, Index, Time, gc_tombstones}
use tailsync.Index.Disk.{FileIo, save, saved}
use tailsync.Scan.{Forest, Result, scan}
use tailsync.Scan as Scan
use tailsync.Daemon.{Tree, Daemon}
use tailsync.Daemon.Apply.{State}

-- `(changed bool, hints []index.ManifestEntry, err error)`, with the errors told apart.
pub data Reconciled : Type 0 where
  reconciled : Bool → List Entry → Reconciled
  scan_failed save_failed : Reconciled

module _ (tree : Tree) (io : FileIo) where
  -- `reconcile` behind the collection: `n` changes were taken and `gc` tombstones dropped.
  unfoldable pub save_reconciled : State tree io → ℕ → ℕ → List Entry → State tree io × Reconciled
  save_reconciled s n gc hints =
      if ltb 0 n || (ltb 0 gc || ltb 0 s.applies_since_save)
      then elim (save io s.disk s.idx) [
        | saved disk ↦
            (record s { disk = disk; applies_since_save = 0 }, reconciled (ltb 0 n) hints)
        | _ ↦ (s, save_failed)
      ]
      else (s, reconciled (ltb 0 n) hints)

  unfoldable pub reconcile_found : Time → ℕ → State tree io → Result → State tree io × Reconciled
  reconcile_found later ttl s res =
      let (idx, n, hints) = Scan.apply s.idx res in
      let (idx', gc) = gc_tombstones idx later ttl in
      save_reconciled (record s { idx = idx' }) n gc hints

  unfoldable pub reconcile :
      (Text → Option Text) → Forest → Time → Time → ℕ → State tree io → State tree io × Reconciled
  reconcile hash forest now later ttl s = elim (scan false hash forest s.idx.files now) [
    | none ↦ (s, scan_failed)
    | some res ↦ reconcile_found later ttl s res
  ]
