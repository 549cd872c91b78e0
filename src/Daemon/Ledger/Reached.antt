-- ===== src/Daemon/Ledger/Reached.antt =====
-- Runs of the daemon: every step moves the ledger.
use tailsync.Common.{ℕ, Bool, Option, List, Text, text_key}
use tailsync.Common.Table.{Table, get}
use tailsync.Index.{Entry, Index, Time, gc_tombstones}
use tailsync.Index.Disk.{FileIo}
use tailsync.Index.Merge.{IsKeyed}
use tailsync.Index.Methods.{run_call-IsKeyed, run_call, gc_call}
use tailsync.Scan.{Result, Forest, scan}
use tailsync.Scan as Scan
use tailsync.Scan.InStep.{apply_changes-IsKeyed}
use tailsync.Daemon.{Tree}
use tailsync.Daemon.Apply.{State}
use tailsync.Daemon.Apply.Remote.{Pulled, begin_apply, commit_pulled}
use tailsync.Daemon.Ledger.{
  Moves, Raised-Moves, Raised-refl, apply_changes-Raised, gc_tombstones-Moves,
}
use tailsync.Daemon.Ledger.Steps.{left, Kept, begin_apply-KeptState, commit_pulled-KeptState}

-- The steps, each taken under `syncMu`: the two parts of `applyRemote`, the two halves of `reconcile`
-- with the save, and whatever other programs do to the sync directory.
pub data Step (tree : Tree) (io : FileIo) : State tree io → State tree io → Type 0 where
  begins :
      (rel_path : Text → Option Text) (cancelled : Bool) (remote : Entry) (s : State tree io)
      → Step tree io s (left tree io s (begin_apply tree io rel_path cancelled s remote))
  commits :
      (sha : List ℕ → Text) (max_file_bytes : ℕ) (cancelled : Bool) (now : Time) (re : Entry)
      (reply : Pulled) (s : State tree io)
      → Step tree io s (commit_pulled tree io sha max_file_bytes cancelled now s re reply).0
  scans :
      (res : Result) (s : State tree io)
      → Step tree io s (record s { idx = (Scan.apply s.idx res).0 })
  collects :
      (now : Time) (ttl : ℕ) (s : State tree io)
      → Step tree io s (record s { idx = (gc_tombstones s.idx now ttl).0 })
  saves :
      (disk : io.Disk) (s : State tree io)
      → Step tree io s (record s { disk = disk; applies_since_save = 0 })
  edits : (fs : tree.Fs) (s : State tree io) → Step tree io s (record s { fs = fs })

-- What the daemon has for a path.
abbrev pub shown : Index → Text → Option Entry
shown idx q = get q idx.files

module _ (tree : Tree) (io : FileIo) where
  pub data Run : State tree io → State tree io → Type 0 where
    stay : (s : State tree io) → Run s s
    step : (s t u : State tree io) → Step tree io s t → Run t u → Run s u

  gc-IsKeyed :
      (idx : Index) (now : Time) (ttl : ℕ)
      → IsKeyed idx.files
      → IsKeyed (gc_tombstones idx now ttl).0.files
  unfolding run_call
  gc-IsKeyed idx now ttl h = run_call-IsKeyed (gc_call now ttl) idx h

  same-Moves : (o : Option Entry) → Moves o o
  same-Moves o = Raised-Moves o o (Raised-refl o)

  Kept-Moves :
      (m m' : Table Text Entry) → Kept m m' → IsKeyed m' × ((q : Text) → Moves (get q m) (get q m'))
  Kept-Moves m m' (keyed, raised) = (keyed, λ q. Raised-Moves (get q m) (get q m') (raised q))

  -- Every step of the daemon is a step of the ledger: from a well-formed index it leads to a
  -- well-formed index, and under every path either nothing happens, or an entry is written with a clock
  -- that is not earlier than that of the one before, or a tombstone is dropped.
  pub Step-Moves :
      (s t : State tree io)
      → Step tree io s t
      → IsKeyed s.idx.files
      → IsKeyed t.idx.files × ((q : Text) → Moves (shown s.idx q) (shown t.idx q))
  unfolding Scan.apply
  Step-Moves s t (begins rel_path cancelled remote s') h =
      Kept-Moves _ _ (begin_apply-KeptState tree io s h rel_path cancelled remote)
  Step-Moves s t (commits sha max_file_bytes cancelled now re reply s') h =
      Kept-Moves _ _ (commit_pulled-KeptState tree io s h sha max_file_bytes cancelled now re reply)
  Step-Moves s t (scans res s') h = Kept-Moves _ _ (
    apply_changes-IsKeyed res.changes s.idx.files h,
    apply_changes-Raised res.changes s.idx.files,
  )
  Step-Moves s t (collects now ttl s') h =
      (gc-IsKeyed s.idx now ttl h, λ q. gc_tombstones-Moves s.idx now ttl q h.0)
  Step-Moves s t (saves disk s') h = (h, λ q. same-Moves (shown s.idx q))
  Step-Moves s t (edits fs s') h = (h, λ q. same-Moves (shown s.idx q))

  Run-IsKeyed : (s t : State tree io) → Run s t → IsKeyed s.idx.files → IsKeyed t.idx.files
  Run-IsKeyed s t (stay s') h = h
  Run-IsKeyed s t (step s' u t' one rest) h = Run-IsKeyed u t rest (Step-Moves s u one h).0

  pub Run-trans : (s t u : State tree io) → Run s t → Run t u → Run s u
  Run-trans s t u (stay s') more = more
  Run-trans s t u (step s' v t' one rest) more = step s v u one (Run-trans v t u rest more)

  pub one-Step : (s t : State tree io) → Step tree io s t → Run s t
  one-Step s t one = step s t t one (stay t)
