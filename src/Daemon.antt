-- ===== src/Daemon.antt =====
-- The daemon: what its parts share. The sync directory is reached through `os.Root` and the atomic
-- writes of internal/atomicfile, which are the operations of `Tree`.
pub mod Decide
pub mod Apply
pub mod MeshTrust
pub mod Serve
pub mod Stream
pub mod Exchange
pub mod Reconcile
pub mod Ledger
pub mod Pull
pub mod Net
pub mod Flight
pub mod Notify
mod Runs
use tailsync.Common.{ℕ, Bool, Option, List, Text}
use tailsync.Index.{Index, Time}
use tailsync.Scan.{FileInfo}

pub data Stat : Type 0 where
  present : FileInfo → Stat
  absent : Stat
  stat_error : Stat

pub data Removal : Type 0 where
  removed already_gone remove_error : Removal

-- An operation that fails may have changed the directory before, so each returns it; the test is
-- whether the operation succeeded.
pub record Tree : Type 1 where
  pub Fs : Type 0
  pub stat : Fs → Text → Stat
  pub read_file : Fs → Text → Option (List ℕ)
  pub remove : Fs → Text → Fs × Removal
  pub chtimes : Fs → Text → Time → Fs × Bool
  pub chmod : Fs → Text → ℕ → Fs × Bool
  pub write_file_root : Fs → Text → List ℕ → ℕ → Fs × Bool

-- The fields that `syncMu` guards, with the sync directory and the disk of the index file.
pub record Daemon (Fs Disk : Type 0) : Type 0 where
  pub idx : Index
  pub fs : Fs
  pub disk : Disk
  pub applies_since_save : ℕ

-- `errTransport`, `errPeerLogical`, and errors of the local system.
pub data Failure : Type 0 where
  transport logical local_error : Failure

-- `(bool, error)`
pub data Outcome : Type 0 where
  finished : Bool → Outcome
  failed : Failure → Outcome
