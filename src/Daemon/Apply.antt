-- ===== src/Daemon/Apply.antt =====
-- The parts of daemon/apply.go that change the index and the sync directory, under `syncMu`.
-- Between the decision and the commit of content the lock is released, so `apply_remote` is two
-- steps: `begin_apply`, and `commit_pulled` from whatever state the daemon is in by then.
pub mod Safe
pub mod Remote
pub mod Verified
pub mod Clock
use tailsync.Common.{
  ℕ, suc, Bool, true, false, ◌&&◌, ◌||◌, not, Option, none, some, List, Text, nat_eqb, text_eqb,
  ltb, if◌then◌else◌, length, text_key, [],
}
use tailsync.Common.Table.{get}
use tailsync.Index.{
  Entry, Time, Index, wins, is_zero, blank_entry, set_entry, set_if_wins, get_entry,
}
use tailsync.Index.Disk.{FileIo, save, saved}
use tailsync.Scan.{FileInfo}
use tailsync.Daemon.{
  Stat, present, absent, stat_error, Removal, Tree, Daemon, Failure, Outcome, finished, failed,
}
use tailsync.Daemon.Decide.{ApplyKind, ApplyDecision, decide_apply}

unfoldable pub file_mode : ℕ → ℕ
file_mode mode = if nat_eqb mode 0 then 420 else mode

-- `cur, ok := d.idx.Get(rel)`, with the zero entry for a missing one.
abbrev pub current_entry : Option Entry → Entry
current_entry none = blank_entry []
current_entry (some e) = e

abbrev pub is_some : Option Entry → Bool
is_some none = false
is_some (some e) = true

abbrev pub is_live : Option Entry → Bool
is_live none = false
is_live (some e) = not e.deleted

-- `ok && !index.Wins(cur, re)`
abbrev pub loses : Option Entry → Entry → Bool
loses none re = false
loses (some cur) re = not (wins cur re)

module _ (tree : Tree) (io : FileIo) where
  open tree use {Fs, stat, remove, chtimes, chmod, write_file_root}

  abbrev pub State : Type 0
  State = Daemon Fs io.Disk

  -- A failed `Stat` is `none`.
  unfoldable pub disk_unsynced : Fs → Text → Entry → Bool → Option Bool
  disk_unsynced fs rel cur has_live = elim (stat fs rel) [
    | absent ↦ some false
    | stat_error ↦ none
    | present fi ↦
        if not has_live
        then some true
        else (if not (nat_eqb fi.size cur.size) || not (nat_eqb fi.mod_time cur.mod_time)
            then some true
            else some false)
  ]

  -- Mode and modification time; the error is only logged.
  unfoldable pub disk_meta : Fs → Text → ℕ → Time → Time → ℕ × Time
  disk_meta fs rel mode_want remote_time fallback = elim (stat fs rel) [
    | absent ↦ (mode_want, if is_zero remote_time then fallback else remote_time)
    | stat_error ↦ (mode_want, if is_zero remote_time then fallback else remote_time)
    | present fi ↦ (
      (if nat_eqb fi.mode 0 then mode_want else fi.mode),
      (if is_zero remote_time && (is_zero fi.mod_time && not (is_zero fallback))
          then fallback
          else fi.mod_time),
    )
  ]

  unfoldable pub maybe_save_locked : State → State
  maybe_save_locked s = if ltb s.applies_since_save 8 then s else elim (save io s.disk s.idx) [
    | saved disk ↦ record s { disk = disk; applies_since_save = 0 }
    | _ ↦ s
  ]

  -- `d.idx.Set(e)` and the count of applies.
  abbrev pub set_counted : State → Fs → Entry → State
  set_counted s fs e = record s {
    fs = fs;
    idx = (set_entry s.idx e).0;
    applies_since_save = suc s.applies_since_save;
  }

  unfoldable pub exec_tombstone : State → Entry → State × Outcome
  exec_tombstone s re =
      let (idx, won) = set_if_wins s.idx re in
      if won
      then (record s { idx = idx; applies_since_save = suc s.applies_since_save }, finished true)
      else (record s { idx = idx }, finished false)

  -- `SetIfWins` and what follows, behind the removal.
  unfoldable pub bury_removed : State → Fs → Entry → State × Outcome
  bury_removed s fs re =
      let (idx, won) = set_if_wins s.idx re in
      if not won then (record s { fs = fs; idx = idx }, finished false) else (
        maybe_save_locked
            (record s { fs = fs; idx = idx; applies_since_save = suc s.applies_since_save }),
        finished true,
      )

  unfoldable pub exec_delete_live : State → Entry → State × Outcome
  exec_delete_live s re =
      let cur : Option Entry = get re.path s.idx.files in
      if loses cur re
      then (s, finished false)
      else elim (disk_unsynced s.fs re.path (current_entry cur) (is_live cur)) [
        | none ↦ (s, failed Failure.local_error)
        | some true ↦ (s, finished false)
        | some false ↦
            let (fs, removal) = remove s.fs re.path in
            elim removal [
              | Removal.remove_error ↦ (record s { fs = fs }, failed Failure.local_error)
              | Removal.removed ↦ bury_removed s fs re
              | Removal.already_gone ↦ bury_removed s fs re
            ]
      ]

  -- `Chtimes`, unless the modification time is zero.
  unfoldable pub set_times : Fs → Text → Time → Fs × Bool
  set_times fs rel t = if is_zero t then (fs, true) else chtimes fs rel t

  -- The best-effort rollback behind a failed `Chmod`.
  unfoldable pub roll_back : Fs → Entry → Entry → Fs
  roll_back fs old re =
      let fs' : Fs =
        if not (is_zero re.mod_time) && not (is_zero old.mod_time)
        then (chtimes fs re.path old.mod_time).0
        else fs in
      (chmod fs' re.path (file_mode old.mode)).0

  unfoldable pub adopt_meta : State → Entry → Entry → State × Outcome
  adopt_meta s old re =
      let mode : ℕ = file_mode re.mode in
      let (fs, timed) = set_times s.fs re.path re.mod_time in
      if not timed
      then (record s { fs = fs }, failed Failure.local_error)
      else (let (fs', moded) = chmod fs re.path mode in
          if not moded
          then (record s { fs = roll_back fs' old re }, failed Failure.local_error)
          else (let (actual_mode, actual_time) =
                disk_meta fs' re.path mode re.mod_time old.mod_time in
              (
                set_counted s fs' (record old {
                  updated_at = re.updated_at;
                  mod_time = actual_time;
                  mode = actual_mode;
                }),
                finished true,
              )))

  unfoldable pub exec_meta_only : State → Entry → Entry → State × Outcome
  exec_meta_only s old re = elim (disk_unsynced s.fs re.path old true) [
    | none ↦ (s, failed Failure.local_error)
    | some true ↦ (s, finished false)
    | some false ↦ adopt_meta s old re
  ]

  -- `fallbackMT`
  abbrev pub fallback_time : Option Entry → Entry → Time
  fallback_time cur re =
      if is_zero re.mod_time
      then (if is_live cur then (current_entry cur).mod_time else re.mod_time)
      else re.mod_time

  -- The entry that goes into the index after a write; `now` stands for `time.Now()`.
  unfoldable pub written_entry : Time → Fs → Option Entry → Entry → List ℕ → Text → Entry
  written_entry now fs cur re bytes got =
      let (mode, time) =
        disk_meta fs re.path (file_mode re.mode) re.mod_time (fallback_time cur re) in
      record re {
        hash = got;
        size = length bytes;
        mode = mode;
        mod_time = time;
        updated_at = if is_zero re.updated_at then now else re.updated_at;
      }

  unfoldable pub write_content : Time → State → Entry → List ℕ → Text → State × Outcome
  write_content now s re bytes got =
      let (fs, written) = write_file_root s.fs re.path bytes (file_mode re.mode) in
      if not written
      then (record s { fs = fs }, failed Failure.local_error)
      else (let fs' : Fs = (set_times fs re.path re.mod_time).0 in
          (
            maybe_save_locked
                (set_counted s fs' (written_entry now fs' (get re.path s.idx.files) re bytes got)),
            finished true,
          ))

  unfoldable pub commit_content : Time → State → Entry → List ℕ → Text → State × Outcome
  commit_content now s re bytes got =
      let cur : Option Entry = get re.path s.idx.files in
      if loses cur re
      then (s, finished false)
      else elim (disk_unsynced s.fs re.path (current_entry cur) (is_live cur)) [
        | none ↦ (s, failed Failure.local_error)
        | some true ↦ (s, finished false)
        | some false ↦ write_content now s re bytes got
      ]
