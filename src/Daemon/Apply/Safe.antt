-- ===== src/Daemon/Apply/Safe.antt =====
-- Files with changes that no scan has recorded, in daemon/apply.go.
use tailsync.Common.{
  ℕ, ◌≡◌, ◌≢◌, ◌⊎◌, inl, inr, refl, ap, Bool, true, false, not, Option, none, some, Text, arith,
  Bool-cases, text_key, List,
}
use tailsync.Common.Table.{get}
use tailsync.Index.{Entry, Time}
use tailsync.Index.Disk.{FileIo}
use tailsync.Scan.{FileInfo}
use tailsync.Daemon.{Tree, present, finished}
use tailsync.Daemon.Apply.{
  State, disk_unsynced, exec_tombstone, exec_delete_live, exec_meta_only, commit_content,
  current_entry, is_some, is_live,
}
use tailsync.Daemon.Decide.{decide_apply, decide_apply-hash, ApplyKind}
use tailsync.Daemon.Apply.Remote.{Begun, stopped, wants, run_kind, decide_locked, needs_stat}

false-ne-true : false ≡ true → ⊥
false-ne-true e = cc

-- What is on disk is not what the index knows.
abbrev pub Drifted : Option Entry → FileInfo → Type 0
Drifted none fi = Unit
Drifted (some e) fi = (e.deleted ≡ true) ⊎ ((e.size ≢ fi.size) ⊎ (e.mod_time ≢ fi.mod_time))

module _ (tree : Tree) (io : FileIo) where
  open tree use {Fs, stat}

  disk_unsynced-Drifted :
      (fs : Fs) (p : Text) (cur : Option Entry) (fi : FileInfo)
      → stat fs p ≡ present fi
      → Drifted cur fi
      → disk_unsynced tree io fs p (current_entry cur) (is_live cur) ≡ some true
  unfolding disk_unsynced
  disk_unsynced-Drifted fs p none fi there d = rw (there, disk_unsynced) refl
  disk_unsynced-Drifted fs p (some e) fi there d = rw (there, disk_unsynced) (ground arith)

  -- The directory once the first part of `applyRemote` has ended.
  abbrev pub fs_after : State tree io → Begun (State tree io) → Fs
  fs_after s (stopped s' o) = s'.fs
  fs_after s (wants re use_delta) = s.fs

  module _ (s : State tree io) (re : Entry) (fi : FileInfo) (there : stat s.fs re.path ≡ present fi)
      (drifted : Drifted (get re.path s.idx.files) fi) where
    unsynced :
        disk_unsynced tree io s.fs re.path
          (current_entry (get re.path s.idx.files))
          (is_live (get re.path s.idx.files))
        ≡ some true
    unsynced = disk_unsynced-Drifted s.fs re.path (get re.path s.idx.files) fi there drifted

    exec_delete_live-Drifted : exec_delete_live tree io s re ≡ (s, finished false)
    unfolding exec_delete_live
    exec_delete_live-Drifted = ground (arith, unsynced)

    commit_content-Drifted :
        (now : Time) (bytes : List ℕ) (got : Text)
        → commit_content tree io now s re bytes got ≡ (s, finished false)
    unfolding commit_content
    commit_content-Drifted now bytes got = ground (arith, unsynced)

    exec_tombstone_fs : (exec_tombstone tree io s re).0.fs ≡ s.fs
    unfolding exec_tombstone
    exec_tombstone_fs = ground arith

    exec_meta_only-Drifted :
        is_live (get re.path s.idx.files) ≡ true
        → exec_meta_only tree io s (current_entry (get re.path s.idx.files)) re
          ≡ (s, finished false)
    unfolding exec_meta_only
    exec_meta_only-Drifted live = ground (arith, unsynced)

    run_kind-Drifted :
        (use_delta : Bool) (kind : ApplyKind)
        → (kind ≡ ApplyKind.meta_only → is_live (get re.path s.idx.files) ≡ true)
        → fs_after s (run_kind tree io s (get re.path s.idx.files) re use_delta kind) ≡ s.fs
    unfolding run_kind
    run_kind-Drifted use_delta ApplyKind.noop live = refl
    run_kind-Drifted use_delta ApplyKind.tombstone live = exec_tombstone_fs
    run_kind-Drifted use_delta ApplyKind.delete_live live = rw exec_delete_live-Drifted refl
    run_kind-Drifted use_delta ApplyKind.meta_only live =
        rw (exec_meta_only-Drifted (live refl)) refl
    run_kind-Drifted use_delta ApplyKind.content live = refl

    decided-Drifted :
        (on_disk : Bool)
        → fs_after s (
            run_kind tree io s
              (get re.path s.idx.files)
              re
              (decide_apply
                (current_entry (get re.path s.idx.files))
                (is_some (get re.path s.idx.files))
                re
                on_disk).use_delta
              (decide_apply
                (current_entry (get re.path s.idx.files))
                (is_some (get re.path s.idx.files))
                re
                on_disk).kind)
          ≡ s.fs
    decided-Drifted on_disk =
        run_kind-Drifted _ _ (λ e. live_of (get re.path s.idx.files) on_disk e)
      where
        live_of :
            (cur : Option Entry) (on_disk : Bool)
            → (decide_apply (current_entry cur) (is_some cur) re on_disk).kind ≡ ApplyKind.meta_only
            → is_live cur ≡ true
        live_of none on_disk e =
            absurd (false-ne-true ((decide_apply-hash (current_entry none) re false on_disk).0 e).0)
        live_of (some l) on_disk e = ap not ((decide_apply-hash l re true on_disk).0 e).1

    decide_locked_fs : fs_after s (decide_locked tree io s re) ≡ s.fs
    unfolding decide_locked
    decide_locked_fs = elim (Bool-cases (needs_stat tree io (get re.path s.idx.files) re)) [
      | inl asks ↦ rw (asks, there, decide_locked) (decided-Drifted true)
      | inr idle ↦ rw (idle, decide_locked) (decided-Drifted false)
    ]

    -- A file that no scan has recorded is left alone. Where there is a file at the path of a remote
    -- entry, and the index has no live entry for it or one of another size or modification time, the
    -- decision on the remote entry does not change the directory, and a commit of pulled content
    -- changes neither directory nor index and reports no change.
    pub decide_locked-Drifted :
        (now : Time) (bytes : List ℕ) (got : Text)
        → (fs_after s (decide_locked tree io s re) ≡ s.fs)
          × (commit_content tree io now s re bytes got ≡ (s, finished false))
    decide_locked-Drifted now bytes got = (decide_locked_fs, commit_content-Drifted now bytes got)
