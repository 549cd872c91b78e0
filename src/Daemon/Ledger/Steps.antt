-- ===== src/Daemon/Ledger/Steps.antt =====
-- The steps of a daemon that change its state, and what each does to the ledger.
use mathlib.Core.Path.{subst}
use tailsync.Common.{
  ℕ, suc, ◌≤◌, ◌≡◌, refl, sym, ap, ◌∙◌, Bool, true, false, ◌⊎◌, Option, none, some, List, Text,
  arith, inl, inr, Bool-cases, Option-cases, text_key, not, ◌&&◌, text_eqb, [],
}
use tailsync.Common.Table.{Table, get, get-All}
use tailsync.Index.{Entry, Index, Time, wins, set_if_wins, set_entry, put_if_wins}
use tailsync.Index.Disk.{FileIo}
use tailsync.Index.Merge.{IsKeyed}
use tailsync.Index.Methods.{put-IsKeyed, put_if_wins-IsKeyed}
use tailsync.Scan.{FileInfo}
use tailsync.Daemon.{Tree, Stat, present, absent, stat_error}
use tailsync.Daemon.Decide.{ApplyKind, decide_apply, need_meta}
use tailsync.Daemon.Apply.{
  State, exec_tombstone, exec_delete_live, exec_meta_only, bury_removed, adopt_meta, commit_content,
  current_entry, is_some, loses, maybe_save_locked, written_entry, file_mode, set_times, disk_meta,
}
use tailsync.Daemon.Apply.Remote.{
  Begun, stopped, wants, run_kind, decide_locked, begin_apply, commit_pulled, needs_stat, Pulled,
  pulled, pull_failed,
}
use tailsync.Daemon.Apply.Verified.{
  Clear, commit_content_iff, commit_content_idx, new_entry, maybe_save_locked_idx, fs_written,
}
use tailsync.Daemon.Apply.Clock.{is_done, is_done_iff, commit_content_kept}
use tailsync.Daemon.Ledger.{wins_clock, Raised, Raised-refl, put-Raised, put_if_wins-Raised}

-- A table that a well-formed one became: it is well formed, and each path was kept or raised.
abbrev pub Kept : Table Text Entry → Table Text Entry → Type 0
Kept m m' = IsKeyed m' × ((q : Text) → Raised (get q m) (get q m'))

pub Kept-refl : (m : Table Text Entry) → IsKeyed m → Kept m m
Kept-refl m h = (h, λ q. Raised-refl (get q m))

put_if_wins-Kept : (e : Entry) (m : Table Text Entry) → IsKeyed m → Kept m (put_if_wins e m).0
put_if_wins-Kept e m h = (put_if_wins-IsKeyed e m h, put_if_wins-Raised e m)

set_if_wins-Kept :
    (idx : Index) (e : Entry) → IsKeyed idx.files → Kept idx.files (set_if_wins idx e).0.files
unfolding set_if_wins
set_if_wins-Kept idx e h = put_if_wins-Kept e idx.files h

set_entry-Kept :
    (idx : Index) (e : Entry)
    → IsKeyed idx.files
    → Raised (get e.path idx.files) (some e)
    → Kept idx.files (set_entry idx e).0.files
unfolding set_entry
set_entry-Kept idx e h r = (put-IsKeyed e idx.files h, λ q. put-Raised e idx.files q r)

module _ (tree : Tree) (io : FileIo) where
  -- The state in which the first part of `applyRemote` ends.
  abbrev pub left : State tree io → Begun (State tree io) → State tree io
  left s (stopped s' o) = s'
  left s (wants re use_delta) = s

  Stat-cases : (r : Stat) → ((fi : FileInfo) × (r ≡ present fi)) ⊎ ((r ≡ absent) ⊎ (r ≡ stat_error))
  Stat-cases (present fi) = inl (fi, refl)
  Stat-cases absent = inr (inl refl)
  Stat-cases stat_error = inr (inr refl)

  -- The same of the indexes of two states.
  abbrev pub KeptState : State tree io → State tree io → Type 0
  KeptState s s' = Kept s.idx.files s'.idx.files

  pub same-KeptState : (s t u : State tree io) → t.idx ≡ u.idx → KeptState s u → KeptState s t
  same-KeptState s t u e k = subst (λ (i : Index). Kept s.idx.files i.files) (sym e) k

  module _ (s : State tree io) (keyed : IsKeyed s.idx.files) where
    exec_tombstone-KeptState : (re : Entry) → KeptState s (exec_tombstone tree io s re).0
    unfolding exec_tombstone
    exec_tombstone-KeptState re = elim (Bool-cases (set_if_wins s.idx re).1) [
      | inl won ↦ rw (won, exec_tombstone) (set_if_wins-Kept s.idx re keyed)
      | inr lost ↦ rw (lost, exec_tombstone) (set_if_wins-Kept s.idx re keyed)
    ]

    bury_removed-KeptState :
        (fs : tree.Fs) (re : Entry) → KeptState s (bury_removed tree io s fs re).0
    unfolding bury_removed
    bury_removed-KeptState fs re = elim (Bool-cases (set_if_wins s.idx re).1) [
      | inl won ↦
          let made : State tree io = record s {
            fs = fs;
            idx = (set_if_wins s.idx re).0;
            applies_since_save = suc s.applies_since_save;
          } in
          rw (won, bury_removed)
            (same-KeptState s (maybe_save_locked tree io made) made
              (maybe_save_locked_idx tree io made).0 (set_if_wins-Kept s.idx re keyed))
      | inr lost ↦ rw (lost, bury_removed) (set_if_wins-Kept s.idx re keyed)
    ]

    exec_delete_live-KeptState : (re : Entry) → KeptState s (exec_delete_live tree io s re).0
    unfolding exec_delete_live
    exec_delete_live-KeptState re =
        ground (
          arith,
          Kept-refl s.idx.files keyed,
          bury_removed-KeptState (tree.remove s.fs re.path).0 re,
        )

    -- The entry that `adopt_meta` stores, for whatever the disk says then.
    adopted-Kept :
        (l re : Entry) (mode : ℕ) (time : Time)
        → get re.path s.idx.files ≡ some l
        → l.path ≡ re.path
        → l.updated_at ≤ re.updated_at
        → Kept s.idx.files
            (set_entry s.idx
              (record l { updated_at = re.updated_at; mod_time = time; mode = mode })).0.files
    adopted-Kept l re mode time here own later =
        let old : get l.path s.idx.files ≡ some l =
          ap (λ (t : Text). get t s.idx.files) own ∙ here in
        set_entry-Kept s.idx (record l { updated_at = re.updated_at; mod_time = time; mode = mode })
          keyed (rw old later)

    adopt_meta-KeptState :
        (l re : Entry)
        → get re.path s.idx.files ≡ some l
        → l.path ≡ re.path
        → l.updated_at ≤ re.updated_at
        → KeptState s (adopt_meta tree io s l re).0
    unfolding adopt_meta
    adopt_meta-KeptState l re here own later =
        let (fs, timed) = set_times tree io s.fs re.path re.mod_time in
        let (fs', moded) = tree.chmod fs re.path (file_mode re.mode) in
        let (mode, time) =
          disk_meta tree io fs' re.path (file_mode re.mode) re.mod_time l.mod_time in
        elim (Bool-cases timed) [
          | inr bad ↦ rw (bad, adopt_meta) (Kept-refl s.idx.files keyed)
          | inl ok ↦ elim (Bool-cases moded) [
            | inr bad ↦ rw (ok, bad, adopt_meta) (Kept-refl s.idx.files keyed)
            | inl done ↦ rw (ok, done, adopt_meta) (adopted-Kept l re mode time here own later)
          ]
        ]

    exec_meta_only-KeptState :
        (l re : Entry)
        → get re.path s.idx.files ≡ some l
        → l.path ≡ re.path
        → l.updated_at ≤ re.updated_at
        → KeptState s (exec_meta_only tree io s l re).0
    unfolding exec_meta_only
    exec_meta_only-KeptState l re here own later =
        ground (arith, Kept-refl s.idx.files keyed, adopt_meta-KeptState l re here own later)

    -- What `run_kind` leaves, also where content is still to be pulled.
    run_kind-KeptState :
        (cur : Option Entry) (re : Entry) (use_delta : Bool) (kind : ApplyKind)
        → get re.path s.idx.files ≡ cur
        → (kind ≡ ApplyKind.meta_only
            → (l : Entry) × (cur ≡ some l) × (l.path ≡ re.path) × (l.updated_at ≤ re.updated_at))
        → KeptState s (left s (run_kind tree io s cur re use_delta kind))
    unfolding run_kind
    run_kind-KeptState cur re use_delta ApplyKind.noop e h = Kept-refl s.idx.files keyed
    run_kind-KeptState cur re use_delta ApplyKind.tombstone e h = exec_tombstone-KeptState re
    run_kind-KeptState cur re use_delta ApplyKind.delete_live e h = exec_delete_live-KeptState re
    run_kind-KeptState cur re use_delta ApplyKind.content e h = Kept-refl s.idx.files keyed
    run_kind-KeptState cur re use_delta ApplyKind.meta_only e h =
        let (l, there, own, later) = h refl in
        rw there (exec_meta_only-KeptState l re (e ∙ there) own later)

    meta_only-wins :
        (cur : Option Entry) (re : Entry) (on_disk : Bool)
        → (decide_apply (current_entry cur) (is_some cur) re on_disk).kind ≡ ApplyKind.meta_only
        → (l : Entry) × (cur ≡ some l) × (l.updated_at ≤ re.updated_at)
    unfolding decide_apply need_meta wins
    meta_only-wins none re on_disk e = absurd (ground (arith, e))
    meta_only-wins (some l) re on_disk e = (l, refl, ground (arith, e))

    decided-KeptState :
        (re : Entry) (on_disk : Bool)
        → KeptState s (
            left s (
              run_kind tree io s
                (get re.path s.idx.files)
                re
                (decide_apply
                  (current_entry (get re.path s.idx.files))
                  (is_some (get re.path s.idx.files))
                  re
                  on_disk).use_delta
                (decide_apply
                  (current_entry (get re.path s.idx.files))
                  (is_some (get re.path s.idx.files))
                  re
                  on_disk).kind))
    decided-KeptState re on_disk = run_kind-KeptState (get re.path s.idx.files) re _ _ refl (λ e.
        let (l, there, later) = meta_only-wins (get re.path s.idx.files) re on_disk e in
        (
          l,
          there,
          get-All (λ (kv : Text × Entry). kv.1.path ≡ kv.0) re.path l s.idx.files keyed.1 there,
          later,
        ))

    decide_locked-KeptState : (re : Entry) → KeptState s (left s (decide_locked tree io s re))
    unfolding decide_locked
    decide_locked-KeptState re =
        elim (Bool-cases (needs_stat tree io (get re.path s.idx.files) re)) [
          | inr idle ↦ rw (idle, decide_locked) (decided-KeptState re false)
          | inl asks ↦ elim (Stat-cases (tree.stat s.fs re.path)) [
            | inl (fi, there) ↦ rw (asks, there, decide_locked) (decided-KeptState re true)
            | inr (inl gone) ↦ rw (asks, gone, decide_locked) (decided-KeptState re false)
            | inr (inr bad) ↦ rw (asks, bad, decide_locked) (Kept-refl s.idx.files keyed)
          ]
        ]

    pub begin_apply-KeptState :
        (rel_path : Text → Option Text) (cancelled : Bool) (remote : Entry)
        → KeptState s (left s (begin_apply tree io rel_path cancelled s remote))
    unfolding begin_apply
    begin_apply-KeptState rel_path cancelled remote = elim (Option-cases (rel_path remote.path)) [
      | inl bad ↦ rw (bad, begin_apply) (Kept-refl s.idx.files keyed)
      | inr (rel, path) ↦
          let re : Entry = record remote { path = rel } in
          elim (Bool-cases (not re.deleted && text_eqb re.hash [])) [
            | inl bad ↦ rw (path, bad, begin_apply) (Kept-refl s.idx.files keyed)
            | inr fine ↦ elim (Bool-cases cancelled) [
              | inl late ↦ rw (path, fine, late, begin_apply) (Kept-refl s.idx.files keyed)
              | inr going ↦ rw (path, fine, going, begin_apply) (decide_locked-KeptState re)
            ]
          ]
    ]

    written-Raised :
        (now : Time) (fs : tree.Fs) (cur : Option Entry) (re : Entry) (bytes : List ℕ) (got : Text)
        → loses cur re ≡ false
        → Raised cur (some (written_entry tree io now fs cur re bytes got))
    unfolding written_entry
    written-Raised now fs none re bytes got fair = tt
    written-Raised now fs (some l) re bytes got fair = ground (arith, fair, wins_clock l re)

    commit_content-KeptState :
        (now : Time) (re : Entry) (bytes : List ℕ) (got : Text)
        → KeptState s (commit_content tree io now s re bytes got).0
    unfolding written_entry
    commit_content-KeptState now re bytes got =
        let s' : State tree io = (commit_content tree io now s re bytes got).0 in
        elim (Bool-cases (is_done (commit_content tree io now s re bytes got).1)) [
          | inr kept ↦
              same-KeptState s s' s (commit_content_kept tree io now s re bytes got kept)
                (Kept-refl s.idx.files keyed)
          | inl done ↦
              let c : Clear tree io now s re bytes got =
                (commit_content_iff tree io now s re bytes got).0 (is_done_iff _ done) in
              let e : Entry = new_entry tree io now s re bytes got in
              subst (λ (i : Index). Kept s.idx.files i.files)
                (sym (commit_content_idx tree io now s re bytes got c))
                (set_entry-Kept s.idx e keyed (
                  written-Raised now (fs_written tree io now s re bytes got)
                    (get re.path s.idx.files) re bytes got c.0))
        ]

    pub commit_pulled-KeptState :
        (sha : List ℕ → Text) (max_file_bytes : ℕ) (cancelled : Bool) (now : Time) (re : Entry)
        (reply : Pulled)
        → KeptState s (commit_pulled tree io sha max_file_bytes cancelled now s re reply).0
    unfolding commit_pulled
    commit_pulled-KeptState sha max_file_bytes cancelled now re (pull_failed e) =
        Kept-refl s.idx.files keyed
    commit_pulled-KeptState sha max_file_bytes cancelled now re (pulled bytes) =
        ground
          (arith, Kept-refl s.idx.files keyed, commit_content-KeptState now re bytes (sha bytes))
