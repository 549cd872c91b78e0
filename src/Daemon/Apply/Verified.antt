-- ===== src/Daemon/Apply/Verified.antt =====
-- What daemon/apply.go puts into the index behind a pull.
use tailsync.Common.{
  ℕ, ◌≤◌, ◌≡◌, ◌↔◌, ◌≢◌, if◌then◌else◌, ◌⊎◌, inl, inr, refl, sym, ap, ◌∙◌, Bool, true, false, some,
  Text, arith, Bool-cases, text_eqb, text_eqb→eq, text_eqb_refl, eqb-eq_false, text_key, List,
  length, ltb,
}
use tailsync.Common.Table.{get, get-put}
use tailsync.Index.{Entry, Time, Index, set_entry}
use tailsync.Index.Disk.{FileIo}
use tailsync.Daemon.{Tree, Failure, finished, failed}
use tailsync.Daemon.Apply.{
  State, disk_unsynced, commit_content, write_content, written_entry, current_entry, is_live, loses,
  maybe_save_locked, file_mode, set_times,
}
use tailsync.Daemon.Apply.Remote.{
  Pulled, pulled, pull_failed, pull_content, pull_and_verify, commit_pulled,
}

Pulled-cases :
    (r : Pulled) → ((b : List ℕ) × (r ≡ pulled b)) ⊎ ((e : Failure) × (r ≡ pull_failed e))
Pulled-cases (pulled b) = inl (b, refl)
Pulled-cases (pull_failed e) = inr (e, refl)

-- Whatever the peer answers, the bytes that the pull hands on have the SHA-256 sum that was asked
-- for.
pub sha-pull_and_verify :
    (sha : List ℕ → Text) (delta_reply full_reply retry : Pulled) (want : Text) (use_delta : Bool)
    (bytes : List ℕ)
    → pull_and_verify sha delta_reply full_reply retry want use_delta ≡ pulled bytes
    → sha bytes ≡ want
unfolding pull_and_verify
sha-pull_and_verify sha d f retry want use_delta bytes h =
    elim (Pulled-cases (pull_content d f use_delta)) [
      | inr (e, bad) ↦ absurd (ground (arith, bad))
      | inl (b, got) ↦ elim (Bool-cases (text_eqb (sha b) want)) [
        | inl same ↦
            let eq : b ≡ bytes = ground (arith, got, same) in
            ap sha (sym eq) ∙ text_eqb→eq (sha b) want same
        | inr other ↦ elim (Pulled-cases retry) [
          | inr (e, bad) ↦ absurd (ground (arith, got, other, bad))
          | inl (again, got') ↦
              let eq : again ≡ bytes = ground (arith, got, other, got') in
              ap sha (sym eq) ∙ text_eqb→eq (sha again) want (ground (arith, got, other, got'))
        ]
      ]
    ]

module _ (tree : Tree) (io : FileIo) where
  open tree use {Fs, stat, write_file_root}

  pub maybe_save_locked_idx :
      (s : State tree io)
      → ((maybe_save_locked tree io s).idx ≡ s.idx) × ((maybe_save_locked tree io s).fs ≡ s.fs)
  unfolding maybe_save_locked
  maybe_save_locked_idx s = ground arith

  module _ (now : Time) (s : State tree io) (re : Entry) (bytes : List ℕ) (got : Text) where
    -- The conditions under which content is written.
    abbrev pub Clear : Type 0
    Clear =
        (loses (get re.path s.idx.files) re ≡ false)
        × (disk_unsynced tree io s.fs re.path (current_entry (get re.path s.idx.files))
              (is_live (get re.path s.idx.files))
            ≡ some false)
        × ((write_file_root s.fs re.path bytes (file_mode re.mode)).1 ≡ true)

    abbrev pub fs_written : Fs
    fs_written =
        (set_times tree io (write_file_root s.fs re.path bytes (file_mode re.mode)).0 re.path
          re.mod_time).0

    abbrev pub new_entry : Entry
    new_entry = written_entry tree io now fs_written (get re.path s.idx.files) re bytes got

    pub write_content_idx :
        (write_file_root s.fs re.path bytes (file_mode re.mode)).1 ≡ true
        → ((write_content tree io now s re bytes got).0.idx ≡ (set_entry s.idx new_entry).0)
          × ((write_content tree io now s re bytes got).1 ≡ finished true)
          × ((write_content tree io now s re bytes got).0.fs ≡ fs_written)
    unfolding write_content
    write_content_idx ok =
        rw (ok, write_content) ((maybe_save_locked_idx _).0, refl, (maybe_save_locked_idx _).1)

    write_content_fails :
        (write_file_root s.fs re.path bytes (file_mode re.mode)).1 ≡ false
        → (write_content tree io now s re bytes got).1 ≡ failed Failure.local_error
    unfolding write_content
    write_content_fails bad = rw (bad, write_content) refl

    -- Pulled content is committed, and the commit reported, exactly if the remote entry still wins,
    -- the file on disk is absent or what the index says of it, and the write succeeds.
    pub commit_content_iff : ((commit_content tree io now s re bytes got).1 ≡ finished true) ↔ Clear
    unfolding commit_content
    commit_content_iff = (λ h. clear h, λ c. ground (arith, c, (write_content_idx c.2).1))
      where
        clear : (commit_content tree io now s re bytes got).1 ≡ finished true → Clear
        clear h = ground (arith, h, write_content_fails)

    pub commit_content_idx :
        Clear → (commit_content tree io now s re bytes got).0.idx ≡ (set_entry s.idx new_entry).0
    unfolding commit_content
    commit_content_idx c = ground (arith, c, (write_content_idx c.2).0)

    commit_content_fs : Clear → (commit_content tree io now s re bytes got).0.fs ≡ fs_written
    unfolding commit_content
    commit_content_fs c = ground (arith, c, (write_content_idx c.2).2)

    pub get-commit_content :
        Clear
        → (q : Text)
        → get q (commit_content tree io now s re bytes got).0.idx.files
          ≡ (if text_eqb re.path q then some new_entry else get q s.idx.files)
    unfolding set_entry written_entry
    get-commit_content c q =
        ap (λ (i : Index). get q i.files) (commit_content_idx c)
        ∙ get-put re.path q new_entry s.idx.files

  pub commit_pulled-pull_and_verify :
      (sha : List ℕ → Text) (max_file_bytes : ℕ) (cancelled use_delta : Bool) (now : Time)
      (s : State tree io) (re : Entry) (delta_reply full_reply retry : Pulled) (q : Text)
      → re.updated_at ≢ 0
      → q ≢ re.path
      → (commit_pulled tree io sha max_file_bytes cancelled now s re
          (pull_and_verify sha delta_reply full_reply retry re.hash use_delta)).1
        ≡ finished true
      → (bytes : List ℕ) × (e : Entry) × (sha bytes ≡ re.hash)
        × (length bytes ≤ max_file_bytes)
        × ((write_file_root s.fs re.path bytes (file_mode re.mode)).1 ≡ true)
        × ((commit_pulled tree io sha max_file_bytes cancelled now s re
              (pull_and_verify sha delta_reply full_reply retry re.hash use_delta)).0.fs
            ≡ (set_times tree io
                (write_file_root s.fs re.path bytes (file_mode re.mode)).0
                re.path
                re.mod_time).0)
        × (get re.path
              (commit_pulled tree io sha max_file_bytes cancelled now s re
                (pull_and_verify sha delta_reply full_reply retry re.hash use_delta)).0.idx.files
            ≡ some e)
        × (e.hash ≡ re.hash)
        × (e.size ≡ length bytes)
        × (e.deleted ≡ re.deleted)
        × (e.updated_at ≡ re.updated_at)
        × (get q
              (commit_pulled tree io sha max_file_bytes cancelled now s re
                (pull_and_verify sha delta_reply full_reply retry re.hash use_delta)).0.idx.files
            ≡ get q s.idx.files)
  unfolding commit_pulled written_entry
  commit_pulled-pull_and_verify sha m cancelled use_delta now s re d f r q clock other h =
      elim (Pulled-cases (pull_and_verify sha d f r re.hash use_delta)) [
        | inr (e, bad) ↦ absurd (ground (arith, bad))
        | inl (bytes, got) ↦
            let hash : sha bytes ≡ re.hash =
              sha-pull_and_verify sha d f r re.hash use_delta bytes got in
            let fits : ltb m (length bytes) ≡ false = ground (arith, got) in
            let going : cancelled ≡ false = ground (arith, got, fits) in
            let done : (commit_content tree io now s re bytes (sha bytes)).1 ≡ finished true =
              ground (arith, got, fits, going) in
            let c : Clear now s re bytes (sha bytes) =
              (commit_content_iff now s re bytes (sha bytes)).0 done in
            let found = get-commit_content now s re bytes (sha bytes) c in
            (
              bytes,
              new_entry now s re bytes (sha bytes),
              hash,
              ground arith,
              c.2,
              rw (got, fits, going, commit_pulled) (commit_content_fs now s re bytes (sha bytes) c),
              rw (got, fits, going, commit_pulled)
                  (found re.path ∙ rw (text_eqb_refl re.path) refl),
              hash,
              refl,
              refl,
              ground (arith, clock),
              rw (got, fits, going, commit_pulled)
                  (found q ∙ rw (eqb-eq_false text_key re.path q (λ e. other (sym e))) refl),
            )
      ]
