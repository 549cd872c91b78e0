-- ===== src/Daemon/Apply/Clock.antt =====
-- The clocks of the index over a commit of daemon/apply.go.
use tailsync.Common.{
  ℕ, ◌≤◌, ◌≡◌, inl, inr, refl, sym, ap, Bool, true, false, none, some, Text, List, arith,
  Bool-cases, Option-cases, text_eqb, text_eqb→eq, text_key,
}
use tailsync.Common.Table.{get}
use tailsync.Index.{Entry, Time, Index, wins}
use tailsync.Index.Disk.{FileIo}
use tailsync.Daemon.{Tree, Outcome, finished, failed}
use tailsync.Daemon.Apply.{State, commit_content, write_content, written_entry, loses, file_mode}
use tailsync.Daemon.Apply.Verified.{Clear, commit_content_iff, get-commit_content, new_entry}

-- The clock of a path; the zero time without an entry.
abbrev pub clock_at : Text → Index → Time
clock_at q idx = elim (get q idx.files) [ none ↦ 0 | some e ↦ e.updated_at ]

abbrev pub is_done : Outcome → Bool
is_done (finished b) = b
is_done (failed e) = false

wins_clock : (l r : Entry) → wins l r ≡ true → l.updated_at ≤ r.updated_at
unfolding wins
wins_clock l r w = ground (arith, w)

pub is_done_iff : (o : Outcome) → is_done o ≡ true → o ≡ finished true
is_done_iff (finished b) h = ap finished h
is_done_iff (failed e) h = absurd (ground (arith, h))

module _ (tree : Tree) (io : FileIo) where
  open tree use {write_file_root}

  module _ (now : Time) (s : State tree io) (re : Entry) (bytes : List ℕ) (got : Text) where
    write_content_kept :
        is_done (write_content tree io now s re bytes got).1 ≡ false
        → (write_content tree io now s re bytes got).0.idx ≡ s.idx
    unfolding write_content
    write_content_kept h =
        elim (Bool-cases (write_file_root s.fs re.path bytes (file_mode re.mode)).1) [
          | inl ok ↦ absurd (ground (arith, h, ok))
          | inr bad ↦ rw (bad, write_content) refl
        ]

    pub commit_content_kept :
        is_done (commit_content tree io now s re bytes got).1 ≡ false
        → (commit_content tree io now s re bytes got).0.idx ≡ s.idx
    unfolding commit_content
    commit_content_kept h = ground (arith, h, write_content_kept)

    written_clock :
        (q : Text)
        → loses (get re.path s.idx.files) re ≡ false
        → text_eqb re.path q ≡ true
        → clock_at q s.idx ≤ (new_entry tree io now s re bytes got).updated_at
    unfolding written_entry
    written_clock q fair here =
        let same : get q s.idx.files ≡ get re.path s.idx.files =
          ap (λ (t : Text). get t s.idx.files) (sym (text_eqb→eq re.path q here)) in
        elim (Option-cases (get re.path s.idx.files)) [
          | inl absent ↦ ground (arith, same, absent)
          | inr (l, old) ↦ ground (arith, same, old, fair, wins_clock l re)
        ]

    -- A commit of pulled content, whether it succeeds or not, sets back the clock of no path.
    pub commit_content-clock_at :
        (q : Text) → clock_at q s.idx ≤ clock_at q (commit_content tree io now s re bytes got).0.idx
    commit_content-clock_at q =
        elim (Bool-cases (is_done (commit_content tree io now s re bytes got).1)) [
          | inr kept ↦ ground (arith, commit_content_kept kept)
          | inl done ↦
              let c : Clear tree io now s re bytes got =
                (commit_content_iff tree io now s re bytes got).0 (is_done_iff _ done) in
              let at = get-commit_content tree io now s re bytes got c q in
              elim (Bool-cases (text_eqb re.path q)) [
                | inl here ↦ ground (arith, at, here, written_clock q c.0 here)
                | inr there ↦ ground (arith, at, there)
              ]
        ]
