-- ===== src/Daemon/Ledger/Whole.antt =====
-- A reconcile as a whole is a run of the daemon, and the pull from a peer as a whole drops no entry.
use mathlib.Core.Path.{subst}
use tailsync.Common.{
  ℕ, suc, ◌≤◌, ◌≡◌, refl, sym, ◌⊎◌, Bool, true, false, Option, none, some, List, [], ◌∷◌, Text, inl,
  inr, Bool-cases, Option-cases, text_key, ◌||◌, ltb,
}
use tailsync.Common.Table.{get}
use tailsync.Index.{Entry, Time, gc_tombstones}
use tailsync.Index.Disk.{FileIo, save}
use tailsync.Index.Merge.{IsKeyed}
use tailsync.Scan.{Result, Forest, scan}
use tailsync.Scan as Scan
use tailsync.Proto.{Message}
use tailsync.Daemon.{Tree, Outcome, Failure, finished, failed}
use tailsync.Daemon.Apply.{State}
use tailsync.Daemon.Apply.Remote.{Pulled, Begun, stopped, wants, begin_apply, is_transport_err}
use tailsync.Daemon.Exchange.{Exchange, Fetched, fetched, fetch_failed, fetch_manifest}
use tailsync.Daemon.Pull.{
  Around, Ending, all_seen, ended, transport_lost, panicked, Batch, append_found, pull_verified,
  apply_pulled, apply_begun, apply_remote, pull_loop, finish_session, save_batch, end_batch,
  pull_from_session,
}
use tailsync.Daemon.Reconcile.{save_reconciled, reconcile_found, reconcile}
use tailsync.Daemon.Reconcile.Saved.{Save-cases}
use tailsync.Daemon.Ledger.{Raised, Raised-trans}
use tailsync.Daemon.Ledger.Steps.{
  left, Kept, Kept-refl, same-KeptState, begin_apply-KeptState, commit_pulled-KeptState,
}
use tailsync.Daemon.Ledger.Reached.{scans, collects, saves, Run, stay, step, one-Step, shown}

module _ (tree : Tree) (io : FileIo) where
  abbrev S : Type 0
  S = State tree io

  save_reconciled-Run :
      (s : S) (n gc : ℕ) (hints : List Entry)
      → Run tree io s (save_reconciled tree io s n gc hints).0
  unfolding save_reconciled
  save_reconciled-Run s n gc hints =
      elim (Bool-cases (ltb 0 n || (ltb 0 gc || ltb 0 s.applies_since_save))) [
        | inr idle ↦ rw (idle, save_reconciled) (stay s)
        | inl due ↦ elim (Save-cases (save io s.disk s.idx)) [
          | inl (d, done) ↦ rw (due, done, save_reconciled) (one-Step tree io s _ (saves d s))
          | inr (inl bad) ↦ rw (due, bad, save_reconciled) (stay s)
          | inr (inr (inl bad)) ↦ rw (due, bad, save_reconciled) (stay s)
          | inr (inr (inr bad)) ↦ rw (due, bad, save_reconciled) (stay s)
        ]
      ]

  pub reconcile-Run :
      (hash : Text → Option Text) (forest : Forest) (now later : Time) (ttl : ℕ) (s : S)
      → Run tree io s (reconcile tree io hash forest now later ttl s).0
  unfolding reconcile reconcile_found
  reconcile-Run hash forest now later ttl s =
      elim (Option-cases (scan false hash forest s.idx.files now)) [
        | inl bad ↦ rw (bad, reconcile) (stay s)
        | inr (res, found) ↦
            let scanned : S = record s { idx = (Scan.apply s.idx res).0 } in
            let kept : S = record s {
              idx = (gc_tombstones (Scan.apply s.idx res).0 later ttl).0;
            } in
            rw (found, reconcile)
              (step s scanned _ (scans res s) (
                step scanned kept _ (collects later ttl scanned) (
                  save_reconciled-Run kept (Scan.apply s.idx res).1
                    (gc_tombstones (Scan.apply s.idx res).0 later ttl).1 (Scan.apply s.idx res).2)))
      ]

  -- Well-formed before, well-formed after, and no entry is dropped or set back.
  pub record Keeps (s t : S) : Type 0 where
    pub kept : IsKeyed s.idx.files → Kept s.idx.files t.idx.files

  pub Keeps-refl : (s : S) → Keeps s s
  Keeps-refl s = record { kept = Kept-refl s.idx.files }

  same_index : (s t : S) → t.idx ≡ s.idx → Keeps s t
  same_index s t e = record { kept = λ h. same-KeptState tree io s t s e (Kept-refl s.idx.files h) }

  Keeps-trans : (s t u : S) → Keeps s t → Keeps t u → Keeps s u
  Keeps-trans s t u one more = record {
    kept = λ h.
        let (keyed, raised) = one.kept h in
        let (keyed', raised') = more.kept keyed in
        (
          keyed',
          λ q.
              Raised-trans (get q s.idx.files) (get q t.idx.files) (get q u.idx.files) (raised q)
                (raised' q),
        );
  }

  Raised-shown :
      (o : Option Entry) (e : Entry)
      → Raised (some e) o
      → (e' : Entry) × (o ≡ some e') × (e.updated_at ≤ e'.updated_at)
  Raised-shown none e h = absurd h
  Raised-shown (some e') e h = (e', refl, h)

  module _ (sha md5 : List ℕ → Text) (rel_path : Text → Option Text)
      (max_file_bytes block_size : ℕ) where
    apply_pulled-Keeps :
        (around : Around S) (s : S) (re : Entry) (reply : Option Pulled)
        → Keeps s (around.meanwhile s)
        → Keeps s
            (apply_pulled tree io sha md5 rel_path max_file_bytes block_size around s re reply).0
    unfolding apply_pulled
    apply_pulled-Keeps around s re none others = others
    apply_pulled-Keeps around s re (some reply) others =
        Keeps-trans s (around.meanwhile s) _ others (record {
          kept = λ h.
              commit_pulled-KeptState tree io (around.meanwhile s) h sha max_file_bytes
                around.ended_commit around.now re reply;
        })

    begin-Keeps :
        (around : Around S) (s : S) (remote : Entry) (b : Begun S)
        → Keeps s (left tree io s b)
        → Keeps s (around.meanwhile s)
        → Keeps s (apply_begun tree io sha md5 rel_path max_file_bytes block_size around s b).0
    begin-Keeps around s remote (stopped s' o) begun others = begun
    begin-Keeps around s remote (wants re use_delta) begun others =
        apply_pulled-Keeps around s re
          (pull_verified tree io sha md5 rel_path max_file_bytes block_size around s re use_delta)
          others

    apply_remote-Keeps :
        (around : Around S) (s : S) (remote : Entry)
        → ((t : S) → Keeps t (around.meanwhile t))
        → Keeps s
            (apply_remote tree io sha md5 rel_path max_file_bytes block_size around s remote).0
    unfolding apply_remote
    apply_remote-Keeps around s remote others =
        begin-Keeps around s remote (begin_apply tree io rel_path around.ended_begin s remote)
          (record {
            kept = λ h. begin_apply-KeptState tree io s h rel_path around.ended_begin remote;
          })
          (others s)

    Outcome-cases :
        (o : Option Outcome)
        → (o ≡ none)
          ⊎ (((e : Failure) × (o ≡ some (failed e))) ⊎ ((did : Bool) × (o ≡ some (finished did))))
    Outcome-cases none = inl refl
    Outcome-cases (some (failed e)) = inr (inl (e, refl))
    Outcome-cases (some (finished did)) = inr (inr (did, refl))

    pull_loop-Keeps :
        (around : ℕ → Around S) (i : ℕ) (entries : List Entry) (s : S) (changed : Bool)
        (acquired : List Entry)
        → ((k : ℕ) (t : S) → Keeps t ((around k).meanwhile t))
        → Keeps s
            (pull_loop tree io sha md5 rel_path max_file_bytes block_size around i entries s changed
              acquired).state
    unfolding pull_loop
    pull_loop-Keeps around i [] s changed acquired others = Keeps-refl s
    pull_loop-Keeps around i (remote ∷ rest) s changed acquired others =
        let r : S × Option Outcome =
          apply_remote tree io sha md5 rel_path max_file_bytes block_size (around i) s remote in
        let first : Keeps s r.0 = apply_remote-Keeps (around i) s remote (others i) in
        let more : (c : Bool) (a : List Entry)
            → Keeps s
                (pull_loop tree io sha md5 rel_path max_file_bytes block_size around (suc i) rest
                  r.0 c a).state =
          λ c a. Keeps-trans s r.0 _ first (pull_loop-Keeps around (suc i) rest r.0 c a others) in
        elim (Bool-cases (around i).ended_loop) [
          | inl end ↦ rw (end, pull_loop) (Keeps-refl s)
          | inr going ↦ elim (Outcome-cases r.1) [
            | inl crash ↦ rw (going, crash, pull_loop) first
            | inr (inl (e, bad)) ↦ elim (Bool-cases (is_transport_err e)) [
              | inl lost ↦ rw (going, bad, lost, pull_loop) first
              | inr soft ↦ rw (going, bad, soft, pull_loop) (more changed acquired)
            ]
            | inr (inr (true, fine)) ↦
                rw (going, fine, pull_loop)
                  (more true (append_found acquired (get remote.path r.0.idx.files)))
            | inr (inr (false, fine)) ↦ rw (going, fine, pull_loop) (more changed acquired)
          ]
        ]

    finish_session-state :
        (soft : Bool) (s : S) (hints : List Entry) (x : Ending)
        → (finish_session tree io sha md5 rel_path max_file_bytes block_size soft s hints x).state
          ≡ s
    finish_session-state soft s hints all_seen = refl
    finish_session-state soft s hints ended = refl
    finish_session-state soft s hints transport_lost = refl
    finish_session-state soft s hints panicked = refl

    save_batch-Keeps :
        (soft : Bool) (b : Batch S)
        → Keeps b.state (save_batch tree io sha md5 rel_path max_file_bytes block_size soft b).state
    unfolding save_batch
    save_batch-Keeps soft b = elim (Bool-cases b.changed) [
      | inr same ↦
          rw (same, save_batch)
            (subst (Keeps b.state) (sym (finish_session-state soft b.state [] b.ending))
              (Keeps-refl b.state))
      | inl new ↦ elim (Save-cases (save io b.state.disk b.state.idx)) [
        | inl (d, done) ↦
            let s' : S = record b.state { disk = d; applies_since_save = 0 } in
            rw (new, done, save_batch)
              (subst (Keeps b.state) (sym (finish_session-state soft s' b.acquired b.ending))
                (same_index b.state s' refl))
        | inr (inl bad) ↦ rw (new, bad, save_batch) (Keeps-refl b.state)
        | inr (inr (inl bad)) ↦ rw (new, bad, save_batch) (Keeps-refl b.state)
        | inr (inr (inr bad)) ↦ rw (new, bad, save_batch) (Keeps-refl b.state)
      ]
    ]

    end_batch-Keeps :
        (soft : Bool) (b : Batch S) (x : Ending)
        → b.ending ≡ x
        → Keeps b.state (end_batch tree io sha md5 rel_path max_file_bytes block_size soft b).state
    unfolding end_batch
    end_batch-Keeps soft b all_seen e = rw (e, end_batch) (save_batch-Keeps soft b)
    end_batch-Keeps soft b transport_lost e = rw (e, end_batch) (save_batch-Keeps soft b)
    end_batch-Keeps soft b ended e = rw (e, end_batch) (Keeps-refl b.state)
    end_batch-Keeps soft b panicked e = rw (e, end_batch) (Keeps-refl b.state)

    Fetched-cases :
        (r : Fetched)
        → ((es : List Entry) × (r ≡ fetched es)) ⊎ ((e : Failure) × (r ≡ fetch_failed e))
    Fetched-cases (fetched es) = inl (es, refl)
    Fetched-cases (fetch_failed e) = inr (e, refl)

    pub pull_from_session-Keeps :
        (session_closed soft : Bool) (manifest_peer : Message → Exchange) (around : ℕ → Around S)
        (s : S)
        → ((k : ℕ) (t : S) → Keeps t ((around k).meanwhile t))
        → Keeps s
            (pull_from_session tree io sha md5 rel_path max_file_bytes block_size session_closed
              soft manifest_peer around s).state
    unfolding pull_from_session
    pull_from_session-Keeps session_closed soft manifest_peer around s others =
        elim (Bool-cases session_closed) [
          | inl shut ↦ rw (shut, pull_from_session) (Keeps-refl s)
          | inr live ↦ elim (Fetched-cases (fetch_manifest manifest_peer)) [
            | inr (e, bad) ↦ rw (live, bad, pull_from_session) (Keeps-refl s)
            | inl (entries, got) ↦
                let b : Batch S =
                  pull_loop tree io sha md5 rel_path max_file_bytes block_size around 0 entries s
                    false [] in
                rw (live, got, pull_from_session)
                  (Keeps-trans s b.state _ (pull_loop-Keeps around 0 entries s false [] others)
                    (end_batch-Keeps soft b b.ending refl))
          ]
        ]

    -- A pull from a peer loses nothing: from a well-formed index, whatever manifest and content the
    -- peer sends and however its streams fail, the index is well-formed afterwards, and a path that had
    -- an entry has one, live or a tombstone, whose clock is not earlier; where what other goroutines do
    -- to the index in between keeps this too, as all but the collection of tombstones do.
    pub pull_from_session-Kept :
        (session_closed soft : Bool) (manifest_peer : Message → Exchange) (around : ℕ → Around S)
        (s : S) (q : Text) (e : Entry)
        → ((k : ℕ) (t : S) → Keeps t ((around k).meanwhile t))
        → IsKeyed s.idx.files
        → shown s.idx q ≡ some e
        → IsKeyed
            (pull_from_session tree io sha md5 rel_path max_file_bytes block_size session_closed
              soft manifest_peer around s).state.idx.files
          × ((e' : Entry) × (shown
                  (pull_from_session tree io sha md5 rel_path max_file_bytes block_size
                    session_closed soft manifest_peer around s).state.idx
                  q
                ≡ some e')
              × (e.updated_at ≤ e'.updated_at))
    pull_from_session-Kept session_closed soft manifest_peer around s q e others keyed there =
        let t : S =
          (pull_from_session tree io sha md5 rel_path max_file_bytes block_size session_closed soft
            manifest_peer around s).state in
        let (keyed', raised) =
          (pull_from_session-Keeps session_closed soft manifest_peer around s others).kept keyed in
        (
          keyed',
          Raised-shown (shown t.idx q) e (subst (λ o. Raised o (shown t.idx q)) there (raised q)),
        )
