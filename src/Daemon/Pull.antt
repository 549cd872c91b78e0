-- ===== src/Daemon/Pull.antt =====
-- `pullFromSession` of daemon/apply.go with the whole of `applyRemote`. What happens around it is in an
-- `Around`, one for each entry: what the peer answers, and what other goroutines and other programs do
-- to the daemon's state while `syncMu` is released.
use tailsync.Common.{
  ℕ, suc, ◌&&◌, Bool, true, false, not, Option, none, some, List, [], ◌∷◌, ◌++◌, Text,
  if◌then◌else◌, text_key,
}
use tailsync.Common.Table.{get}
use tailsync.Index.{Entry, Time}
use tailsync.Index.Disk.{FileIo, save, saved}
use tailsync.Proto.{Message}
use tailsync.Daemon.{Tree, Failure, Outcome, finished, failed}
use tailsync.Daemon.Apply.{State}
use tailsync.Daemon.Apply.Remote.{
  Pulled, Begun, stopped, wants, begin_apply, commit_pulled, pull_and_verify, is_transport_err,
}
use tailsync.Daemon.Exchange.{
  Exchange, fetched, fetch_failed, fetch_manifest, pull_full, pull_delta,
}

-- `before` leads to the state in which the basis of a delta is read, `meanwhile` to that in which the
-- lock is taken again. The peer answers the delta request and the two file requests. The flags say
-- whether the context has ended at the four looks at it, and whether a place to pull was free.
pub record Around (S : Type 0) : Type 0 where
  pub ended_loop : Bool
  pub ended_begin : Bool
  pub ended_pull : Bool
  pub ended_commit : Bool
  pub slot : Bool
  pub before : S → S
  pub meanwhile : S → S
  pub delta_peer : Message → Exchange
  pub full_peer : Message → Exchange
  pub retry_peer : Message → Exchange
  pub now : Time

-- Why the loop over the entries ended.
pub data Ending : Type 0 where
  all_seen ended transport_lost panicked : Ending

-- The state, whether anything changed, the entries that were taken, and the ending.
pub record Batch (S : Type 0) : Type 0 where
  pub state : S
  pub changed : Bool
  pub acquired : List Entry
  pub ending : Ending

pub data SessionResult : Type 0 where
  pulled_peer closed_session context_ended not_saved run_panicked : SessionResult
  failed_with : Failure → SessionResult

-- The state, the entries that go to `scheduleNotify`, whether the session is invalidated, and the
-- result.
pub record SessionPull (S : Type 0) : Type 0 where
  pub state : S
  pub hints : List Entry
  pub invalidated : Bool
  pub result : SessionResult

abbrev pub append_found : List Entry → Option Entry → List Entry
append_found acquired none = acquired
append_found acquired (some e) = acquired ++ (e ∷ [])

module _ (tree : Tree) (io : FileIo) (sha md5 : List ℕ → Text) (rel_path : Text → Option Text)
    (max_file_bytes block_size : ℕ) where
  -- The verified pull of an entry's content; `none` is a run-time panic.
  unfoldable pub pull_verified :
      Around (State tree io) → State tree io → Entry → Bool → Option Pulled
  pull_verified around s re use_delta =
      let full : Pulled =
        pull_full around.full_peer around.ended_pull around.slot re.path re.hash in
      let retry : Pulled =
        pull_full around.retry_peer around.ended_pull around.slot re.path re.hash in
      if not use_delta
      then some (pull_and_verify sha full full retry re.hash false)
      else elim (pull_delta tree md5 max_file_bytes block_size around.delta_peer around.ended_pull
          around.slot (around.before s).fs re.path re.hash) [
            | none ↦ none
            | some reply ↦ some (pull_and_verify sha reply full retry re.hash true)
          ]

  -- `applyRemote` from the release of the lock on.
  unfoldable pub apply_pulled :
      Around (State tree io)
      → State tree io
      → Entry
      → Option Pulled
      → State tree io × Option Outcome
  apply_pulled around s re none = (around.meanwhile s, none)
  apply_pulled around s re (some reply) =
      let (s', o) =
        commit_pulled tree io sha max_file_bytes around.ended_commit around.now (around.meanwhile s)
          re reply in
      (s', some o)

  abbrev pub apply_begun :
      Around (State tree io)
      → State tree io
      → Begun (State tree io)
      → State tree io × Option Outcome
  apply_begun around s (stopped s' o) = (s', some o)
  apply_begun around s (wants re use_delta) =
      apply_pulled around s re (pull_verified around s re use_delta)

  unfoldable pub apply_remote :
      Around (State tree io) → State tree io → Entry → State tree io × Option Outcome
  apply_remote around s remote =
      apply_begun around s (begin_apply tree io rel_path around.ended_begin s remote)

  -- The loop over the manifest.
  unfoldable pub pull_loop :
      (ℕ → Around (State tree io))
      → ℕ
      → List Entry
      → State tree io
      → Bool
      → List Entry
      → Batch (State tree io)
  pull_loop around i [] s changed acquired = record {
    state = s;
    changed = changed;
    acquired = acquired;
    ending = all_seen;
  }
  pull_loop around i (remote ∷ rest) s changed acquired = elim (around i).ended_loop [
    | true ↦ record { state = s; changed = changed; acquired = acquired; ending = ended }
    | false ↦
        let (s', o) = apply_remote (around i) s remote in
        elim o [
          | none ↦ record { state = s'; changed = changed; acquired = acquired; ending = panicked }
          | some (failed e) ↦ elim (is_transport_err e) [
            | true ↦ record {
              state = s';
              changed = changed;
              acquired = acquired;
              ending = transport_lost;
            }
            | false ↦ pull_loop around (suc i) rest s' changed acquired
          ]
          | some (finished did) ↦ elim did [
            | false ↦ pull_loop around (suc i) rest s' changed acquired
            | true ↦
                pull_loop around (suc i) rest s' true
                  (append_found acquired (get remote.path s'.idx.files))
          ]
        ]
  ]

  -- The end of `pullFromSession` for a batch that is saved or needs no save. `soft` is whether the
  -- error is one of the caller's own cancellations.
  abbrev pub finish_session :
      Bool → State tree io → List Entry → Ending → SessionPull (State tree io)
  finish_session soft s hints transport_lost = record {
    state = s;
    hints = hints;
    invalidated = not soft;
    result = failed_with Failure.transport;
  }
  finish_session soft s hints _ = record {
    state = s;
    hints = hints;
    invalidated = false;
    result = pulled_peer;
  }

  unfoldable pub save_batch : Bool → Batch (State tree io) → SessionPull (State tree io)
  save_batch soft b =
      if not b.changed
      then finish_session soft b.state [] b.ending
      else elim (save io b.state.disk b.state.idx) [
        | saved disk ↦
            finish_session soft (record b.state { disk = disk; applies_since_save = 0 }) b.acquired
              b.ending
        | _ ↦ record { state = b.state; hints = []; invalidated = false; result = not_saved }
      ]

  -- `pullFromSession` behind the loop.
  unfoldable pub end_batch : Bool → Batch (State tree io) → SessionPull (State tree io)
  end_batch soft b = elim b.ending [
    | ended ↦ record { state = b.state; hints = []; invalidated = false; result = context_ended }
    | panicked ↦ record { state = b.state; hints = []; invalidated = false; result = run_panicked }
    | all_seen ↦ save_batch soft b
    | transport_lost ↦ save_batch soft b
  ]

  -- `session_closed` is whether the session is nil or closed at the start.
  unfoldable pub pull_from_session :
      Bool
      → Bool
      → (Message → Exchange)
      → (ℕ → Around (State tree io))
      → State tree io
      → SessionPull (State tree io)
  pull_from_session session_closed soft manifest_peer around s =
      if session_closed
      then record { state = s; hints = []; invalidated = false; result = closed_session }
      else elim (fetch_manifest manifest_peer) [
        | fetch_failed e ↦ record {
          state = s;
          hints = [];
          invalidated = is_transport_err e && not soft;
          result = failed_with e;
        }
        | fetched entries ↦ end_batch soft (pull_loop around 0 entries s false [])
      ]
