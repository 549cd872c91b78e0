-- ===== src/Daemon/Apply/Remote.antt =====
-- `applyRemote` of daemon/apply.go with the pull and its check. What a peer answers is arbitrary:
-- the replies to the delta request and the file requests are arguments.
use tailsync.Common.{
  ℕ, Bool, true, false, ◌&&◌, not, Option, none, some, List, [], Text, text_eqb, ltb, length,
  if◌then◌else◌, text_key,
}
use tailsync.Common.Table.{get}
use tailsync.Index.{Entry, Time}
use tailsync.Index.Disk.{FileIo}
use tailsync.Daemon.{Tree, present, absent, stat_error, Failure, Outcome, finished, failed}
use tailsync.Daemon.Decide.{ApplyKind, ApplyDecision, decide_apply}
use tailsync.Daemon.Apply.{
  State, exec_tombstone, exec_delete_live, exec_meta_only, commit_content, current_entry, is_some,
  is_live,
}

-- `([]byte, error)`
pub data Pulled : Type 0 where
  pulled : List ℕ → Pulled
  pull_failed : Failure → Pulled

-- `errTransport` and `io.EOF` count as transport errors.
unfoldable pub is_transport_err : Failure → Bool
is_transport_err Failure.transport = true
is_transport_err Failure.logical = false
is_transport_err Failure.local_error = false

-- `delta_reply` and `full_reply` are the results of `pullDelta` and `pullFull`.
unfoldable pub pull_content : Pulled → Pulled → Bool → Pulled
unfolding is_transport_err
pull_content delta_reply full_reply use_delta =
    if use_delta
    then elim delta_reply [
      | pulled bytes ↦ pulled bytes
      | pull_failed e ↦ if is_transport_err e then pull_failed e else full_reply
    ]
    else full_reply

-- `sha` is the hexadecimal SHA-256 sum, `retry` the result of the second `pullFull`.
unfoldable pub pull_and_verify : (List ℕ → Text) → Pulled → Pulled → Pulled → Text → Bool → Pulled
unfolding pull_content
pull_and_verify sha delta_reply full_reply retry want use_delta =
    elim (pull_content delta_reply full_reply use_delta) [
      | pull_failed e ↦ pull_failed e
      | pulled bytes ↦
          if text_eqb (sha bytes) want
          then pulled bytes
          else (if use_delta
              then elim retry [
                | pull_failed e ↦ pull_failed e
                | pulled again ↦
                    if text_eqb (sha again) want then pulled again else pull_failed Failure.logical
              ]
              else pull_failed Failure.logical)
    ]

-- Where the first part of `applyRemote` ends: with a result, or with the lock released and content
-- to pull.
pub data Begun (S : Type 0) : Type 0 where
  stopped : S → Outcome → Begun S
  wants : Entry → Bool → Begun S

abbrev pub stop : {S : Type 0} → S × Outcome → Begun S
stop r = stopped r.0 r.1

module _ (tree : Tree) (io : FileIo) where
  open tree use {stat}

  -- The switch over the kind of a decision.
  unfoldable pub run_kind :
      State tree io → Option Entry → Entry → Bool → ApplyKind → Begun (State tree io)
  run_kind s cur re use_delta ApplyKind.noop = stopped s (finished false)
  run_kind s cur re use_delta ApplyKind.tombstone = stop (exec_tombstone tree io s re)
  run_kind s cur re use_delta ApplyKind.delete_live = stop (exec_delete_live tree io s re)
  run_kind s cur re use_delta ApplyKind.meta_only =
      stop (exec_meta_only tree io s (current_entry cur) re)
  run_kind s cur re use_delta ApplyKind.content = wants re use_delta

  -- Whether `applyRemote` asks for the file on disk.
  unfoldable pub needs_stat : Option Entry → Entry → Bool
  needs_stat cur re = is_live cur && (not re.deleted && text_eqb (current_entry cur).hash re.hash)

  -- `applyRemote` from the lookup of the local entry on.
  unfoldable pub decide_locked : State tree io → Entry → Begun (State tree io)
  decide_locked s re =
      let cur : Option Entry = get re.path s.idx.files in
      let decided : Bool → Begun (State tree io) = λ on_disk.
        (let dec : ApplyDecision = decide_apply (current_entry cur) (is_some cur) re on_disk in
          run_kind s cur re dec.use_delta dec.kind) in
      if needs_stat cur re
      then elim (stat s.fs re.path) [
        | present fi ↦ decided true
        | absent ↦ decided false
        | stat_error ↦ stopped s (failed Failure.local_error)
      ]
      else decided false

  -- `applyRemote` until the lock is released. `rel_path` is `relPath`; `cancelled` says whether the
  -- context has ended.
  unfoldable pub begin_apply :
      (Text → Option Text) → Bool → State tree io → Entry → Begun (State tree io)
  unfolding decide_locked
  begin_apply rel_path cancelled s remote = elim (rel_path remote.path) [
    | none ↦ stopped s (failed Failure.local_error)
    | some rel ↦
        let re : Entry = record remote { path = rel } in
        if not re.deleted && text_eqb re.hash []
        then stopped s (failed Failure.logical)
        else (if cancelled then stopped s (failed Failure.local_error) else decide_locked s re)
  ]

  -- `applyRemote` behind the pull, from the state that is there when the lock is taken again.
  unfoldable pub commit_pulled :
      (List ℕ → Text) → ℕ → Bool → Time → State tree io → Entry → Pulled → State tree io × Outcome
  commit_pulled sha max_file_bytes cancelled now s re reply = elim reply [
    | pull_failed e ↦ (s, failed e)
    | pulled bytes ↦
        if ltb max_file_bytes (length bytes)
        then (s, failed Failure.local_error)
        else (if cancelled
            then (s, failed Failure.local_error)
            else commit_content tree io now s re bytes (sha bytes))
  ]
