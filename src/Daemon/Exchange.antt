-- ===== src/Daemon/Exchange.antt =====
-- The requests of daemon/apply.go: `fetchManifest`, `pullFull` and `pullDelta`. A peer is a function
-- from the request to how the exchange on its stream goes.
pub mod Fits
pub mod Framed
mod Runs
pub mod PullDelta
use tailsync.Common.{
  ℕ, ◌≡◌, Bool, true, false, not, Option, none, some, List, Text, ltb, if◌then◌else◌, ℤ, pos,
}
use tailsync.Index.{Entry}
use tailsync.Proto.{MsgType, Header, Message, new_manifest_req, new_file_req, new_delta_req}
use tailsync.Delta.Apply as Patch
use tailsync.Delta.Sign.{sign_bytes}
use tailsync.Delta.Wire.{Decoded, ok, err, marshal_signature, unmarshal_delta}
use tailsync.Daemon.{Tree, present, absent, stat_error, Failure}
use tailsync.Daemon.Serve.{check_file_size}
use tailsync.Daemon.Apply.Remote.{Pulled, pulled, pull_failed}

-- How far a request gets: no stream could be opened, the request could not be written, no answer could
-- be decoded, or the answer.
pub data Exchange : Type 0 where
  not_opened not_sent not_decoded : Exchange
  answered : Message → Exchange

-- Whether an answer is an error, of the kind that was asked for, or neither.
pub data Verdict : Type 0 where
  peer_error expected unexpected : Verdict

abbrev pub manifest_verdict : MsgType → Verdict
manifest_verdict MsgType.error = peer_error
manifest_verdict MsgType.manifest = expected
manifest_verdict _ = unexpected

abbrev pub file_verdict : MsgType → Verdict
file_verdict MsgType.error = peer_error
file_verdict MsgType.file_data = expected
file_verdict _ = unexpected

abbrev pub delta_verdict : MsgType → Verdict
delta_verdict MsgType.error = peer_error
delta_verdict MsgType.delta = expected
delta_verdict _ = unexpected

-- `([]index.ManifestEntry, error)`
pub data Fetched : Type 0 where
  fetched : List Entry → Fetched
  fetch_failed : Failure → Fetched

-- An error of `OpenStream` carries no mark of the transport here.
unfoldable pub fetch_manifest : (Message → Exchange) → Fetched
fetch_manifest peer = elim (peer new_manifest_req) [
  | not_opened ↦ fetch_failed Failure.local_error
  | not_sent ↦ fetch_failed Failure.transport
  | not_decoded ↦ fetch_failed Failure.transport
  | answered msg ↦ elim (manifest_verdict msg.header.msg_type) [
    | peer_error ↦ fetch_failed Failure.logical
    | unexpected ↦ fetch_failed Failure.transport
    | expected ↦ fetched msg.header.entries
  ]
]

-- `ended` is whether the context has ended, `slot` whether a place to pull was free before.
unfoldable pub pull_full : (Message → Exchange) → Bool → Bool → Text → Text → Pulled
pull_full peer ended slot path hash =
    if ended
    then pull_failed Failure.local_error
    else (if not slot
        then pull_failed Failure.local_error
        else elim (peer (new_file_req path hash)) [
          | not_opened ↦ pull_failed Failure.transport
          | not_sent ↦ pull_failed Failure.transport
          | not_decoded ↦ pull_failed Failure.transport
          | answered msg ↦ elim (file_verdict msg.header.msg_type) [
            | peer_error ↦ pull_failed Failure.logical
            | unexpected ↦ pull_failed Failure.transport
            | expected ↦ pulled msg.payload
          ]
        ])

-- `pullDelta` from the answer on; `none` is a run-time panic.
unfoldable pub patch_with : List ℕ → Exchange → Option Pulled
patch_with basis not_opened = some (pull_failed Failure.transport)
patch_with basis not_sent = some (pull_failed Failure.transport)
patch_with basis not_decoded = some (pull_failed Failure.transport)
patch_with basis (answered msg) = elim (delta_verdict msg.header.msg_type) [
  | peer_error ↦ some (pull_failed Failure.logical)
  | unexpected ↦ some (pull_failed Failure.transport)
  | expected ↦ elim (unmarshal_delta msg.payload) [
    | err x ↦ some (pull_failed Failure.logical)
    | ok d ↦ elim (Patch.apply basis d) [
      | Patch.err x ↦ some (pull_failed Failure.logical)
      | Patch.panic ↦ none
      | Patch.ok bytes ↦ some (pulled bytes)
    ]
  ]
]

module _ (tree : Tree) (md5 : List ℕ → Text) (max_file_bytes block_size : ℕ) where
  open tree use {Fs, stat, read_file}

  unfoldable pub read_file_limited : Fs → Text → Option (List ℕ)
  unfolding check_file_size
  read_file_limited fs rel = elim (stat fs rel) [
    | absent ↦ none
    | stat_error ↦ none
    | present fi ↦ if not (check_file_size max_file_bytes fi.size) then none else read_file fs rel
  ]

  unfoldable pub pull_delta : (Message → Exchange) → Bool → Bool → Fs → Text → Text → Option Pulled
  pull_delta peer ended slot fs path hash =
      if ended then some (pull_failed Failure.local_error) else elim (read_file_limited fs path) [
        | none ↦ some (pull_failed Failure.logical)
        | some basis ↦ elim (sign_bytes md5 basis block_size) [
          | none ↦ some (pull_failed Failure.logical)
          | some sig ↦
              if not slot
              then some (pull_failed Failure.local_error)
              else patch_with basis
                  (peer (new_delta_req path hash (pos block_size) (marshal_signature sig)))
        ]
      ]
