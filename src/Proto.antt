-- ===== src/Proto.antt =====
-- internal/proto/proto.go: the messages between peers and their framing. The JSON codec of a header
-- is a parameter. A message type that the code does not name is `unknown`.
pub mod Frame
pub mod Bounds
mod Runs
use tailsync.Common.{
  ℕ, ◌+◌, ◌-◌, ◌*◌, ◌%◌, ◌^◌, Bool, true, false, ◌&&◌, ◌||◌, not, Option, none, some, List, [], ◌∷◌,
  ◌++◌, Text, ltb, nat_eqb, if◌then◌else◌, length, ℤ, pos, negsuc, negative,
}
use tailsync.Index.{Entry, Time}
use tailsync.Delta.Wire.{Decoded, ok, err, put_le, get_le, read_full}

abbrev pub version : ℤ
version = pos 2

abbrev pub max_message_size : ℕ
max_message_size = 64 * 2 ^ 20

pub data MsgType : Type 0 where
  hello hello_ok already_connected manifest manifest_req file_req file_data delta_req delta
        sync_done notify notify_ok error ping pong :
      MsgType
  unknown : Text → MsgType

pub record Header : Type 0 where
  pub msg_type : MsgType
  pub payload_len : ℤ
  pub node_id : Text
  pub version : ℤ
  pub port : ℤ
  pub path : Text
  pub hash : Text
  pub size : ℤ
  pub error_text : Text
  pub mod_time : Time
  pub mode : ℕ
  pub updated_at : Time
  pub deleted : Bool
  pub entries : List Entry
  pub block_size : ℤ

pub record Message : Type 0 where
  pub header : Header
  pub payload : List ℕ

-- `json.Marshal` and `json.Unmarshal` of a header.
pub record HeaderCodec : Type 0 where
  pub marshal : Header → Option (List ℕ)
  pub unmarshal : List ℕ → Option Header

-- A stream that one writes to; a failed write is `none`.
pub record Writer : Type 1 where
  pub Stream : Type 0
  pub write : Stream → List ℕ → Option Stream

pub data Encoded (S : Type 0) : Type 0 where
  encoded : S → Encoded S
  marshal_failed : Encoded S
  message_too_large : Encoded S
  write_failed : Encoded S

pub data DecodeError : Type 0 where
  eof short_length invalid_length short_header bad_header negative_payload too_large short_payload :
      DecodeError

-- A message with the rest of the stream, an error, or a run-time panic.
pub data Received : Type 0 where
  received : Message → List ℕ → Received
  failed : DecodeError → Received
  panics : Received

-- The message as it is sent, with the length of its payload in the header.
abbrev pub sized : Message → Message
sized msg = record msg { header = record msg.header { payload_len = pos (length msg.payload) } }

module _ (codec : HeaderCodec) (out : Writer) where
  open out use {Stream, write}

  -- `if len(msg.Payload) > 0 { … }`
  unfoldable pub write_payload : Stream → List ℕ → Encoded Stream
  write_payload w [] = encoded w
  write_payload w (b ∷ bs) = elim (write w (b ∷ bs)) [ none ↦ write_failed | some w' ↦ encoded w' ]

  unfoldable pub encode : Stream → Message → Encoded Stream
  unfolding write_payload
  encode w msg = elim (codec.marshal (sized msg).header) [
    | none ↦ marshal_failed
    | some jb ↦
        if ltb max_message_size (4 + length jb + length msg.payload)
        then message_too_large
        else elim (write w (put_le 4 (length jb))) [
          | none ↦ write_failed
          | some w' ↦ elim (write w' jb) [
            | none ↦ write_failed
            | some w'' ↦ write_payload w'' msg.payload
          ]
        ]
  ]

-- `max_alloc` is the size in bytes beyond which the run time cannot make a slice, and panics.
module _ (codec : HeaderCodec) (max_alloc : ℕ) where
  -- `Decode` from the decoded header on. The total is a 64-bit `int`.
  unfoldable pub decode_payload : ℕ → Header → List ℕ → Received
  decode_payload n h r = elim h.payload_len [
    | negsuc k ↦ failed negative_payload
    | pos p ↦
        let total : ℕ = (4 + n + p) % 2 ^ 64 in
        if not (negative total) && ltb max_message_size total
        then failed too_large
        else (if nat_eqb p 0
            then received (record { header = h; payload = [] }) r
            else (if ltb max_alloc p then panics else elim (read_full p r) [
              | err x ↦ failed short_payload
              | ok (payload, r') ↦ received (record { header = h; payload = payload }) r'
            ]))
  ]

  unfoldable pub decode_header : ℕ → List ℕ → Received
  unfolding decode_payload
  decode_header n r =
      if nat_eqb n 0 || ltb (max_message_size - 4) n
      then failed invalid_length
      else elim (read_full n r) [
        | err x ↦ failed short_header
        | ok (hb, r') ↦ elim (codec.unmarshal hb) [
          | none ↦ failed bad_header
          | some h ↦ decode_payload n h r'
        ]
      ]

  unfoldable pub decode : List ℕ → Received
  unfolding decode_header
  decode [] = failed eof
  decode (b ∷ bs) = elim (get_le 4 (b ∷ bs)) [
    | err x ↦ failed short_length
    | ok (n, r) ↦ decode_header n r
  ]

-- `Header{Type: t}`
abbrev pub blank : MsgType → Header
blank t = record {
  msg_type = t;
  payload_len = pos 0;
  node_id = [];
  version = pos 0;
  port = pos 0;
  path = [];
  hash = [];
  size = pos 0;
  error_text = [];
  mod_time = 0;
  mode = 0;
  updated_at = 0;
  deleted = false;
  entries = [];
  block_size = pos 0;
}

-- A message with no payload.
abbrev pub bare : Header → Message
bare h = record { header = h; payload = [] }

-- The header of the handshake messages and of the notifications.
abbrev pub identified : MsgType → Text → ℤ → Header
identified t node_id port = record (blank t) { node_id = node_id; version = version; port = port }

-- The header of the messages that carry the metadata of an entry.
abbrev pub described : MsgType → Text → Entry → Header
described t path e = record (blank t) {
  path = path;
  hash = e.hash;
  size = pos e.size;
  mod_time = e.mod_time;
  mode = e.mode;
  updated_at = e.updated_at;
}

unfoldable pub new_hello : Text → ℤ → Message
new_hello node_id port = bare (identified MsgType.hello node_id port)

unfoldable pub new_hello_ok : Text → ℤ → Message
new_hello_ok node_id port = bare (identified MsgType.hello_ok node_id port)

unfoldable pub new_already_connected : Text → ℤ → Message
new_already_connected node_id port = bare (identified MsgType.already_connected node_id port)

unfoldable pub new_manifest : List Entry → Message
new_manifest entries = bare (record (blank MsgType.manifest) { entries = entries })

unfoldable pub new_manifest_req : Message
new_manifest_req = bare (blank MsgType.manifest_req)

unfoldable pub new_file_req : Text → Text → Message
new_file_req path hash = bare (record (blank MsgType.file_req) { path = path; hash = hash })

unfoldable pub new_file_data : Text → Entry → List ℕ → Message
new_file_data path e bytes = record { header = described MsgType.file_data path e; payload = bytes }

unfoldable pub new_delta_req : Text → Text → ℤ → List ℕ → Message
new_delta_req path want_hash block_size sig = record {
  header = record (blank MsgType.delta_req) {
    path = path;
    hash = want_hash;
    block_size = block_size;
  };
  payload = sig;
}

unfoldable pub new_delta : Text → Entry → List ℕ → Message
new_delta path e bytes = record { header = described MsgType.delta path e; payload = bytes }

unfoldable pub new_error : Text → Message
new_error text = bare (record (blank MsgType.error) { error_text = text })

unfoldable pub new_sync_done : Message
new_sync_done = bare (blank MsgType.sync_done)

unfoldable pub new_notify : Text → ℤ → List Entry → Message
new_notify node_id port hints =
    bare (record (identified MsgType.notify node_id port) { entries = hints })

unfoldable pub new_notify_ok : Text → ℤ → Message
new_notify_ok node_id port = bare (identified MsgType.notify_ok node_id port)

unfoldable pub new_ping : Message
new_ping = bare (blank MsgType.ping)

unfoldable pub new_pong : Message
new_pong = bare (blank MsgType.pong)
