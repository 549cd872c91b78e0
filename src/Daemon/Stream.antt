-- ===== src/Daemon/Stream.antt =====
-- `handleStream` and `serveMsg` of daemon/serve.go: a request on a stream and the answer. `render`
-- and `unexpected` make the texts of errors.
use tailsync.Common.{ℕ, Bool, Option, none, some, List, Text, if◌then◌else◌, ℤ, clamp}
use tailsync.Index.{Entry, Index, manifest}
use tailsync.Proto.{
  MsgType, Header, Message, HeaderCodec, Writer, encoded, marshal_failed, message_too_large,
  write_failed, encode, new_pong, new_manifest, new_file_data, new_delta, new_error, new_notify_ok,
}
use tailsync.Daemon.{Tree}
use tailsync.Daemon.Serve.{
  ServeError, cancelled, Reply, file_data, delta_data, error_reply, serve_file, serve_delta,
}

-- What `serveMsg` writes, or the text of its error.
pub data Answer : Type 0 where
  replies : Message → Answer
  errs : Text → Answer

abbrev pub answer_with : (ServeError → Text) → Reply → Answer
answer_with render (file_data p e bytes) = replies (new_file_data p e bytes)
answer_with render (delta_data p e raw) = replies (new_delta p e raw)
answer_with render (error_reply x) = errs (render x)

module _ (tree : Tree) (md5 : List ℕ → Text) (rel_path : Text → Option Text) (max_file_bytes : ℕ)
    (ended : Bool) (render : ServeError → Text) (unexpected : MsgType → Text) where
  open tree use {Fs}

  -- `serveMsg` up to the encoding of the message.
  unfoldable pub serve_msg : Index → Fs → Message → Answer
  serve_msg idx fs msg =
      let h : Header = msg.header in
      if ended then errs (render cancelled) else elim h.msg_type [
        | MsgType.ping ↦ replies new_pong
        | MsgType.manifest_req ↦ replies (new_manifest (manifest idx))
        | MsgType.file_req ↦
            answer_with render (serve_file tree md5 rel_path max_file_bytes ended idx fs h.path)
        | MsgType.delta_req ↦ answer_with render (
            serve_delta tree md5 rel_path max_file_bytes ended idx fs h.path (clamp h.block_size)
              msg.payload)
        | _ ↦ errs (unexpected h.msg_type)
      ]

  module _ (codec : HeaderCodec) (out : Writer) (encode_error : Text) where
    open out use {Stream}

    -- A last message on a stream; its failure is ignored.
    abbrev pub write_last : Stream → Message → Option Stream
    write_last w msg = elim (encode codec out w msg) [
      | encoded w' ↦ some w'
      | marshal_failed ↦ some w
      | message_too_large ↦ some w
      | write_failed ↦ none
    ]

    -- An answer on the stream: an error of `serveMsg`, that of the encoding too, goes out as a message.
    unfoldable pub send_answer : Stream → Answer → Option Stream
    send_answer w (errs text) = write_last w (new_error text)
    send_answer w (replies msg) = elim (encode codec out w msg) [
      | encoded w' ↦ some w'
      | marshal_failed ↦ write_last w (new_error encode_error)
      | message_too_large ↦ write_last w (new_error encode_error)
      | write_failed ↦ none
    ]

    -- `handleStream`: the stream with what was written, `none` when a write failed on the way, and
    -- the hints that go to `onNotify`. `slot` is whether a place to serve was free before the end of
    -- the context.
    unfoldable pub handle_stream :
        Text → ℤ → Text → Bool → Index → Fs → Message → Stream → Option Stream × Option (List Entry)
    handle_stream node_id port busy slot idx fs first w =
        let h : Header = first.header in
        let heavy : Option Stream × Option (List Entry) = (
          (if slot then send_answer w (serve_msg idx fs first) else write_last w (new_error busy)),
          none,
        ) in
        elim h.msg_type [
          | MsgType.notify ↦ (write_last w (new_notify_ok node_id port), some h.entries)
          | MsgType.ping ↦ (write_last w new_pong, none)
          | MsgType.manifest_req ↦ heavy
          | MsgType.file_req ↦ heavy
          | MsgType.delta_req ↦ heavy
          | _ ↦ (write_last w (new_error (unexpected h.msg_type)), none)
        ]
