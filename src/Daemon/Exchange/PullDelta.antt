-- ===== src/Daemon/Exchange/PullDelta.antt =====
-- `pullDelta` of one daemon against `serveMsg` of another: the exchange from end to end.
use mathlib.Core.Path.{subst}
use tailsync.Common.{
  pos, ltb, not, if◌then◌else◌, ◌+◌, ◌*◌, ℕ, ◌^◌, ◌≤◌, ◌≡◌, refl, sym, ap, ◌∙◌, Bool, true, false,
  some, Option, inl, List, [], Text, length, arith, text_eqb,
}
use tailsync.Index.{Entry, Index}
use tailsync.Proto.{
  max_message_size, Header, Message, MsgType, sized, new_error, new_delta, new_delta_req,
}
use tailsync.Delta.{Signature, Delta, max_output_size}
use tailsync.Delta.Apply as Patch
use tailsync.Delta.Expand.{NoCollision, Describes, expand}
use tailsync.Delta.Encode.{encode_bytes}
use tailsync.Delta.RoundTrip.{apply-encode_bytes, encode_bytes-expand, sign_bytes-Describes}
use tailsync.Delta.Wire.{ok, marshal_signature, unmarshal_signature, marshal_delta, unmarshal_delta}
use tailsync.Delta.Wire.Deltas.{unmarshal_delta-marshal_delta}
use tailsync.Delta.Wire.Signatures.{unmarshal_signature-marshal_signature}
use tailsync.Daemon.{Tree}
use tailsync.Daemon.Serve.{
  ServeError, serves, delta_data, serve_entry, check_signature, serve_delta, validate_block_size,
}
use tailsync.Daemon.Stream.{Answer, replies, errs, serve_msg}
use tailsync.Daemon.Apply.Remote.{pulled}
use tailsync.Daemon.Exchange.{
  Exchange, answered, not_sent, not_decoded, patch_with, read_file_limited, pull_delta,
}
use tailsync.Daemon.Exchange.Framed.{encode_bytes_short, signature_short}
use tailsync.Daemon.Exchange.Fits.{encode_bytes-Fits, blocks-FitsBlock, blocks_few}

abbrev pub message_of : Answer → Message
message_of (replies msg) = msg
message_of (errs text) = new_error text

-- Whether `Encode` sends a message; `header_len` is the length of a header as JSON.
abbrev pub framed : (Header → ℕ) → Message → Bool
framed header_len msg =
    not (ltb max_message_size (4 + header_len (sized msg).header + length msg.payload))

-- An exchange in which each message that `Encode` sends arrives as it is read from the stream. Where the
-- answer is not sent, the stream ends without one.
abbrev pub reaching : (Header → ℕ) → (Message → Answer) → Message → Exchange
reaching header_len serve req =
    if not (framed header_len req)
    then not_sent
    else (if not (framed header_len (message_of (serve (sized req))))
        then not_decoded
        else answered (sized (message_of (serve (sized req)))))

-- A header of at most 1 MiB and a payload with its length of at most 63 MiB go into a frame.
short-framed :
    (header_len : Header → ℕ) (msg : Message)
    → header_len (sized msg).header ≤ 2 ^ 20
    → length msg.payload + 4 ≤ 63 * 2 ^ 20
    → framed header_len msg ≡ true
short-framed header_len msg h p = ground (arith, h, p)

reaching_lem :
    (header_len : Header → ℕ) (serve : Message → Answer) (req ans : Message)
    → framed header_len req ≡ true
    → message_of (serve (sized req)) ≡ ans
    → framed header_len ans ≡ true
    → reaching header_len serve req ≡ answered (sized ans)
reaching_lem header_len serve req ans sends same answers = rw (sends, same, answers) refl

module _ (md5 : List ℕ → Text) (basis target : List ℕ) (sig : Signature)
    (describes : Describes md5 basis sig) (low : 256 ≤ sig.block_size)
    (high : sig.block_size ≤ 2 ^ 20) (small : length basis ≤ 2 ^ 32)
    (fits : length target ≤ max_output_size) where
  -- The delta of a served file, read back and applied.
  delta_arrives :
      NoCollision md5 basis sig.block_size target
      → (d : Delta) × (encode_bytes md5 target (some sig) ≡ some d)
        × (unmarshal_delta (marshal_delta d) ≡ ok d)
        × (Patch.apply basis d ≡ Patch.ok target)
  delta_arrives clear =
      let (d, e, same, inside, bs, size) =
        encode_bytes-expand md5 basis target sig describes clear (omega (arith, low)) in
      let (d', e', applied) =
        apply-encode_bytes md5 basis target sig describes clear (omega (arith, low)) fits
          (omega (arith, high, small)) in
      let one : d' ≡ d = ground (arith, e, e') in
      (
        d,
        e,
        unmarshal_delta-marshal_delta d
            (encode_bytes-Fits md5 basis target sig d low high small fits e same inside bs size),
        ap (Patch.apply basis) (sym one) ∙ applied,
      )

  signature_arrives :
      ((b : List ℕ) → length (md5 b) ≡ 16) → unmarshal_signature (marshal_signature sig) ≡ ok sig
  signature_arrives sums =
      unmarshal_signature-marshal_signature sig (omega (arith, high))
        (blocks_few md5 basis sig describes low small sums)
        (blocks-FitsBlock md5 basis sig describes low small sums)

marshal_signature_nonempty : (sig : Signature) → text_eqb (marshal_signature sig) [] ≡ false
unfolding marshal_signature
marshal_signature_nonempty sig = refl

module _ (tree : Tree) (md5 : List ℕ → Text) (rel_path : Text → Option Text) (max_file_bytes : ℕ)
    (ended : Bool) where
  open tree use {Fs, read_file}

  check_signature-marshal_signature :
      (sig : Signature)
      → 256 ≤ sig.block_size
      → sig.block_size ≤ 2 ^ 20
      → unmarshal_signature (marshal_signature sig) ≡ ok sig
      → check_signature tree md5 rel_path max_file_bytes ended sig.block_size
          (marshal_signature sig)
        ≡ inl (some sig)
  unfolding check_signature validate_block_size
  check_signature-marshal_signature sig low high read =
      ground (arith, read, marshal_signature_nonempty sig, low, high)

  serve_delta_lem :
      (idx : Index) (fs : Fs) (rel p : Text) (e : Entry) (target raw : List ℕ) (bs : ℕ)
      (sig : Signature) (d : Delta)
      → serve_entry tree md5 rel_path max_file_bytes ended idx fs rel ≡ serves e p
      → read_file fs p ≡ some target
      → check_signature tree md5 rel_path max_file_bytes ended bs raw ≡ inl (some sig)
      → encode_bytes md5 target (some sig) ≡ some d
      → serve_delta tree md5 rel_path max_file_bytes ended idx fs rel bs raw
        ≡ delta_data p e (marshal_delta d)
  unfolding serve_delta
  serve_delta_lem idx fs rel p e target raw bs sig d entry found checked encoded =
      ground (arith, entry, found, checked, encoded)

patch_with_lem :
    (basis target : List ℕ) (p : Text) (e : Entry) (d : Delta)
    → unmarshal_delta (marshal_delta d) ≡ ok d
    → Patch.apply basis d ≡ Patch.ok target
    → patch_with basis (answered (sized (new_delta p e (marshal_delta d)))) ≡ some (pulled target)
unfolding patch_with new_delta
patch_with_lem basis target p e d read applied = ground (arith, read, applied)

module _ (local remote : Tree) (md5 : List ℕ → Text) (rel_path : Text → Option Text)
    (local_max remote_max : ℕ) (render : ServeError → Text) (unexpected : MsgType → Text) where
  -- Where one daemon serves a file of at most 60 MiB, and another has a file of at most 512 MiB at the
  -- path, within its limit, the delta exchange between the two ends with exactly the bytes that are
  -- served, and both messages keep to the frame limit of `Encode`: for every block size from 256 bytes
  -- to 1 MiB, if the headers of the two messages take at most 1 MiB each, MD5 sums have 16 bytes and
  -- none of the local blocks has the sum of a different window of the file.
  pub pull_delta-serve_msg :
      (header_len : Header → ℕ) (idx : Index) (mine : local.Fs) (theirs : remote.Fs)
      (path hash p : Text) (e : Entry) (basis target : List ℕ) (bs : ℕ)
      → read_file_limited local md5 local_max bs mine path ≡ some basis
      → serve_entry remote md5 rel_path remote_max false idx theirs path ≡ serves e p
      → remote.read_file theirs p ≡ some target
      → 256 ≤ bs
      → bs ≤ 2 ^ 20
      → length basis ≤ 2 ^ 29
      → length target ≤ 60 * 2 ^ 20
      → ((raw : List ℕ) → header_len (sized (new_delta_req path hash (pos bs) raw)).header ≤ 2 ^ 20)
      → ((raw : List ℕ) → header_len (sized (new_delta p e raw)).header ≤ 2 ^ 20)
      → ((b : List ℕ) → length (md5 b) ≡ 16)
      → NoCollision md5 basis bs target
      → pull_delta local md5 local_max bs
          (reaching header_len
            (serve_msg remote md5 rel_path remote_max false render unexpected idx theirs))
          false
          true
          mine
          path
          hash
        ≡ some (pulled target)
  unfolding pull_delta serve_msg new_delta_req new_delta
  pull_delta-serve_msg header_len idx mine theirs path hash p e basis target bs have entry found low
        high small fits asks answers sums clear =
      let (sig, signed, block, describes) =
        sign_bytes-Describes md5 basis bs (omega (arith, low)) in
      let low' : 256 ≤ sig.block_size = omega (arith, block, low) in
      let high' : sig.block_size ≤ 2 ^ 20 = omega (arith, block, high) in
      let clear' : NoCollision md5 basis sig.block_size target =
        subst (λ n. NoCollision md5 basis n target) (sym block) clear in
      let (d, encoded, read, applied) =
        delta_arrives md5 basis target sig describes low' high' (omega (arith, small))
          (omega (arith, fits)) clear' in
      let (d', encoded', same, inside, _, _) =
        encode_bytes-expand md5 basis target sig describes clear' (omega (arith, low')) in
      let one : d' ≡ d = ground (arith, encoded, encoded') in
      let checked : check_signature remote md5 rel_path remote_max false bs (marshal_signature sig)
          ≡ inl (some sig) =
        ap (λ n. check_signature remote md5 rel_path remote_max false n (marshal_signature sig))
          (sym block)
        ∙ check_signature-marshal_signature remote md5 rel_path remote_max false sig low' high' (
            signature_arrives md5 basis target sig describes low' high' (omega (arith, small))
              (omega (arith, fits)) sums) in
      let served : serve_delta remote md5 rel_path remote_max false idx theirs path bs
            (marshal_signature sig)
          ≡ delta_data p e (marshal_delta d) =
        serve_delta_lem remote md5 rel_path remote_max false idx theirs path p e target
          (marshal_signature sig) bs sig d entry found checked encoded in
      let arrives : reaching header_len
            (serve_msg remote md5 rel_path remote_max false render unexpected idx theirs)
            (new_delta_req path hash (pos bs) (marshal_signature sig))
          ≡ answered (sized (new_delta p e (marshal_delta d))) =
        reaching_lem header_len
          (serve_msg remote md5 rel_path remote_max false render unexpected idx theirs)
          (new_delta_req path hash (pos bs) (marshal_signature sig))
          (new_delta p e (marshal_delta d))
          (short-framed header_len (new_delta_req path hash (pos bs) (marshal_signature sig))
            (asks (marshal_signature sig))
            (signature_short md5 basis sig describes low' small sums))
          (rw served refl)
          (short-framed header_len (new_delta p e (marshal_delta d)) (answers (marshal_delta d)) (
            encode_bytes_short md5 basis target sig d low' fits encoded
              (subst (λ (x : Delta). expand basis sig.block_size x.ops ≡ target) one same))) in
      rw (have, signed)
        (ap (λ x. patch_with basis x) arrives ∙ patch_with_lem basis target p e d read applied)
