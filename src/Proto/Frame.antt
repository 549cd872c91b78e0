-- ===== src/Proto/Frame.antt =====
-- Frames on a stream: what `Encode` writes and `Decode` reads.
use mathlib.Core.List.{append_assoc, append-nil}
use tailsync.Common.{
  ℕ, ◌+◌, ◌-◌, ◌^◌, ◌≤◌, ◌<◌, ◌≡◌, ◌≢◌, inl, inr, refl, sym, ap, ◌∙◌, some, List, [], ◌∷◌, ◌++◌,
  length, length-append, arith, pos, Option-cases,
}
use tailsync.Delta.Wire.{ok, put_le, get_le}
use tailsync.Delta.Wire.Numbers.{length-put_le, get_le-put_le, read_full-append}
use tailsync.Proto.{
  Header, Message, HeaderCodec, Writer, encoded, received, panics, sized, max_message_size,
  write_payload, encode, decode_payload, decode_header, decode,
}

-- A buffer: writing appends and does not fail.
abbrev pub buffer : Writer
buffer = record { Stream = List ℕ; write = λ w b. some (w ++ b) }

nonempty : (jb : List ℕ) → jb ≢ [] → 0 < length jb
nonempty [] h = absurd (h refl)
nonempty (b ∷ bs) h = omega arith

module _ (codec : HeaderCodec) where
  abbrev pub frame : List ℕ → List ℕ → List ℕ
  frame jb payload = put_le 4 (length jb) ++ (jb ++ payload)

  write_payload-buffer :
      (w payload : List ℕ) → write_payload codec buffer w payload ≡ encoded (w ++ payload)
  unfolding write_payload
  write_payload-buffer w [] = ap encoded (sym (append-nil w))
  write_payload-buffer w (b ∷ bs) = refl

  encode-frame :
      (w w' : List ℕ) (msg : Message)
      → encode codec buffer w msg ≡ encoded w'
      → (jb : List ℕ) × (codec.marshal (sized msg).header ≡ some jb)
        × (4 + length jb + length msg.payload ≤ max_message_size)
        × (w' ≡ w ++ frame jb msg.payload)
  unfolding encode
  encode-frame w w' msg e = elim (Option-cases (codec.marshal (sized msg).header)) [
    | inl bad ↦ absurd (ground (arith, bad, e))
    | inr (jb, made) ↦
        let w'' : List ℕ = (w ++ put_le 4 (length jb)) ++ jb in
        let same : w'' ++ msg.payload ≡ w' =
          ground (arith, made, e, write_payload-buffer w'' msg.payload) in
        (
          jb,
          made,
          ground (arith, made, e),
          sym same
              ∙ append_assoc (w ++ put_le 4 (length jb)) jb msg.payload
              ∙ append_assoc w (put_le 4 (length jb)) (jb ++ msg.payload),
        )
  ]

  module _ (max_alloc : ℕ) where
    decode_lem :
        (bs r : List ℕ) (n : ℕ)
        → get_le 4 bs ≡ ok (n, r)
        → decode codec max_alloc bs ≡ decode_header codec max_alloc n r
    unfolding decode get_le
    decode_lem [] r n e = absurd (ground (arith, e))
    decode_lem (b ∷ bs) r n e = rw (e, decode) refl

    decode_payload_lem :
        (n : ℕ) (h : Header) (payload rest : List ℕ)
        → max_message_size ≤ max_alloc
        → h.payload_len ≡ pos (length payload)
        → 4 + n + length payload ≤ max_message_size
        → decode_payload codec max_alloc n h (payload ++ rest)
          ≡ received (record { header = h; payload = payload }) rest
    unfolding decode_payload
    decode_payload_lem n h [] rest room len fits = ground (arith, len)
    decode_payload_lem n h (b ∷ bs) rest room len fits =
        ground (arith, len, read_full-append (b ∷ bs) rest)

    decode-frame :
        (msg : Message) (jb rest : List ℕ)
        → max_message_size ≤ max_alloc
        → codec.unmarshal jb ≡ some (sized msg).header
        → jb ≢ []
        → 4 + length jb + length msg.payload ≤ max_message_size
        → decode codec max_alloc (frame jb msg.payload ++ rest) ≡ received (sized msg) rest
    unfolding decode_header
    decode-frame msg jb rest room reads some_jb fits =
        let body : List ℕ = jb ++ (msg.payload ++ rest) in
        let regroup : frame jb msg.payload ++ rest ≡ put_le 4 (length jb) ++ body =
          append_assoc (put_le 4 (length jb)) (jb ++ msg.payload) rest
          ∙ ap (λ (t : List ℕ). put_le 4 (length jb) ++ t) (append_assoc jb msg.payload rest) in
        ap (decode codec max_alloc) regroup
        ∙ decode_lem (put_le 4 (length jb) ++ body) body (length jb)
            (get_le-put_le 4 (length jb) body (omega (arith, fits)))
        ∙ ground (
          arith,
          read_full-append jb (msg.payload ++ rest),
          reads,
          nonempty jb some_jb,
          decode_payload_lem (length jb) (sized msg).header msg.payload rest room refl fits,
        )

    -- What `Encode` appends to a stream, `Decode` reads back whole, with the length of the payload in
    -- the header, and leaves what follows it on the stream. It relies on the codec reading back the
    -- header that was written, from at least one byte, and on messages of 64 MiB being allocatable.
    pub decode-encode :
        (w w' rest : List ℕ) (msg : Message)
        → max_message_size ≤ max_alloc
        → ((jb : List ℕ)
            → codec.marshal (sized msg).header ≡ some jb
            → (codec.unmarshal jb ≡ some (sized msg).header) × (jb ≢ []))
        → encode codec buffer w msg ≡ encoded w'
        → (sent : List ℕ) × (w' ≡ w ++ sent)
          × (length sent ≤ max_message_size)
          × (decode codec max_alloc (sent ++ rest) ≡ received (sized msg) rest)
    decode-encode w w' rest msg room lawful e =
        let (jb, made, fits, wrote) = encode-frame w w' msg e in
        let (reads, some_jb) = lawful jb made in
        (
          frame jb msg.payload,
          wrote,
          omega (
            arith,
            fits,
            length-append (put_le 4 (length jb)) (jb ++ msg.payload),
            length-append jb msg.payload,
            length-put_le 4 (length jb),
          ),
          decode-frame msg jb rest room reads some_jb fits,
        )

    -- A header can make `Decode` panic: where the payload length it claims, plus that of the header,
    -- passes the largest `int`, the size check does not see it, and the slice for the payload cannot
    -- be made, whatever follows on the stream.
    pub decode_panics :
        (hb rest : List ℕ) (h : Header) (p : ℕ)
        → hb ≢ []
        → length hb ≤ max_message_size - 4
        → codec.unmarshal hb ≡ some h
        → h.payload_len ≡ pos p
        → p < 2 ^ 63
        → 2 ^ 63 ≤ 4 + length hb + p
        → max_alloc < p
        → decode codec max_alloc (put_le 4 (length hb) ++ (hb ++ rest)) ≡ panics
    unfolding decode_header decode_payload
    decode_panics hb rest h p some_hb short reads len int over big =
        decode_lem (put_le 4 (length hb) ++ (hb ++ rest)) (hb ++ rest) (length hb)
          (get_le-put_le 4 (length hb) (hb ++ rest) (omega (arith, short)))
        ∙ ground (arith, read_full-append hb rest, reads, len, nonempty hb some_hb)
