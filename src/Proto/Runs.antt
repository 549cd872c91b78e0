-- ===== src/Proto/Runs.antt =====
-- Runs of the framing with a codec for one header, and its theorems at concrete inputs.
use tailsync.Common.{ℕ, ◌-◌, ◌^◌, ◌≤◌, ◌≡◌, refl, ap, List, [], ◌∷◌, ◌++◌, length, arith, some, pos}
use tailsync.Delta.Wire.{put_le, get_le, read_full}
use tailsync.Proto.{
  MsgType, Header, Message, HeaderCodec, encode, write_payload, encoded, decode, decode_header,
  decode_payload, received, panics, sized, blank, max_message_size,
}
use tailsync.Proto.Frame.{buffer, decode-encode, decode_panics}

abbrev note : Message
note = record { header = blank MsgType.file_data; payload = 7 ∷ 8 ∷ [] }

abbrev first_byte : List ℕ → ℕ
first_byte [] = 0
first_byte (b ∷ bs) = b

-- A codec of the one header that `note` has when it is sent.
abbrev one_header : HeaderCodec
one_header = record { marshal = λ h. some (1 ∷ []); unmarshal = λ b. some (sized note).header }

abbrev sent_note : List ℕ
sent_note = 9 ∷ 1 ∷ 0 ∷ 0 ∷ 0 ∷ 1 ∷ 7 ∷ 8 ∷ []

sends : encode one_header buffer (9 ∷ []) note ≡ encoded sent_note
unfolding encode write_payload put_le
sends = refl

decode-encode_example :
    (sent : List ℕ) × (sent_note ≡ (9 ∷ []) ++ sent)
    × (length sent ≤ max_message_size)
    × (decode one_header (2 ^ 47) (sent ++ (3 ∷ [])) ≡ received (sized note) (3 ∷ []))
decode-encode_example =
    decode-encode one_header (2 ^ 47) (9 ∷ []) sent_note (3 ∷ []) note (omega arith)
      (λ jb e. (refl, ground (arith, e))) sends

-- A header that claims a payload of 2^63 - 1 bytes.
abbrev greedy : Header
greedy = record (blank MsgType.hello) { payload_len = pos (2 ^ 63 - 1) }

abbrev greedy_codec : HeaderCodec
greedy_codec = record { marshal = λ h. some (1 ∷ []); unmarshal = λ b. some greedy }

decode_panics_example :
    decode greedy_codec (2 ^ 47) (put_le 4 (length {A = ℕ} (1 ∷ [])) ++ ((1 ∷ []) ++ [])) ≡ panics
decode_panics_example =
    decode_panics greedy_codec (2 ^ 47) (1 ∷ []) [] greedy (2 ^ 63 - 1)
      (λ e. omega (arith, ap first_byte e)) (omega arith) refl refl (omega arith) (omega arith)
      (omega arith)

reads : decode one_header (2 ^ 47) (1 ∷ 0 ∷ 0 ∷ 0 ∷ 1 ∷ 7 ∷ 8 ∷ []) ≡ received (sized note) []
unfolding decode decode_header decode_payload get_le read_full
reads = refl
