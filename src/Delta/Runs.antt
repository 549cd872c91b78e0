-- ===== src/Delta/Runs.antt =====
-- Runs of the delta code on small inputs, and its theorems at concrete inputs.
use tailsync.Common.{
  ◌*◌, nat_eqb, if◌then◌else◌, get_elem?, ltb, length, take, drop, none, ℕ, ◌≡◌, ◌≢◌, refl, some,
  List, [], ◌∷◌, Text, arith,
}
use tailsync.Delta.{
  Signature, literal, copy, Delta, weak_checksum, weak_loop, roll, default_block_size,
}
use tailsync.Delta.Checksum.{roll-weak_checksum}
use tailsync.Delta.Sign.{sign_bytes, sign_bytes_blocks}
use tailsync.Delta.Encode.{
  encode_bytes, encode_with, encode_loop, slide, finish, roll_search, find_match, emit_copy,
}
use tailsync.Delta.Apply.{apply, apply_op, ok, panic}
use tailsync.Delta.RoundTrip.{apply-encode-sign}
use tailsync.Delta.Wire.Signatures.{unmarshal_signature-marshal_signature}
use tailsync.Delta.Wire as Wire
use tailsync.Delta.Wire.{unmarshal_delta, marshal_delta, unmarshal_signature, marshal_signature}
use tailsync.Delta.Wire.Deltas.{Fits, unmarshal_delta-marshal_delta}
use tailsync.Delta.Wire.Bounds.{apply-unmarshal_delta-ne-panic, apply-unmarshal_delta-panic}

-- A sum that tells all blocks apart.
abbrev plain_md5 : List ℕ → Text
plain_md5 b = b

abbrev old_file : List ℕ
old_file = 1 ∷ 2 ∷ 3 ∷ 4 ∷ 5 ∷ []

abbrev new_file : List ℕ
new_file = 9 ∷ 3 ∷ 4 ∷ 1 ∷ 2 ∷ 5 ∷ []

abbrev old_signature : Signature
old_signature = record {
  block_size = 2;
  blocks =
      record { index = 0; weak = 262147; strong = 1 ∷ 2 ∷ [] }
      ∷ record { index = 1; weak = 655367; strong = 3 ∷ 4 ∷ [] }
      ∷ record { index = 2; weak = 327685; strong = 5 ∷ [] }
      ∷ [];
}

abbrev new_delta : Delta
new_delta = record {
  block_size = 2;
  ops = literal (9 ∷ []) ∷ copy 1 ∷ copy 0 ∷ copy 2 ∷ [];
  output_size = 6;
}

sign_run : sign_bytes plain_md5 old_file 2 ≡ some old_signature
unfolding sign_bytes weak_checksum weak_loop
sign_run = refl

-- The literal byte, the two moved blocks by the rolling search, and the short last block.
encode_run : encode_bytes plain_md5 new_file (some old_signature) ≡ some new_delta
unfolding encode_bytes encode_with encode_loop slide finish roll_search find_match emit_copy
    weak_checksum weak_loop roll
encode_run = refl

apply_run : apply old_file new_delta ≡ ok new_file
unfolding apply apply_op
apply_run = refl

roll-weak_checksum_example : roll (weak_checksum (7 ∷ 8 ∷ [])) 7 9 2 ≡ weak_checksum (8 ∷ 9 ∷ [])
roll-weak_checksum_example = roll-weak_checksum 7 9 (8 ∷ []) (omega arith)

apply-encode-sign_example :
    (sig : Signature) × (d : Delta) × (sign_bytes plain_md5 old_file 2 ≡ some sig)
    × (encode_bytes plain_md5 new_file (some sig) ≡ some d)
    × (apply old_file d ≡ ok new_file)
apply-encode-sign_example =
    apply-encode-sign plain_md5 old_file new_file 2 (omega arith) (λ j k h. h) (omega arith)
      (omega arith)

abbrev new_delta-Fits : Fits new_delta
new_delta-Fits = record {
  block = omega arith;
  output = omega arith;
  count = omega arith;
  each = (omega arith, (omega arith, (omega arith, (omega arith, tt))));
}

unmarshal_delta-marshal_delta_example :
    unmarshal_delta (marshal_delta new_delta) ≡ Wire.ok new_delta
unmarshal_delta-marshal_delta_example = unmarshal_delta-marshal_delta new_delta new_delta-Fits

abbrev one_block : Signature
one_block = record {
  block_size = 256;
  blocks =
      record {
        index = 0;
        weak = 7;
        strong = 1 ∷ 2 ∷ 3 ∷ 4 ∷ 5 ∷ 6 ∷ 7 ∷ 8 ∷ 9 ∷ 10 ∷ 11 ∷ 12 ∷ 13 ∷ 14 ∷ 15 ∷ 16 ∷ [];
      }
      ∷ [];
}

unmarshal_signature-marshal_signature_example :
    unmarshal_signature (marshal_signature one_block) ≡ Wire.ok one_block
unmarshal_signature-marshal_signature_example =
    unmarshal_signature-marshal_signature one_block (omega arith) (omega arith)
      (record { number = omega arith; sum = omega arith; digest = refl }, tt)

-- A delta of one literal byte, as it comes off the wire.
abbrev wire_bytes : List ℕ
wire_bytes =
    b'T' ∷ b'S' ∷ b'D' ∷ b'1' ∷ 0 ∷ 1 ∷ 0 ∷ 0 ∷ 1 ∷ 0 ∷ 0 ∷ 0 ∷ 0 ∷ 0 ∷ 0 ∷ 0 ∷ 1 ∷ 0 ∷ 0 ∷ 0 ∷ 0
    ∷ 1 ∷ 0 ∷ 0 ∷ 0 ∷ 42 ∷ []

abbrev wire_delta : Delta
wire_delta = record { block_size = 256; ops = literal (42 ∷ []) ∷ []; output_size = 1 }

wire_run : unmarshal_delta wire_bytes ≡ Wire.ok wire_delta
unfolding unmarshal_delta Wire.unmarshal_ops Wire.unmarshal_op Wire.get_le Wire.read_full
wire_run = refl

apply-unmarshal_delta-ne-panic_example : apply old_file wire_delta ≢ panic
apply-unmarshal_delta-ne-panic_example =
    apply-unmarshal_delta-ne-panic wire_bytes old_file wire_delta (omega arith) wire_run
      (omega arith) (omega arith) (omega arith)

-- The largest block size and block number.
apply-unmarshal_delta-panic_example :
    (d : Delta) × (unmarshal_delta (marshal_delta d) ≡ Wire.ok d)
    × (d.block_size ≡ 0xffff_ffff)
    × (d.ops ≡ copy 0xffff_ffff ∷ [])
    × (apply old_file d ≡ panic)
apply-unmarshal_delta-panic_example =
    apply-unmarshal_delta-panic old_file 0xffff_ffff 0xffff_ffff 0 (omega arith) (omega arith)
      (omega arith) (omega arith)

sign_bytes_blocks_example :
    (sig : Signature) × (sign_bytes plain_md5 old_file 2 ≡ some sig)
    × (sig.block_size ≡ (if nat_eqb 2 0 then default_block_size else 2))
    × ((k : ℕ)
        → get_elem? sig.blocks k ≡ (
            if ltb (k * sig.block_size) (length old_file)
            then some (record {
              index = k;
              weak = weak_checksum (take sig.block_size (drop (k * sig.block_size) old_file));
              strong = plain_md5 (take sig.block_size (drop (k * sig.block_size) old_file));
            })
            else none))
sign_bytes_blocks_example = sign_bytes_blocks plain_md5 old_file 2
