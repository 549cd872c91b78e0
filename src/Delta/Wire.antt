-- ===== src/Delta/Wire.antt =====
-- The binary forms of a signature and of a delta: `MarshalDelta`, `UnmarshalDelta`,
-- `MarshalSignature` and `UnmarshalSignature` of internal/delta/delta.go. A reader over a byte slice
-- is what is left of the slice.
pub mod Numbers
pub mod Deltas
pub mod Signatures
pub mod Bounds
use tailsync.Common.{
  ℕ, zero, suc, ◌+◌, ◌*◌, ◌/◌, ◌%◌, ◌^◌, ◌≡◌, Bool, true, false, ◌||◌, Option, none, some, List, [],
  ◌∷◌, ◌++◌, ltb, nat_eqb, text_eqb, if◌then◌else◌, length, take, drop, Text, not,
}
use tailsync.Delta.{
  BlockChecksum, Signature, Op, literal, copy, Delta, max_decode_ops, max_output_size,
}

pub data WireError : Type 0 where
  too_short bad_magic too_many too_large long_literal unexpected_end : WireError
  unknown_kind : ℕ → WireError

pub data Decoded {ℓ} (A : Type ℓ) : Type ℓ where
  ok : A → Decoded A
  err : WireError → Decoded A

infixl 5 ◌>>=◌ ◌>>◌
abbrev pub ◌>>=◌ {ℓ κ} : {A : Type ℓ} {B : Type κ} → Decoded A → (A → Decoded B) → Decoded B
ok a >>= f = f a
err e >>= f = err e

abbrev pub ◌>>◌ {ℓ} : {B : Type ℓ} → Decoded (Unit {0}) → Decoded B → Decoded B
m >> k = m >>= λ _. k

-- An early return with an error.
abbrev pub reject_if : Bool → WireError → Decoded (Unit {0})
reject_if true e = err e
reject_if false e = ok tt

-- `n` bytes, little end first; a wider number loses its high bytes.
unfoldable pub put_le : ℕ → ℕ → List ℕ
put_le zero v = []
put_le (suc n) v = v % 256 ∷ put_le n (v / 256)

-- `binary.Read` of a number of `n` bytes.
unfoldable pub get_le : ℕ → List ℕ → Decoded (ℕ × List ℕ)
get_le zero r = ok (0, r)
get_le (suc n) [] = err unexpected_end
get_le (suc n) (b ∷ r) = do (v, r') ← get_le n r; ok (b + 256 * v, r')

-- `io.ReadFull` of `n` bytes.
unfoldable pub read_full : ℕ → List ℕ → Decoded (List ℕ × List ℕ)
read_full n r = if ltb (length r) n then err unexpected_end else ok (take n r, drop n r)

abbrev pub delta_magic : List ℕ
delta_magic = b'T' ∷ b'S' ∷ b'D' ∷ b'1' ∷ []

abbrev pub signature_magic : List ℕ
signature_magic = b'T' ∷ b'S' ∷ b'S' ∷ b'1' ∷ []

unfoldable pub marshal_op : Op → List ℕ
marshal_op (literal b) = 0 ∷ (put_le 4 (length b) ++ b)
marshal_op (copy i) = 1 ∷ put_le 4 i

unfoldable pub marshal_ops : List Op → List ℕ
marshal_ops [] = []
marshal_ops (op ∷ ops) = marshal_op op ++ marshal_ops ops

unfoldable pub marshal_delta : Delta → List ℕ
marshal_delta d =
    delta_magic
    ++ (put_le 4 d.block_size
        ++ (put_le 8 d.output_size ++ (put_le 4 (length d.ops) ++ marshal_ops d.ops)))

-- One round of the loop of `UnmarshalDelta`.
unfoldable pub unmarshal_op : List ℕ → Decoded (Op × List ℕ)
unmarshal_op [] = err unexpected_end
unmarshal_op (kind ∷ r) =
    if nat_eqb kind 0
    then (do
      (n, r') ← get_le 4 r
      reject_if (ltb (length r') n) long_literal
      (payload, r'') ← read_full n r'
      ok (literal payload, r''))
    else (if nat_eqb kind 1
        then (do (i, r') ← get_le 4 r; ok (copy i, r'))
        else err (unknown_kind kind))

-- The counted loop; what is left behind the last operation is not looked at.
unfoldable pub unmarshal_ops : ℕ → List ℕ → Decoded (List Op)
unmarshal_ops zero r = ok []
unmarshal_ops (suc n) r = do (op, r') ← unmarshal_op r; ops ← unmarshal_ops n r'; ok (op ∷ ops)

unfoldable pub unmarshal_delta : List ℕ → Decoded Delta
unmarshal_delta bytes = do
  reject_if (ltb (length bytes) 20) too_short
  reject_if (not (text_eqb (take 4 bytes) delta_magic)) bad_magic
  (block_size, r) ← get_le 4 (drop 4 bytes)
  (output_size, r') ← get_le 8 r
  (n, r'') ← get_le 4 r'
  reject_if (ltb max_decode_ops n || ltb (length r'') n) too_many
  reject_if (ltb max_output_size output_size) too_large
  ops ← unmarshal_ops n r''
  ok (record { block_size = block_size; ops = ops; output_size = output_size })

unfoldable pub marshal_blocks : List BlockChecksum → List ℕ
marshal_blocks [] = []
marshal_blocks (b ∷ bs) = put_le 4 b.index ++ (put_le 4 b.weak ++ (b.strong ++ marshal_blocks bs))

unfoldable pub marshal_signature : Signature → List ℕ
marshal_signature sig =
    signature_magic
    ++ (put_le 4 sig.block_size ++ (put_le 4 (length sig.blocks) ++ marshal_blocks sig.blocks))

-- `md5.Size`, and the size of one block record.
abbrev pub md5_size : ℕ
md5_size = 16

abbrev pub block_rec_size : ℕ
block_rec_size = 24

unfoldable pub unmarshal_block : List ℕ → Decoded (BlockChecksum × List ℕ)
unmarshal_block r = do
  (i, r') ← get_le 4 r
  (weak, r'') ← get_le 4 r'
  (strong, r''') ← read_full md5_size r''
  ok (record { index = i; weak = weak; strong = strong }, r''')

unfoldable pub unmarshal_blocks : ℕ → List ℕ → Decoded (List BlockChecksum)
unmarshal_blocks zero r = ok []
unmarshal_blocks (suc n) r = do (b, r') ← unmarshal_block r; bs ← unmarshal_blocks n r'; ok (b ∷ bs)

unfoldable pub unmarshal_signature : List ℕ → Decoded Signature
unmarshal_signature bytes = do
  reject_if (ltb (length bytes) 12) too_short
  reject_if (not (text_eqb (take 4 bytes) signature_magic)) bad_magic
  (block_size, r) ← get_le 4 (drop 4 bytes)
  (n, r') ← get_le 4 r
  reject_if (ltb max_decode_ops n || ltb (length r') (n * block_rec_size)) too_many
  blocks ← unmarshal_blocks n r'
  ok (record { block_size = block_size; blocks = blocks })
