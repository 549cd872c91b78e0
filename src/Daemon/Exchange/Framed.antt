-- ===== src/Daemon/Exchange/Framed.antt =====
-- How long the binary forms are that a delta exchange sends, against the frames of internal/proto.
use tailsync.Common.{
  ℕ, ◌+◌, ◌*◌, ◌^◌, ◌≤◌, ◌≡◌, some, List, [], ◌∷◌, ◌++◌, zero, suc, Text, length, arith,
  length-append, text_key, ap,
}
use tailsync.Delta.{Signature, Op, literal, copy, Delta}
use tailsync.Delta.Encode.{encode_bytes}
use tailsync.Delta.Expand.{chunk, expand, Describes}
use tailsync.Delta.Size.{encode_bytes_few}
use tailsync.Delta.Wire.{
  put_le, marshal_op, marshal_ops, marshal_delta, marshal_blocks, marshal_signature,
}
use tailsync.Delta.Wire.Numbers.{length-put_le}
use tailsync.Delta.Wire.Signatures.{length-marshal_blocks}
use tailsync.Daemon.Exchange.Fits.{blocks-FitsBlock, length-get_elem?}

length-marshal_ops :
    (basis : List ℕ) (bs : ℕ) (ops : List Op)
    → length (marshal_ops ops) ≤ 5 * length ops + length (expand basis bs ops)
unfolding marshal_ops marshal_op expand
length-marshal_ops basis bs [] = omega arith
length-marshal_ops basis bs (literal b ∷ ops) = omega (
  arith,
  length-marshal_ops basis bs ops,
  length-append (0 ∷ (put_le 4 (length b) ++ b)) (marshal_ops ops),
  length-append (put_le 4 (length b)) b,
  length-put_le 4 (length b),
  length-append b (expand basis bs ops),
)
length-marshal_ops basis bs (copy i ∷ ops) = omega (
  arith,
  length-marshal_ops basis bs ops,
  length-append (1 ∷ put_le 4 i) (marshal_ops ops),
  length-put_le 4 i,
  length-append (chunk basis bs i) (expand basis bs ops),
)

length-marshal_delta : (d : Delta) → length (marshal_delta d) ≡ 20 + length (marshal_ops d.ops)
unfolding marshal_delta
length-marshal_delta d = omega (
  arith,
  length-append (put_le 4 d.block_size)
      (put_le 8 d.output_size ++ (put_le 4 (length d.ops) ++ marshal_ops d.ops)),
  length-append (put_le 8 d.output_size) (put_le 4 (length d.ops) ++ marshal_ops d.ops),
  length-append (put_le 4 (length d.ops)) (marshal_ops d.ops),
  length-put_le 4 d.block_size,
  length-put_le 8 d.output_size,
  length-put_le 4 (length d.ops),
)

few_ops : (n bs t : ℕ) → 256 ≤ bs → n * bs ≤ 2 * t + 3 * bs → n * 256 ≤ 2 * t + 768
few_ops zero bs t low h = omega arith
few_ops (suc zero) bs t low h = omega arith
few_ops (suc (suc zero)) bs t low h = omega arith
few_ops (suc (suc (suc k))) bs t low h =
    let more : k * bs ≤ 2 * t = grind (arith, h) in
    let wide : k * 256 ≤ k * bs = grind (arith, low) in omega (arith, more, wide)

-- The binary form of the delta of a target of at most 60 MiB takes less than 63 MiB.
pub encode_bytes_short :
    (md5 : List ℕ → Text) (basis target : List ℕ) (sig : Signature) (d : Delta)
    → 256 ≤ sig.block_size
    → length target ≤ 60 * 2 ^ 20
    → encode_bytes md5 target (some sig) ≡ some d
    → expand basis sig.block_size d.ops ≡ target
    → length (marshal_delta d) + 4 ≤ 63 * 2 ^ 20
encode_bytes_short md5 basis target sig d low small e same =
    let few = encode_bytes_few md5 target sig d (omega (arith, low)) e in
    let narrow = few_ops (length d.ops) sig.block_size (length target) low few in
    omega (
      arith,
      length-marshal_delta d,
      length-marshal_ops basis sig.block_size d.ops,
      ap length same,
      narrow,
      small,
    )

length-marshal_signature :
    (sig : Signature) → length (marshal_signature sig) ≡ 12 + length (marshal_blocks sig.blocks)
unfolding marshal_signature
length-marshal_signature sig = omega (
  arith,
  length-append (put_le 4 sig.block_size)
      (put_le 4 (length sig.blocks) ++ marshal_blocks sig.blocks),
  length-append (put_le 4 (length sig.blocks)) (marshal_blocks sig.blocks),
  length-put_le 4 sig.block_size,
  length-put_le 4 (length sig.blocks),
)

-- The binary form of the signature of a basis of at most 512 MiB takes less than 63 MiB.
pub signature_short :
    (md5 : List ℕ → Text) (basis : List ℕ) (sig : Signature)
    → Describes md5 basis sig
    → 256 ≤ sig.block_size
    → length basis ≤ 2 ^ 29
    → ((b : List ℕ) → length (md5 b) ≡ 16)
    → length (marshal_signature sig) + 4 ≤ 63 * 2 ^ 20
signature_short md5 basis sig describes low small sums =
    let far : length basis ≤ 2 ^ 21 * sig.block_size = omega arith in
    let few : length sig.blocks ≤ 2 ^ 21 =
      length-get_elem? sig.blocks (2 ^ 21) (ground (arith, describes (2 ^ 21), far)) in
    omega (
      arith,
      length-marshal_signature sig,
      length-marshal_blocks sig.blocks
          (blocks-FitsBlock md5 basis sig describes low (omega (arith, small)) sums),
      few,
    )
