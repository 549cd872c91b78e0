-- ===== src/Delta/Wire/Signatures.antt =====
-- `UnmarshalSignature` after `MarshalSignature`.
use tailsync.Common.{
  ℕ, ◌*◌, ◌^◌, ◌<◌, ◌≤◌, ◌≡◌, refl, List, [], ◌∷◌, ◌++◌, length, arith, All, length-append, sym, ap,
  ◌∙◌,
}
use tailsync.Delta.{BlockChecksum, Signature, max_decode_ops}
use tailsync.Delta.Wire.{
  ok, put_le, read_full, marshal_blocks, marshal_signature, unmarshal_block, unmarshal_blocks,
  unmarshal_signature, md5_size,
}
use tailsync.Delta.Wire.Numbers.{length-put_le, get_le-put_le, read_full-append}

pub record FitsBlock (b : BlockChecksum) : Type 0 where
  pub number : b.index < 2 ^ 32
  pub sum : b.weak < 2 ^ 32
  pub digest : length b.strong ≡ md5_size

unmarshal_block-marshal :
    (b : BlockChecksum) (r : List ℕ)
    → FitsBlock b
    → unmarshal_block (put_le 4 b.index ++ (put_le 4 b.weak ++ (b.strong ++ r))) ≡ ok (b, r)
unfolding unmarshal_block
unmarshal_block-marshal b r h =
    let digest : read_full md5_size (b.strong ++ r) ≡ ok (b.strong, r) =
      ap (λ n. read_full n (b.strong ++ r)) (sym h.digest) ∙ read_full-append b.strong r in
    ground (
      arith,
      get_le-put_le 4 b.index (put_le 4 b.weak ++ (b.strong ++ r)),
      get_le-put_le 4 b.weak (b.strong ++ r),
      digest,
    )

unmarshal_blocks-marshal_blocks :
    (bs : List BlockChecksum)
    → All FitsBlock bs
    → unmarshal_blocks (length bs) (marshal_blocks bs) ≡ ok bs
unfolding unmarshal_blocks marshal_blocks
unmarshal_blocks-marshal_blocks [] h = refl
unmarshal_blocks-marshal_blocks (b ∷ bs) h =
    rw (unmarshal_block-marshal b (marshal_blocks bs) h.0, unmarshal_blocks-marshal_blocks bs h.1)

pub length-marshal_blocks :
    (bs : List BlockChecksum) → All FitsBlock bs → length (marshal_blocks bs) ≡ length bs * 24
unfolding marshal_blocks
length-marshal_blocks [] h = omega arith
length-marshal_blocks (b ∷ bs) h = omega (
  arith,
  length-append (put_le 4 b.index) (put_le 4 b.weak ++ (b.strong ++ marshal_blocks bs)),
  length-append (put_le 4 b.weak) (b.strong ++ marshal_blocks bs),
  length-append b.strong (marshal_blocks bs),
  length-put_le 4 b.index,
  length-put_le 4 b.weak,
  h.0.digest,
  length-marshal_blocks bs h.1,
)

-- A signature is read back from its binary form where the block size and the numbers of the blocks
-- fit into 32 bits, the strong sums have 16 bytes and there are at most 16M blocks.
pub unmarshal_signature-marshal_signature :
    (sig : Signature)
    → sig.block_size < 2 ^ 32
    → length sig.blocks ≤ max_decode_ops
    → All FitsBlock sig.blocks
    → unmarshal_signature (marshal_signature sig) ≡ ok sig
unfolding unmarshal_signature marshal_signature
unmarshal_signature-marshal_signature sig s n h =
    let tail : List ℕ = put_le 4 (length sig.blocks) ++ marshal_blocks sig.blocks in
    ground (
      arith,
      get_le-put_le 4 sig.block_size tail,
      get_le-put_le 4 (length sig.blocks) (marshal_blocks sig.blocks),
      length-append (put_le 4 sig.block_size) tail,
      length-append (put_le 4 (length sig.blocks)) (marshal_blocks sig.blocks),
      length-put_le 4 sig.block_size,
      length-put_le 4 (length sig.blocks),
      length-marshal_blocks sig.blocks h,
      unmarshal_blocks-marshal_blocks sig.blocks h,
    )
