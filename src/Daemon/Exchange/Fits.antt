-- ===== src/Daemon/Exchange/Fits.antt =====
-- What `SignBytes` and `EncodeBytes` make fits into the binary forms, for the block sizes that are served.
use tailsync.Common.{
  ℕ, zero, suc, ◌*◌, ◌^◌, ◌<◌, ◌≤◌, ◌≡◌, refl, sym, ap, ◌∙◌, none, some, List, [], ◌∷◌, Text,
  length, get_elem?, arith, All, ltb, inl, inr, Bool-cases, length-append, text_key,
}
use tailsync.Delta.{
  BlockChecksum, Signature, Op, literal, copy, Delta, weak_loop, weak_checksum, max_decode_ops,
  max_output_size,
}
use tailsync.Delta.Expand.{chunk, expand, InBasis, Describes}
use tailsync.Delta.Encode.{encode_bytes}
use tailsync.Delta.Size.{encode_bytes_few}
use tailsync.Delta.Wire.Deltas.{FitsOp, Fits}
use tailsync.Delta.Wire.Signatures.{FitsBlock}

-- What fits one by one fits together.
All-get_elem? {ℓ} :
    {A : Type ℓ} (P : A → Type 0) (l : List A)
    → ((k : ℕ) (a : A) → get_elem? l k ≡ some a → P a)
    → All P l
All-get_elem? P [] h = tt
All-get_elem? P (a ∷ l) h = (h 0 a refl, All-get_elem? P l (λ k. h (suc k)))

pub length-get_elem? {ℓ} : {A : Type ℓ} (l : List A) (n : ℕ) → get_elem? l n ≡ none → length l ≤ n
length-get_elem? [] n h = omega arith
length-get_elem? (a ∷ l) zero h = absurd (ground (arith, h))
length-get_elem? (a ∷ l) (suc n) h = omega (arith, length-get_elem? l n h)

weak_checksum_bound : (b : List ℕ) → weak_checksum b < 2 ^ 32
unfolding weak_checksum
weak_checksum_bound b = let (a, s) = weak_loop 0 0 b in omega arith

index_small : (bs i n : ℕ) → 256 ≤ bs → i * bs < n → i < n
index_small bs i n low h = grind arith

expand-FitsOp :
    (basis : List ℕ) (bs : ℕ) (ops : List Op)
    → 256 ≤ bs
    → length basis ≤ 2 ^ 32
    → All (InBasis basis bs) ops
    → length (expand basis bs ops) < 2 ^ 32
    → All FitsOp ops
unfolding expand
expand-FitsOp basis bs [] low small h e = tt
expand-FitsOp basis bs (literal b ∷ ops) low small h e = (
  omega (arith, length-append b (expand basis bs ops)),
  expand-FitsOp basis bs ops low small h.1 (omega (arith, length-append b (expand basis bs ops))),
)
expand-FitsOp basis bs (copy i ∷ ops) low small h e = (
  omega (arith, index_small bs i (length basis) low h.0),
  expand-FitsOp basis bs ops low small h.1
      (omega (arith, length-append (chunk basis bs i) (expand basis bs ops))),
)

-- The binary form of the delta of a target of at most 64 MiB can be read back.
pub encode_bytes-Fits :
    (md5 : List ℕ → Text) (basis target : List ℕ) (sig : Signature) (d : Delta)
    → 256 ≤ sig.block_size
    → sig.block_size ≤ 2 ^ 20
    → length basis ≤ 2 ^ 32
    → length target ≤ max_output_size
    → encode_bytes md5 target (some sig) ≡ some d
    → expand basis sig.block_size d.ops ≡ target
    → All (InBasis basis sig.block_size) d.ops
    → d.block_size ≡ sig.block_size
    → d.output_size ≡ length target
    → Fits d
encode_bytes-Fits md5 basis target sig d low high small fits e same inside bs size =
    let few = encode_bytes_few md5 target sig d (omega (arith, low)) e in
    let wide : length d.ops * 256 ≤ length d.ops * sig.block_size = grind arith in
    record {
      block = omega (arith, bs, high);
      output = omega (arith, size, fits);
      count = omega (arith, few, wide, high, fits);
      each =
          expand-FitsOp basis sig.block_size d.ops low small inside
            (omega (arith, ap length same, fits));
    }

module _ (md5 : List ℕ → Text) (basis : List ℕ) (sig : Signature)
    (describes : Describes md5 basis sig) (low : 256 ≤ sig.block_size)
    (small : length basis ≤ 2 ^ 32) (sums : (b : List ℕ) → length (md5 b) ≡ 16) where
  block-FitsBlock : (k : ℕ) (b : BlockChecksum) → get_elem? sig.blocks k ≡ some b → FitsBlock b
  block-FitsBlock k b at = elim (Bool-cases (ltb (k * sig.block_size) (length basis))) [
    | inr out ↦ absurd (ground (arith, describes k, at, out))
    | inl inside ↦
        let block : List ℕ = chunk basis sig.block_size k in
        let within : k * sig.block_size < length basis = ground (arith, inside) in
        let num : k ≡ b.index = ground (arith, describes k, at, inside) in
        let weak : weak_checksum block ≡ b.weak = ground (arith, describes k, at, inside) in
        let strong : md5 block ≡ b.strong = ground (arith, describes k, at, inside) in
        record {
          number = omega (arith, num, index_small sig.block_size k (length basis) low within);
          sum = omega (arith, weak, weak_checksum_bound block);
          digest = ap length (sym strong) ∙ sums block;
        }
  ]

  -- The signature of a basis can be read back from its binary form.
  pub blocks-FitsBlock : All FitsBlock sig.blocks
  blocks-FitsBlock = All-get_elem? FitsBlock sig.blocks block-FitsBlock

  pub blocks_few : length sig.blocks ≤ max_decode_ops
  blocks_few =
      let far : length basis ≤ max_decode_ops * sig.block_size = omega arith in
      length-get_elem? sig.blocks max_decode_ops (ground (arith, describes max_decode_ops, far))
