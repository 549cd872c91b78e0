-- ===== src/Delta/RoundTrip.antt =====
-- `Apply` after `Encode`: the target comes back.
use mathlib.Core.List.{append-nil, append_assoc}
use mathlib.Core.Path.{subst}
use tailsync.Common.{
  ℕ, zero, suc, ◌+◌, ◌-◌, ◌*◌, ◌%◌, ◌^◌, ◌<◌, ◌≤◌, ◌≡◌, refl, sym, ap, ◌∙◌, some, List, [], ◌∷◌,
  ◌++◌, length, take, drop, min, Text, arith, All, length-append, length-drop,
}
use tailsync.Delta.{Signature, Op, literal, copy, Delta, max_output_size}
use tailsync.Delta.Encode.{State, flush_lit, encode_bytes, encode_with}
use tailsync.Delta.Sign.{sign_bytes, sign_bytes_blocks}
use tailsync.Delta.Apply.{ok, apply, apply_loop, apply_op, copy_block}
use tailsync.Delta.Expand.{
  chunk, expand, expand-flush_lit, InBasis, flush_lit-InBasis, NoCollision, Describes,
}
use tailsync.Delta.Patch.{Inv, encode_loop-Inv}

take-min : (n : ℕ) (l : List ℕ) → take (min n (length l)) l ≡ take n l
take-min zero l = let e : min 0 (length l) ≡ 0 = omega arith in rw e
take-min (suc n) [] = let e : min (suc n) 0 ≡ 0 = omega arith in rw e
take-min (suc n) (x ∷ l) =
    let e : min (suc n) (suc (length l)) ≡ suc (min n (length l)) = omega arith in
    rw e (ap (◌∷◌ x) (take-min n l))

copy_block-chunk :
    (basis : List ℕ) (bs i : ℕ)
    → i * bs < length basis
    → length basis + bs < 2 ^ 63
    → copy_block basis bs i ≡ ok (chunk basis bs i)
unfolding copy_block
copy_block-chunk basis bs i lo small =
    let start : (i * bs) % 2 ^ 64 ≡ i * bs = omega arith in
    let cut : min (i * bs + bs) (length basis) - i * bs ≡ min bs (length (drop (i * bs) basis)) =
      omega (arith, length-drop (i * bs) basis) in
    let all : take (min (i * bs + bs) (length basis) - i * bs) (drop (i * bs) basis)
        ≡ chunk basis bs i =
      ap (λ n. take n (drop (i * bs) basis)) cut ∙ take-min bs (drop (i * bs) basis) in
    let stop : (i * bs + bs) % 2 ^ 64 ≡ i * bs + bs = omega arith in
    rw (start, stop) (ground (arith, all))

apply_loop-expand :
    (basis : List ℕ) (bs size : ℕ) (ops : List Op) (out : List ℕ)
    → All (InBasis basis bs) ops
    → length basis + bs < 2 ^ 63
    → length (out ++ expand basis bs ops) ≡ size
    → apply_loop basis bs size ops out ≡ ok (out ++ expand basis bs ops)
unfolding apply_loop expand apply_op
apply_loop-expand basis bs size [] out h small e = ground (arith, append-nil out)
apply_loop-expand basis bs size (literal b ∷ ops) out h small e = ground (
  arith,
  append_assoc out b (expand basis bs ops),
  length-append (out ++ b) (expand basis bs ops),
  apply_loop-expand basis bs size ops (out ++ b),
)
apply_loop-expand basis bs size (copy i ∷ ops) out h small e = ground (
  arith,
  copy_block-chunk basis bs i,
  append_assoc out (chunk basis bs i) (expand basis bs ops),
  length-append (out ++ chunk basis bs i) (expand basis bs ops),
  apply_loop-expand basis bs size ops (out ++ chunk basis bs i),
)

pub encode_bytes-expand :
    (md5 : List ℕ → Text) (basis target : List ℕ) (sig : Signature)
    → Describes md5 basis sig
    → NoCollision md5 basis sig.block_size target
    → 0 < sig.block_size
    → (d : Delta) × (encode_bytes md5 target (some sig) ≡ some d)
      × (expand basis sig.block_size d.ops ≡ target)
      × All (InBasis basis sig.block_size) d.ops
      × (d.block_size ≡ sig.block_size)
      × (d.output_size ≡ length target)
unfolding encode_bytes encode_with
encode_bytes-expand md5 basis target sig describes clear pos =
    let start : State = record { rest = target; lit = []; ops = [] } in
    let v : Inv md5 basis target sig describes start = record {
      rebuilds = unfold expand in refl;
      in_basis = tt;
      clear = clear;
    } in
    let (s, e, w, nil) =
      encode_loop-Inv md5 basis target sig describes (suc (length target)) start pos (omega arith)
        v in
    let ops : List Op = flush_lit s.lit s.ops in
    (
      record { block_size = sig.block_size; ops = ops; output_size = length target },
      ground (arith, e),
      expand-flush_lit basis sig.block_size s.lit s.ops
          ∙ ap (◌++◌ (expand basis sig.block_size s.ops))
              (sym (append-nil s.lit) ∙ ap (◌++◌ s.lit) (sym nil))
          ∙ w.rebuilds,
      flush_lit-InBasis basis sig.block_size s.lit s.ops w.in_basis,
      refl,
      refl,
    )

-- `Apply` of what `Encode` makes is the target: for a
-- signature that describes the basis with a positive block size, when no block of the basis has the
-- MD5 sum of a different window of the target, the target is at most 64 MiB, and basis and block
-- size together fit into an `int`.
pub apply-encode_bytes :
    (md5 : List ℕ → Text) (basis target : List ℕ) (sig : Signature)
    → Describes md5 basis sig
    → NoCollision md5 basis sig.block_size target
    → 0 < sig.block_size
    → length target ≤ max_output_size
    → length basis + sig.block_size < 2 ^ 63
    → (d : Delta) × (encode_bytes md5 target (some sig) ≡ some d) × (apply basis d ≡ ok target)
unfolding apply
apply-encode_bytes md5 basis target sig describes clear pos fits small =
    let (d, e, same, inside, bs, size) =
      encode_bytes-expand md5 basis target sig describes clear pos in
    (
      d,
      e,
      ground (
        arith,
        e,
        same,
        bs,
        size,
        apply_loop-expand basis sig.block_size (length target) d.ops [] inside,
      ),
    )

-- What `SignBytes` makes describes the basis.
pub sign_bytes-Describes :
    (md5 : List ℕ → Text) (basis : List ℕ) (block_size : ℕ)
    → 0 < block_size
    → (sig : Signature) × (sign_bytes md5 basis block_size ≡ some sig)
      × (sig.block_size ≡ block_size)
      × Describes md5 basis sig
sign_bytes-Describes md5 basis block_size pos =
    let (sig, e, bs, at) = sign_bytes_blocks md5 basis block_size in
    (sig, e, ground (arith, bs), λ k. let z : 0 + k ≡ k = omega arith in rw z (at k))

-- Signature, delta and application rebuild the target: for a positive block size, `SignBytes` of the
-- basis gives a signature, `EncodeBytes` of the target against it a delta, and `Apply` of the delta
-- to the basis the target, when no block of the basis has the MD5 sum of a different window of the
-- target, the target is at most 64 MiB, and basis and block size together fit into an `int`.
pub apply-encode-sign :
    (md5 : List ℕ → Text) (basis target : List ℕ) (block_size : ℕ)
    → 0 < block_size
    → NoCollision md5 basis block_size target
    → length target ≤ max_output_size
    → length basis + block_size < 2 ^ 63
    → (sig : Signature) × (d : Delta) × (sign_bytes md5 basis block_size ≡ some sig)
      × (encode_bytes md5 target (some sig) ≡ some d)
      × (apply basis d ≡ ok target)
apply-encode-sign md5 basis target block_size pos clear fits small =
    let (sig, signed, bs, describes) = sign_bytes-Describes md5 basis block_size pos in
    let (d, e, a) =
      apply-encode_bytes md5 basis target sig describes
        (subst (λ n. NoCollision md5 basis n target) (sym bs) clear) (omega (arith, bs)) fits
        (omega (arith, bs)) in
    (sig, d, signed, e, a)
