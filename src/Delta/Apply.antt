-- ===== src/Delta/Apply.antt =====
-- `Apply` of internal/delta/delta.go. An `int` has 64 bits: the product of block number and block
-- size wraps, and a slice with a negative bound panics.
use tailsync.Common.{
  ℕ, ◌+◌, ◌-◌, ◌*◌, ◌%◌, ◌^◌, ◌<◌, ◌≤◌, ◌≡◌, refl, ◌&&◌, ◌||◌, List, [], ◌∷◌, ◌++◌, ltb, nat_eqb,
  if◌then◌else◌, length, take, drop, min, arith, All, ◌≢◌, ◌⊎◌, inl, inr, not, negative,
}
use tailsync.Delta.{Op, literal, copy, Delta, default_block_size, max_output_size}

pub data ApplyError : Type 0 where
  size_out_of_range copy_out_of_range exceeds_size size_mismatch : ApplyError

pub data Applied : Type 0 where
  ok : List ℕ → Applied
  err : ApplyError → Applied
  panic : Applied

-- What an `OpCopy` appends to the output.
unfoldable pub copy_block : List ℕ → ℕ → ℕ → Applied
copy_block basis bs i =
    let start : ℕ = (i * bs) % 2 ^ 64 in
    let stop : ℕ = (start + bs) % 2 ^ 64 in
    if not (negative start) && ltb (length basis) start
    then err copy_out_of_range
    else (if negative start || negative stop
        then panic
        else ok (take (min stop (length basis) - start) (drop start basis)))

-- The body of the loop up to the size check, the check, and the loop.
unfoldable pub apply_op : List ℕ → ℕ → Op → Applied
unfolding copy_block
apply_op basis bs (literal bytes) = ok bytes
apply_op basis bs (copy i) = copy_block basis bs i

unfoldable pub apply_loop : List ℕ → ℕ → ℕ → List Op → List ℕ → Applied
apply_loop basis bs size [] out = if nat_eqb (length out) size then ok out else err size_mismatch
apply_loop basis bs size (op ∷ ops) out = elim (apply_op basis bs op) [
  | err e ↦ err e
  | panic ↦ panic
  | ok bytes ↦
      let out' : List ℕ = out ++ bytes in
      let rest : Applied = apply_loop basis bs size ops out' in
      if ltb size (length out') then err exceeds_size else rest
]

unfoldable pub apply : List ℕ → Delta → Applied
unfolding apply_loop
apply basis d =
    if ltb max_output_size d.output_size
    then err size_out_of_range
    else (let bs : ℕ = if nat_eqb d.block_size 0 then default_block_size else d.block_size in
        apply_loop basis bs d.output_size d.ops [])

Applied-cases :
    (a : Applied) → ((b : List ℕ) × (a ≡ ok b)) ⊎ (((e : ApplyError) × (a ≡ err e)) ⊎ (a ≡ panic))
Applied-cases (ok b) = inl (b, refl)
Applied-cases (err e) = inr (inl (e, refl))
Applied-cases panic = inr (inr refl)

apply_loop_size :
    (basis : List ℕ) (bs size : ℕ) (ops : List Op) (out : List ℕ) {r : List ℕ}
    → apply_loop basis bs size ops out ≡ ok r
    → length r ≡ size
unfolding apply_loop
apply_loop_size basis bs size [] out h = ground arith
apply_loop_size basis bs size (op ∷ ops) out {r} h = elim (Applied-cases (apply_op basis bs op)) [
  | inl (b, e) ↦ ground (arith, e, apply_loop_size basis bs size ops (out ++ b) {r = r})
  | inr (inl (x, e)) ↦ ground (arith, e)
  | inr (inr e) ↦ ground (arith, e)
]

-- What `Apply` returns without an error has exactly the declared size, and that is at most 64 MiB.
pub length-apply :
    (basis : List ℕ) (d : Delta) {r : List ℕ}
    → apply basis d ≡ ok r
    → (length r ≡ d.output_size) × (length r ≤ max_output_size)
unfolding apply
length-apply basis d {r} h =
    let bs : ℕ = if nat_eqb d.block_size 0 then default_block_size else d.block_size in
    ground (arith, apply_loop_size basis bs d.output_size d.ops [] {r = r})

copy_block-ne-panic :
    (basis : List ℕ) (bs i : ℕ)
    → i * bs < 2 ^ 63
    → length basis + bs < 2 ^ 63
    → copy_block basis bs i ≢ panic
unfolding copy_block
copy_block-ne-panic basis bs i h k = ground arith

abbrev pub SmallCopy : ℕ → Op → Type 0
SmallCopy bs (literal b) = Unit
SmallCopy bs (copy i) = i * bs < 2 ^ 63

apply_op-ne-panic :
    (basis : List ℕ) (bs : ℕ) (op : Op)
    → SmallCopy bs op
    → length basis + bs < 2 ^ 63
    → apply_op basis bs op ≢ panic
unfolding apply_op
apply_op-ne-panic basis bs (literal b) h k = cc
apply_op-ne-panic basis bs (copy i) h k = copy_block-ne-panic basis bs i h k

apply_loop-ne-panic :
    (basis : List ℕ) (bs size : ℕ) (ops : List Op) (out : List ℕ)
    → All (SmallCopy bs) ops
    → length basis + bs < 2 ^ 63
    → apply_loop basis bs size ops out ≢ panic
unfolding apply_loop
apply_loop-ne-panic basis bs size [] out h k = ground arith
apply_loop-ne-panic basis bs size (op ∷ ops) out h k = elim (Applied-cases (apply_op basis bs op)) [
  | inl (b, e) ↦ ground (arith, e, apply_loop-ne-panic basis bs size ops (out ++ b) h.1)
  | inr (inl (x, e)) ↦ ground (arith, e)
  | inr (inr e) ↦ ground (arith, e, apply_op-ne-panic basis bs op h.0)
]

-- `Apply` does not panic on a delta with a block size in which no block number times the block size
-- leaves the range of `int`, over a basis that fits into it together with one block.
pub apply-ne-panic :
    (basis : List ℕ) (d : Delta)
    → 0 < d.block_size
    → All (SmallCopy d.block_size) d.ops
    → length basis + d.block_size < 2 ^ 63
    → apply basis d ≢ panic
unfolding apply
apply-ne-panic basis d pos h k =
    ground (arith, apply_loop-ne-panic basis d.block_size d.output_size d.ops [] h)

-- The overflow: whatever the basis, a delta of an allowed size panics in `Apply` if its first
-- operation copies a block whose offset, as a 64-bit product, is negative.
pub apply-panic :
    (basis : List ℕ) (i : ℕ) (ops : List Op) (bs size : ℕ)
    → size ≤ max_output_size
    → 0 < bs
    → 2 ^ 63 ≤ i * bs
    → i * bs < 2 ^ 64
    → apply basis (record { block_size = bs; ops = copy i ∷ ops; output_size = size }) ≡ panic
unfolding apply apply_loop apply_op copy_block
apply-panic basis i ops bs size s pos lo hi = ground arith
