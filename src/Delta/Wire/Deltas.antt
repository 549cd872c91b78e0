-- ===== src/Delta/Wire/Deltas.antt =====
-- `UnmarshalDelta` after `MarshalDelta`, and what any accepted input decodes to.
use mathlib.Core.List.{append_assoc}
use tailsync.Common.{
  ℕ, ◌^◌, ◌<◌, ◌≤◌, ◌≡◌, refl, List, [], ◌∷◌, ◌++◌, length, arith, All, length-append,
}
use tailsync.Delta.{Op, literal, copy, Delta, max_decode_ops, max_output_size}
use tailsync.Delta.Wire.{
  ok, put_le, marshal_op, marshal_ops, marshal_delta, unmarshal_op, unmarshal_ops, unmarshal_delta,
}
use tailsync.Delta.Wire.Numbers.{length-put_le, get_le-put_le, read_full-append}

-- An operation whose numbers fit into 32 bits.
abbrev pub FitsOp : Op → Type 0
FitsOp (literal b) = length b < 2 ^ 32
FitsOp (copy i) = i < 2 ^ 32

pub record Fits (d : Delta) : Type 0 where
  pub block : d.block_size < 2 ^ 32
  pub output : d.output_size ≤ max_output_size
  pub count : length d.ops ≤ max_decode_ops
  pub each : All FitsOp d.ops

unmarshal_op-marshal_op :
    (op : Op) (r : List ℕ) → FitsOp op → unmarshal_op (marshal_op op ++ r) ≡ ok (op, r)
unfolding unmarshal_op marshal_op
unmarshal_op-marshal_op (literal b) r h = ground (
  arith,
  append_assoc (put_le 4 (length b)) b r,
  get_le-put_le 4 (length b) (b ++ r),
  length-append b r,
  read_full-append b r,
)
unmarshal_op-marshal_op (copy i) r h = ground (arith, get_le-put_le 4 i r)

unmarshal_ops-marshal_ops :
    (ops : List Op) → All FitsOp ops → unmarshal_ops (length ops) (marshal_ops ops) ≡ ok ops
unfolding unmarshal_ops marshal_ops
unmarshal_ops-marshal_ops [] h = refl
unmarshal_ops-marshal_ops (op ∷ ops) h =
    rw (unmarshal_op-marshal_op op (marshal_ops ops) h.0, unmarshal_ops-marshal_ops ops h.1)

length-marshal_ops : (ops : List Op) → length ops ≤ length (marshal_ops ops)
unfolding marshal_ops marshal_op
length-marshal_ops [] = omega arith
length-marshal_ops (literal b ∷ ops) = omega (
  arith,
  length-append (0 ∷ (put_le 4 (length b) ++ b)) (marshal_ops ops),
  length-marshal_ops ops,
)
length-marshal_ops (copy i ∷ ops) =
    omega (arith, length-append (1 ∷ put_le 4 i) (marshal_ops ops), length-marshal_ops ops)

-- A delta is read back from its binary form: `UnmarshalDelta` of `MarshalDelta` gives the same delta
-- where block size, block numbers and literal lengths fit into 32 bits, the declared size is at most
-- 64 MiB and there are at most 16M operations.
pub unmarshal_delta-marshal_delta : (d : Delta) → Fits d → unmarshal_delta (marshal_delta d) ≡ ok d
unfolding unmarshal_delta marshal_delta
unmarshal_delta-marshal_delta d h =
    let tail2 : List ℕ = put_le 4 (length d.ops) ++ marshal_ops d.ops in
    let tail1 : List ℕ = put_le 8 d.output_size ++ tail2 in
    ground (
      arith,
      get_le-put_le 4 d.block_size tail1,
      get_le-put_le 8 d.output_size tail2,
      get_le-put_le 4 (length d.ops) (marshal_ops d.ops),
      length-append (put_le 4 d.block_size) tail1,
      length-append (put_le 8 d.output_size) tail2,
      length-append (put_le 4 (length d.ops)) (marshal_ops d.ops),
      length-put_le 4 d.block_size,
      length-put_le 8 d.output_size,
      length-put_le 4 (length d.ops),
      length-marshal_ops d.ops,
      unmarshal_ops-marshal_ops d.ops,
    )
