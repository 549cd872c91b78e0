-- ===== src/Delta/Wire/Bounds.antt =====
-- What any input decodes to, and whether `Apply` can take it.
use mathlib.Core.Path.{subst}
use native.Mathlib.Nat.{pow-suc}
use tailsync.Common.{
  ℕ, zero, suc, ◌+◌, ◌*◌, ◌^◌, ◌<◌, ◌≤◌, ◌≡◌, ◌≢◌, refl, List, [], ◌∷◌, length, arith, All, ltb,
  nat_eqb, ◌⊎◌, inl, inr, Bool-cases, take, drop, length-take,
}
use tailsync.Delta.{Op, literal, copy, Delta, max_output_size}
use tailsync.Delta.Checksum.{IsByte}
use tailsync.Delta.Apply.{apply, panic, SmallCopy, apply-ne-panic, apply-panic}
use tailsync.Delta.Wire.{
  Decoded, ok, err, get_le, read_full, unmarshal_op, unmarshal_ops, unmarshal_delta, marshal_delta,
  WireError,
}
use tailsync.Delta.Wire.Deltas.{FitsOp, Fits, unmarshal_delta-marshal_delta}

Decoded-cases {ℓ} :
    {A : Type ℓ} (r : Decoded A) → ((a : A) × (r ≡ ok a)) ⊎ ((e : WireError) × (r ≡ err e))
Decoded-cases (ok a) = inl (a, refl)
Decoded-cases (err e) = inr (e, refl)

drop-IsByte : (n : ℕ) (r : List ℕ) → All IsByte r → All IsByte (drop n r)
drop-IsByte zero r h = h
drop-IsByte (suc n) [] h = tt
drop-IsByte (suc n) (b ∷ r) h = drop-IsByte n r h.1

-- A number that is read lies in its range, and what follows is bytes again.
get_le_bound :
    (n : ℕ) (r : List ℕ) (v : ℕ) (r' : List ℕ)
    → All IsByte r
    → get_le n r ≡ ok (v, r')
    → (v < 256 ^ n) × All IsByte r'
unfolding get_le
get_le_bound zero r v r' h e =
    let same : r ≡ r' = ground arith in (ground arith, subst (All IsByte) same h)
get_le_bound (suc n) [] v r' h e = absurd (ground arith)
get_le_bound (suc n) (b ∷ r) v r' h e = elim (Decoded-cases (get_le n r)) [
  | inl ((w, r''), got) ↦
      let (lo, bytes) = get_le_bound n r w r'' h.1 got in
      let same : r'' ≡ r' = ground (arith, got) in
      let value : b + 256 * w ≡ v = ground (arith, got) in
      (omega (arith, value, pow-suc 256 n), subst (All IsByte) same bytes)
  | inr (x, got) ↦ absurd (ground (arith, got))
]

-- An operation that is read fits, and what follows it is bytes again and no longer than before.
unmarshal_op_bound :
    (r : List ℕ) (op : Op) (r' : List ℕ)
    → All IsByte r
    → unmarshal_op r ≡ ok (op, r')
    → FitsOp op × All IsByte r'
unfolding unmarshal_op read_full
unmarshal_op_bound [] op r' h e = absurd (ground arith)
unmarshal_op_bound (kind ∷ r) op r' h e = elim (Decoded-cases (get_le 4 r)) [
  | inr (x, bad) ↦ absurd (ground (arith, bad))
  | inl ((n, s), got) ↦
      let (lo, bytes) = get_le_bound 4 r n s h.1 got in
      elim (Bool-cases (nat_eqb kind 0)) [
        | inr other ↦ elim (Bool-cases (nat_eqb kind 1)) [
          | inr unknown ↦ absurd (ground (arith, got, other, unknown))
          | inl one ↦
              let rest : s ≡ r' = ground (arith, got, other, one) in
              let same : copy n ≡ op = ground (arith, got, other, one) in
              (subst FitsOp same lo, subst (All IsByte) rest bytes)
        ]
        | inl lit ↦ elim (Bool-cases (ltb (length s) n)) [
          | inl long ↦ absurd (ground (arith, got, lit, long))
          | inr fits ↦
              let rest : drop n s ≡ r' = ground (arith, got, lit, fits) in
              let same : literal (take n s) ≡ op = ground (arith, got, lit, fits) in
              (
                subst FitsOp same (omega (arith, length-take n s)),
                subst (All IsByte) rest (drop-IsByte n s bytes),
              )
        ]
      ]
]

unmarshal_ops_bound :
    (n : ℕ) (r : List ℕ) (ops : List Op)
    → All IsByte r
    → unmarshal_ops n r ≡ ok ops
    → All FitsOp ops × (length ops ≡ n)
unfolding unmarshal_ops
unmarshal_ops_bound zero r ops h e =
    let same : [] ≡ ops = ground arith in subst (λ o. All FitsOp o × (length o ≡ 0)) same (tt, refl)
unmarshal_ops_bound (suc n) r ops h e = elim (Decoded-cases (unmarshal_op r)) [
  | inr (x, bad) ↦ absurd (ground (arith, bad))
  | inl ((op, s), got) ↦ elim (Decoded-cases (unmarshal_ops n s)) [
    | inr (x, bad) ↦ absurd (ground (arith, got, bad))
    | inl (rest, more) ↦
        let (fits, bytes) = unmarshal_op_bound r op s h got in
        let (all, count) = unmarshal_ops_bound n s rest bytes more in
        let same : op ∷ rest ≡ ops = ground (arith, got, more) in
        subst (λ o. All FitsOp o × (length o ≡ suc n)) same ((fits, all), omega arith)
  ]
]

-- Whatever bytes `UnmarshalDelta` accepts, the delta has block size, block numbers and literal lengths
-- of 32 bits, a declared size of at most 64 MiB and at most 16M operations.
pub unmarshal_delta-Fits :
    (bytes : List ℕ) (d : Delta) → All IsByte bytes → unmarshal_delta bytes ≡ ok d → Fits d
unfolding unmarshal_delta
unmarshal_delta-Fits bytes d h e = elim (Decoded-cases (get_le 4 (drop 4 bytes))) [
  | inr (x, bad) ↦ absurd (ground (arith, bad))
  | inl ((bs, r), got) ↦ elim (Decoded-cases (get_le 8 r)) [
    | inr (x, bad) ↦ absurd (ground (arith, got, bad))
    | inl ((os, s), got') ↦ elim (Decoded-cases (get_le 4 s)) [
      | inr (x, bad) ↦ absurd (ground (arith, got, got', bad))
      | inl ((n, t), got'') ↦ elim (Decoded-cases (unmarshal_ops n t)) [
        | inr (x, bad) ↦ absurd (ground (arith, got, got', got'', bad))
        | inl (ops, read) ↦
            let (lo, b1) = get_le_bound 4 (drop 4 bytes) bs r (drop-IsByte 4 bytes h) got in
            let b2 = (get_le_bound 8 r os s b1 got').1 in
            let b3 = (get_le_bound 4 s n t b2 got'').1 in
            let (fits, count) = unmarshal_ops_bound n t ops b3 read in
            let same : record { block_size = bs; ops = ops; output_size = os } ≡ d =
              ground (arith, got, got', got'', read) in
            subst Fits same (record {
              block = lo;
              output = ground (arith, got, got', got'', read);
              count = ground (arith, got, got', got'', read, count);
              each = fits;
            })
      ]
    ]
  ]
]

SmallCopy-of_Fits : (bs : ℕ) (ops : List Op) → bs ≤ 2 ^ 31 → All FitsOp ops → All (SmallCopy bs) ops
SmallCopy-of_Fits bs [] small h = tt
SmallCopy-of_Fits bs (literal b ∷ ops) small h = (tt, SmallCopy-of_Fits bs ops small h.1)
SmallCopy-of_Fits bs (copy i ∷ ops) small h =
    let le : i * bs ≤ i * 2 ^ 31 = grind arith in (omega arith, SmallCopy-of_Fits bs ops small h.1)

-- A delta that comes off the wire does not make `Apply` panic where its block size is at most 2^31
-- and not 0, over a basis of at most 2^62 bytes.
pub apply-unmarshal_delta-ne-panic :
    (bytes basis : List ℕ) (d : Delta)
    → All IsByte bytes
    → unmarshal_delta bytes ≡ ok d
    → 0 < d.block_size
    → d.block_size ≤ 2 ^ 31
    → length basis ≤ 2 ^ 62
    → apply basis d ≢ panic
apply-unmarshal_delta-ne-panic bytes basis d h e pos small room =
    apply-ne-panic basis d pos
      (SmallCopy-of_Fits d.block_size d.ops small (unmarshal_delta-Fits bytes d h e).each)
      (omega arith)

-- The wire form admits a delta that makes `Apply` panic: for every block size and block number of 32
-- bits whose product is 2^63 or more, the delta that copies that block is read back from its binary
-- form, and its application to any basis panics.
pub apply-unmarshal_delta-panic :
    (basis : List ℕ) (bs i size : ℕ)
    → bs < 2 ^ 32
    → i < 2 ^ 32
    → 2 ^ 63 ≤ i * bs
    → size ≤ max_output_size
    → (d : Delta) × (unmarshal_delta (marshal_delta d) ≡ ok d)
      × (d.block_size ≡ bs)
      × (d.ops ≡ copy i ∷ [])
      × (apply basis d ≡ panic)
apply-unmarshal_delta-panic basis bs i size hb hi big hs =
    let d : Delta = record { block_size = bs; ops = copy i ∷ []; output_size = size } in
    let le : i * bs ≤ i * 2 ^ 32 = grind arith in
    (
      d,
      unmarshal_delta-marshal_delta d
          (record { block = hb; output = hs; count = omega arith; each = (hi, tt) }),
      refl,
      refl,
      apply-panic basis i [] bs size hs (ground arith) big (omega arith),
    )
