-- ===== src/Delta/Size.antt =====
-- How many operations `Encode` writes, and how large they are.
use mathlib.Core.Path.{subst}
use tailsync.Common.{
  ℕ, zero, suc, ◌+◌, ◌-◌, ◌*◌, ◌<◌, ◌≤◌, ◌≡◌, refl, ap, some, List, [], ◌∷◌, ◌++◌, length, arith,
  Text, length-append, length-drop, Bool-cases, Option-cases, inl, inr, ltb, leb, nat_eqb, take,
}
use tailsync.Delta.{Signature, Op, literal, copy, Delta, weak_checksum, roll}
use tailsync.Delta.Encode.{
  State, flush_lit, emit_copy, find_match, roll_search, slide, finish, encode_loop, encode_with,
  encode_bytes, byte_at,
}

mul_mono : (a b m : ℕ) → a ≤ b → a * m ≤ b * m
mul_mono a b m h = grind arith

length-flush_lit : (lit : List ℕ) (ops : List Op) → length (flush_lit lit ops) ≤ length ops + 1
unfolding flush_lit
length-flush_lit [] ops = omega arith
length-flush_lit (b ∷ lit) ops = omega (arith, length-append ops (literal (b ∷ lit) ∷ []))

flush_lit_empty : (ops : List Op) → length (flush_lit [] ops) ≡ length ops
unfolding flush_lit
flush_lit_empty ops = refl

length-emit_copy :
    (n i : ℕ) (s : State)
    → (length (emit_copy n i s).ops ≤ length s.ops + 2)
      × (length (emit_copy n i s).rest ≡ length s.rest - n)
      × ((emit_copy n i s).lit ≡ [])
unfolding emit_copy
length-emit_copy n i s = (
  omega (arith, length-append (flush_lit s.lit s.ops) (copy i ∷ []), length-flush_lit s.lit s.ops),
  length-drop n s.rest,
  refl,
)

module _ (md5 : List ℕ → Text) (sig : Signature) (total : ℕ) where
  -- Every two operations are paid for by a block of the target that is behind the position.
  abbrev Paid : State → Type 0
  Paid s = length s.ops * sig.block_size + 2 * (length s.rest + length s.lit) ≤ 2 * total

  emit_copy-Paid :
      (s : State) (i : ℕ)
      → sig.block_size ≤ length s.rest
      → Paid s
      → Paid (emit_copy sig.block_size i s)
  emit_copy-Paid s i wide p =
      let (few, rest, lit) = length-emit_copy sig.block_size i s in
      let le : length (emit_copy sig.block_size i s).ops * sig.block_size
          ≤ (length s.ops + 2) * sig.block_size =
        mul_mono _ _ sig.block_size few in
      omega (arith, le, rest, ap length lit)

  literal-Paid :
      (b : ℕ) (r lit : List ℕ) (ops : List Op)
      → Paid (record { rest = b ∷ r; lit = lit; ops = ops })
      → Paid (record { rest = r; lit = lit ++ (b ∷ []); ops = ops })
  literal-Paid b r lit ops p = omega (arith, length-append lit (b ∷ []))

  roll_search-Paid :
      (sum : ℕ) (r lit : List ℕ) (ops : List Op)
      → Paid (record { rest = r; lit = lit; ops = ops })
      → Paid (roll_search md5 sig sum r lit ops)
  unfolding roll_search
  roll_search-Paid sum [] lit ops p = p
  roll_search-Paid sum (out ∷ r) lit ops p =
      let bs : ℕ = sig.block_size in
      let here : State = record { rest = out ∷ r; lit = lit; ops = ops } in
      elim (Bool-cases (ltb (length (out ∷ r)) bs)) [
        | inl short ↦ rw short p
        | inr wide ↦ elim (Option-cases (find_match md5 sig sum (take bs (out ∷ r)))) [
          | inr (i, hit) ↦ rw (wide, hit) (emit_copy-Paid here i (ground (arith, wide)) p)
          | inl miss ↦ elim (Bool-cases (leb (length (out ∷ r)) bs)) [
            | inl last ↦ rw (wide, miss, last) p
            | inr more ↦
                rw (wide, miss, more)
                  (roll_search-Paid (roll sum out (byte_at bs (out ∷ r)) bs) r (lit ++ (out ∷ []))
                    ops (literal-Paid out r lit ops p))
          ]
        ]
      ]

  slide-Paid : (s : State) → Paid s → Paid (slide md5 sig s)
  unfolding slide
  slide-Paid s p = go s.rest s.lit s.ops p
    where
      go :
          (r lit : List ℕ) (ops : List Op)
          → Paid (record { rest = r; lit = lit; ops = ops })
          → Paid (slide md5 sig (record { rest = r; lit = lit; ops = ops }))
      go [] lit ops p = p
      go (b ∷ r) lit ops p = elim (Bool-cases (leb sig.block_size (length r))) [
        | inl wide ↦
            rw (slide, wide)
              (roll_search-Paid (weak_checksum (take sig.block_size r)) r (lit ++ (b ∷ [])) ops
                (literal-Paid b r lit ops p))
        | inr short ↦ rw (slide, short) (literal-Paid b r lit ops p)
      ]

  length-finish : (s : State) → length (finish md5 sig s).ops ≤ length s.ops + 2
  unfolding finish
  length-finish s = elim (Option-cases (find_match md5 sig (weak_checksum s.rest) s.rest)) [
    | inl miss ↦ ground (arith, miss)
    | inr (i, hit) ↦ ground (arith, hit, (length-emit_copy (length s.rest) i s).0)
  ]

  encode_loop_few :
      (fuel : ℕ) (s s' : State)
      → Paid s
      → encode_loop md5 fuel sig s ≡ some s'
      → length s'.ops * sig.block_size ≤ 2 * total + 2 * sig.block_size
  unfolding encode_loop
  encode_loop_few zero s s' p e = absurd (ground arith)
  encode_loop_few (suc fuel) s s' p e = elim (Bool-cases (nat_eqb (length s.rest) 0)) [
    | inl end ↦
        let same : s ≡ s' = ground (arith, end) in
        subst (λ t. length t.ops * sig.block_size ≤ 2 * total + 2 * sig.block_size) same
          (omega arith)
    | inr more ↦ elim (Bool-cases (ltb (length s.rest) sig.block_size)) [
      | inl short ↦
          let same : finish md5 sig s ≡ s' = ground (arith, more, short) in
          let le : length (finish md5 sig s).ops * sig.block_size
              ≤ (length s.ops + 2) * sig.block_size =
            mul_mono _ _ sig.block_size (length-finish s) in
          subst (λ t. length t.ops * sig.block_size ≤ 2 * total + 2 * sig.block_size) same
            (omega (arith, le))
      | inr wide ↦
          elim (Option-cases (
            find_match md5 sig (weak_checksum (take sig.block_size s.rest))
              (take sig.block_size s.rest))) [
                | inr (i, hit) ↦
                    encode_loop_few fuel (emit_copy sig.block_size i s) s'
                      (emit_copy-Paid s i (ground (arith, wide)) p)
                      (ground (arith, more, wide, hit))
                | inl miss ↦
                    encode_loop_few fuel (slide md5 sig s) s' (slide-Paid s p)
                      (ground (arith, more, wide, miss))
              ]
    ]
  ]

pub encode_bytes_few :
    (md5 : List ℕ → Text) (target : List ℕ) (sig : Signature) (d : Delta)
    → 0 < sig.block_size
    → encode_bytes md5 target (some sig) ≡ some d
    → length d.ops * sig.block_size ≤ 2 * length target + 3 * sig.block_size
unfolding encode_bytes encode_with
encode_bytes_few md5 target sig d pos e =
    let start : State = record { rest = target; lit = []; ops = [] } in
    elim (Option-cases (encode_loop md5 (suc (length target)) sig start)) [
      | inl out ↦ absurd (ground (arith, out))
      | inr (s, done) ↦
          let few =
            encode_loop_few md5 sig (length target) (suc (length target)) start s (omega arith)
              done in
          let same : flush_lit s.lit s.ops ≡ d.ops = ground (arith, done) in
          let le : length (flush_lit s.lit s.ops) * sig.block_size
              ≤ (length s.ops + 1) * sig.block_size =
            mul_mono _ _ sig.block_size (length-flush_lit s.lit s.ops) in
          subst (λ ops. length ops * sig.block_size ≤ 2 * length target + 3 * sig.block_size) same
            (omega (arith, few, le))
    ]
