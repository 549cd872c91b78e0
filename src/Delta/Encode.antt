-- ===== src/Delta/Encode.antt =====
-- `Encode` of internal/delta/delta.go over a buffer, as `EncodeBytes` calls it. The position in the
-- target is kept as what is left of the target behind it. MD5 is a parameter.
use tailsync.Common.{
  ℕ, zero, suc, Option, none, some, List, [], ◌∷◌, ◌++◌, ltb, leb, nat_eqb, text_eqb, if◌then◌else◌,
  length, take, drop, get_elem?, Text,
}
use tailsync.Delta.{
  BlockChecksum, Signature, Op, literal, copy, Delta, default_block_size, weak_checksum, roll,
}

-- `weakMap`: the block numbers with a weak sum, in order.
unfoldable pub index_weak : ℕ → List BlockChecksum → (ℕ → List ℕ) → ℕ → List ℕ
index_weak i [] m = m
index_weak i (b ∷ bs) m =
    index_weak (suc i) bs (λ w. if nat_eqb w b.weak then m w ++ (i ∷ []) else m w)

unfoldable pub weak_map : List BlockChecksum → ℕ → List ℕ
unfolding index_weak
weak_map blocks = index_weak 0 blocks (λ w. [])

-- The loop over the candidates: the first whose strong sum is the given one.
unfoldable pub find_strong : List BlockChecksum → Text → List ℕ → Option ℕ
find_strong blocks sum [] = none
find_strong blocks sum (i ∷ is) =
    let rest : Option ℕ = find_strong blocks sum is in
    elim (get_elem? blocks i) [
      | none ↦ rest
      | some b ↦ if text_eqb b.strong sum then some i else rest
    ]

-- What the loops of `Encode` change: the target from position `i` on, the pending literal and the
-- operations so far.
pub record State : Type 0 where
  pub rest : List ℕ
  pub lit : List ℕ
  pub ops : List Op

unfoldable pub flush_lit : List ℕ → List Op → List Op
flush_lit [] ops = ops
flush_lit (b ∷ lit) ops = ops ++ (literal (b ∷ lit) ∷ [])

-- A match on a block: the literal is flushed, the copy is written, and the position moves on.
unfoldable pub emit_copy : ℕ → ℕ → State → State
unfolding flush_lit
emit_copy bs i s = record {
  rest = drop bs s.rest;
  lit = [];
  ops = flush_lit s.lit s.ops ++ (copy i ∷ []);
}

-- The byte at an offset; it is read only inside the target.
abbrev pub byte_at : ℕ → List ℕ → ℕ
byte_at n r = elim (get_elem? r n) [ none ↦ 0 | some b ↦ b ]

module _ (md5 : List ℕ → Text) where
  unfoldable pub find_match : Signature → ℕ → List ℕ → Option ℕ
  unfolding find_strong weak_map
  find_match sig weak block = find_strong sig.blocks (md5 block) (weak_map sig.blocks weak)

  -- The inner loop, which keeps the weak sum of the window by rolling it.
  unfoldable pub roll_search : Signature → ℕ → List ℕ → List ℕ → List Op → State
  roll_search sig sum [] lit ops = record { rest = []; lit = lit; ops = ops }
  roll_search sig sum (out ∷ r) lit ops =
      let bs : ℕ = sig.block_size in
      let target : List ℕ = out ∷ r in
      let here : State = record { rest = target; lit = lit; ops = ops } in
      let next : State =
        roll_search sig (roll sum out (byte_at bs target) bs) r (lit ++ (out ∷ [])) ops in
      if ltb (length target) bs then here else (elim (find_match sig sum (take bs target)) [
        | some i ↦ emit_copy bs i here
        | none ↦ if leb (length target) bs then here else next
      ])

  -- One byte of literal, and the inner loop where a whole window is left.
  unfoldable pub slide : Signature → State → State
  slide sig s = elim (s.rest) [
    | [] ↦ s
    | b ∷ r ↦
        if leb sig.block_size (length r)
        then roll_search sig (weak_checksum (take sig.block_size r)) r (s.lit ++ (b ∷ [])) s.ops
        else record { rest = r; lit = s.lit ++ (b ∷ []); ops = s.ops }
  ]

  -- The remainder that is shorter than a block: a copy of a short block or literal.
  unfoldable pub finish : Signature → State → State
  finish sig s =
      let plain : State = record { rest = []; lit = s.lit ++ s.rest; ops = s.ops } in
      if ltb 0 (length sig.blocks)
      then (elim (find_match sig (weak_checksum s.rest) s.rest) [
        | some i ↦ emit_copy (length s.rest) i s
        | none ↦ plain
      ])
      else plain

  -- The outer loop. `none`: the fuel ran out.
  unfoldable pub encode_loop : ℕ → Signature → State → Option State
  encode_loop zero sig s = none
  encode_loop (suc fuel) sig s =
      let bs : ℕ = sig.block_size in
      if nat_eqb (length s.rest) 0
      then some s
      else (if ltb (length s.rest) bs
          then some (finish sig s)
          else (elim (find_match sig (weak_checksum (take bs s.rest)) (take bs s.rest)) [
            | some i ↦ encode_loop fuel sig (emit_copy bs i s)
            | none ↦ encode_loop fuel sig (slide sig s)
          ]))

  unfoldable pub whole_file : List ℕ → Delta
  whole_file target = record {
    block_size = default_block_size;
    ops = literal target ∷ [];
    output_size = length target;
  }

  unfoldable pub encode_with : Signature → List ℕ → Option Delta
  encode_with sig target =
      elim (encode_loop (suc (length target)) sig (record { rest = target; lit = []; ops = [] })) [
        | none ↦ none
        | some s ↦ some (record {
          block_size = sig.block_size;
          ops = flush_lit s.lit s.ops;
          output_size = length target;
        })
      ]

  -- No signature stands for a nil pointer.
  unfoldable pub encode_bytes : List ℕ → Option Signature → Option Delta
  encode_bytes target none = some (whole_file target)
  encode_bytes target (some sig) =
      if nat_eqb sig.block_size 0 then some (whole_file target) else encode_with sig target
