-- ===== src/Delta/Patch.antt =====
-- The loops of `Encode` keep what they have read: operations, pending literal and the rest of the
-- target together always stand for the target.
use mathlib.Core.List.{append-nil, append_assoc}
use tailsync.Common.{
  ℕ, zero, suc, ◌+◌, ◌*◌, ◌<◌, ◌≤◌, ◌≡◌, refl, sym, ap, ◌∙◌, some, List, [], ◌∷◌, ◌++◌, ltb,
  nat_eqb, length, take, drop, Text, arith, All, All-append, Bool-cases, Option-cases, inl, inr,
  length-drop, take-append-drop, take_all, drop_all, drop-drop, leb,
}
use tailsync.Delta.{Signature, Op, copy, weak_checksum, roll}
use tailsync.Delta.Encode.{
  find_match, State, flush_lit, emit_copy, roll_search, slide, finish, encode_loop, weak_map,
  byte_at,
}
use tailsync.Delta.Expand.{
  chunk, expand, expand-append, expand-flush_lit, expand-copy, find_strong_sound, InBasis,
  flush_lit-InBasis, NoCollision, Describes,
}

module _ (md5 : List ℕ → Text) (basis target : List ℕ) (sig : Signature)
    (describes : Describes md5 basis sig) where
  abbrev pub bs : ℕ
  bs = sig.block_size

  find_match_sound :
      (weak : ℕ) (block : List ℕ) (i : ℕ)
      → find_match md5 sig weak block ≡ some i
      → (i * bs < length basis) × (md5 (chunk basis bs i) ≡ md5 block)
  unfolding find_match
  find_match_sound weak block i h =
      let (b, at, strong) =
        find_strong_sound sig.blocks (md5 block) (weak_map sig.blocks weak) i h in
      ground (arith, at, strong, describes i)

  pub record Inv (s : State) : Type 0 where
    pub rebuilds : expand basis bs s.ops ++ (s.lit ++ s.rest) ≡ target
    pub in_basis : All (InBasis basis bs) s.ops
    pub clear : NoCollision md5 basis bs s.rest

  clear-drop :
      (n : ℕ) (r : List ℕ) → NoCollision md5 basis bs r → NoCollision md5 basis bs (drop n r)
  clear-drop n r c j k h = rw (← drop-drop j n r) at (c (n + j) k (rw (drop-drop j n r) at h))

  clear-head : (b : ℕ) (r : List ℕ) → NoCollision md5 basis bs (b ∷ r) → NoCollision md5 basis bs r
  clear-head b r c = clear-drop 1 (b ∷ r) c

  -- The window at the position is the block that matched.
  match-chunk :
      (weak : ℕ) (r : List ℕ) (i : ℕ)
      → NoCollision md5 basis bs r
      → find_match md5 sig weak (take bs r) ≡ some i
      → (i * bs < length basis) × (chunk basis bs i ≡ take bs r)
  match-chunk weak r i c h =
      let (lo, same) = find_match_sound weak (take bs r) i h in (lo, c 0 i same)

  emit_copy-Inv :
      (s : State) (i n : ℕ)
      → Inv s
      → i * bs < length basis
      → chunk basis bs i ≡ take n s.rest
      → Inv (emit_copy n i s)
  unfolding emit_copy
  emit_copy-Inv s i n v lo same = record {
    rebuilds =
        ap (λ e. e ++ drop n s.rest) (expand-append basis bs (flush_lit s.lit s.ops) (copy i ∷ []))
        ∙ ap (λ e. (expand basis bs (flush_lit s.lit s.ops) ++ e) ++ drop n s.rest)
            (expand-copy basis bs i)
        ∙ ap (λ e. (e ++ chunk basis bs i) ++ drop n s.rest) (expand-flush_lit basis bs s.lit s.ops)
        ∙ append_assoc (expand basis bs s.ops ++ s.lit) (chunk basis bs i) (drop n s.rest)
        ∙ ap (λ c. (expand basis bs s.ops ++ s.lit) ++ (c ++ drop n s.rest)) same
        ∙ ap (◌++◌ (expand basis bs s.ops ++ s.lit)) (take-append-drop n s.rest)
        ∙ append_assoc (expand basis bs s.ops) s.lit s.rest
        ∙ v.rebuilds;
    in_basis =
        All-append (InBasis basis bs) (flush_lit s.lit s.ops) (copy i ∷ [])
          (flush_lit-InBasis basis bs s.lit s.ops v.in_basis) (lo, tt);
    clear = clear-drop n s.rest v.clear;
  }

  -- One byte moves from the rest to the literal.
  literal-Inv :
      (b : ℕ) (r lit : List ℕ) (ops : List Op)
      → Inv (record { rest = b ∷ r; lit = lit; ops = ops })
      → Inv (record { rest = r; lit = lit ++ (b ∷ []); ops = ops })
  literal-Inv b r lit ops v = record {
    rebuilds = ap (◌++◌ (expand basis bs ops)) (append_assoc lit (b ∷ []) r) ∙ v.rebuilds;
    in_basis = v.in_basis;
    clear = clear-head b r v.clear;
  }

  roll_search-Inv :
      (sum : ℕ) (r lit : List ℕ) (ops : List Op)
      → Inv (record { rest = r; lit = lit; ops = ops })
      → Inv (roll_search md5 sig sum r lit ops)
        × (length (roll_search md5 sig sum r lit ops).rest ≤ length r)
  unfolding roll_search
  roll_search-Inv sum [] lit ops v = (v, omega arith)
  roll_search-Inv sum (out ∷ r) lit ops v = elim (Bool-cases (ltb (length (out ∷ r)) bs)) [
    | inl short ↦ rw short (v, omega arith)
    | inr wide ↦ elim (Option-cases (find_match md5 sig sum (take bs (out ∷ r)))) [
      | inr (i, hit) ↦
          let (lo, same) = match-chunk sum (out ∷ r) i v.clear hit in
          rw (wide, hit)
            (
              emit_copy-Inv (record { rest = out ∷ r; lit = lit; ops = ops }) i bs v lo same,
              unfold emit_copy in omega (arith, length-drop bs (out ∷ r)),
            )
      | inl miss ↦ elim (Bool-cases (leb (length (out ∷ r)) bs)) [
        | inl last ↦ rw (wide, miss, last) (v, omega arith)
        | inr more ↦
            let sum' : ℕ = roll sum out (byte_at bs (out ∷ r)) bs in
            let (v', l) =
              roll_search-Inv sum' r (lit ++ (out ∷ [])) ops (literal-Inv out r lit ops v) in
            rw (wide, miss, more) (v', omega arith)
      ]
    ]
  ]

  slide-Inv_at :
      (b : ℕ) (r lit : List ℕ) (ops : List Op)
      → Inv (record { rest = b ∷ r; lit = lit; ops = ops })
      → Inv (slide md5 sig (record { rest = b ∷ r; lit = lit; ops = ops }))
        × (length (slide md5 sig (record { rest = b ∷ r; lit = lit; ops = ops })).rest
            < suc (length r))
  unfolding slide
  slide-Inv_at b r lit ops v =
      let v' = literal-Inv b r lit ops v in
      let (w, l) = roll_search-Inv (weak_checksum (take bs r)) r (lit ++ (b ∷ [])) ops v' in
      elim (Bool-cases (leb bs (length r))) [
        | inl wide ↦ rw wide (w, omega arith)
        | inr short ↦ rw short (v', omega arith)
      ]

  slide-Inv :
      (s : State)
      → Inv s
      → 0 < length s.rest
      → Inv (slide md5 sig s) × (length (slide md5 sig s).rest < length s.rest)
  slide-Inv s v h = go s.rest s.lit s.ops v h
    where
      go :
          (r lit : List ℕ) (ops : List Op)
          → Inv (record { rest = r; lit = lit; ops = ops })
          → 0 < length r
          → Inv (slide md5 sig (record { rest = r; lit = lit; ops = ops }))
            × (length (slide md5 sig (record { rest = r; lit = lit; ops = ops })).rest < length r)
      go [] lit ops v h = elim h [ ]
      go (b ∷ r) lit ops v h = slide-Inv_at b r lit ops v

  literal_rest-Inv :
      (s : State) → Inv s → Inv (record { rest = []; lit = s.lit ++ s.rest; ops = s.ops })
  literal_rest-Inv s v = record {
    rebuilds = ap (◌++◌ (expand basis bs s.ops)) (append-nil (s.lit ++ s.rest)) ∙ v.rebuilds;
    in_basis = v.in_basis;
    clear =
        rw (drop_all (length s.rest) s.rest (omega arith)) at
          (clear-drop (length s.rest) s.rest v.clear);
  }

  finish-Inv :
      (s : State)
      → Inv s
      → length s.rest < bs
      → Inv (finish md5 sig s) × ((finish md5 sig s).rest ≡ [])
  unfolding finish
  finish-Inv s v h = elim (Bool-cases (ltb 0 (length sig.blocks))) [
    | inr no_blocks ↦ rw (no_blocks, finish) (literal_rest-Inv s v, refl)
    | inl blocks ↦ elim (Option-cases (find_match md5 sig (weak_checksum s.rest) s.rest)) [
      | inl miss ↦ rw (blocks, miss, finish) (literal_rest-Inv s v, refl)
      | inr (i, hit) ↦
          let whole : take bs s.rest ≡ s.rest = take_all bs s.rest (omega arith) in
          let all : take (length s.rest) s.rest ≡ s.rest =
            take_all (length s.rest) s.rest (omega arith) in
          let (lo, same) = match-chunk (weak_checksum s.rest) s.rest i v.clear (rw whole hit) in
          rw (blocks, hit, finish)
            (
              emit_copy-Inv s i (length s.rest) v lo (same ∙ whole ∙ sym all),
              unfold emit_copy in drop_all (length s.rest) s.rest (omega arith),
            )
    ]
  ]

  -- With more fuel than bytes the outer loop ends, at the end of the target.
  pub encode_loop-Inv :
      (fuel : ℕ) (s : State)
      → 0 < bs
      → length s.rest < fuel
      → Inv s
      → (s' : State) × (encode_loop md5 fuel sig s ≡ some s') × Inv s' × (s'.rest ≡ [])
  unfolding encode_loop
  encode_loop-Inv zero s pos enough v = absurd (omega arith)
  encode_loop-Inv (suc fuel) s pos enough v = elim (Bool-cases (nat_eqb (length s.rest) 0)) [
    | inl end ↦ (s, rw (end, encode_loop), v, drop_all 0 s.rest (ground (arith, end)))
    | inr more ↦ elim (Bool-cases (ltb (length s.rest) bs)) [
      | inl short ↦
          let (w, nil) = finish-Inv s v (ground (arith, short)) in
          (finish md5 sig s, rw (more, short, encode_loop), w, nil)
      | inr wide ↦
          elim (Option-cases
            (find_match md5 sig (weak_checksum (take bs s.rest)) (take bs s.rest))) [
              | inr (i, hit) ↦
                  let (lo, same) =
                    match-chunk (weak_checksum (take bs s.rest)) s.rest i v.clear hit in
                  let (s', e, w, nil) =
                    encode_loop-Inv fuel (emit_copy bs i s) pos
                      (unfold emit_copy in ground (arith, length-drop bs s.rest, wide))
                      (emit_copy-Inv s i bs v lo same) in
                  (s', rw (more, wide, hit, encode_loop) e, w, nil)
              | inl miss ↦
                  let (w, l) = slide-Inv s v (ground (arith, more)) in
                  let (s', e, w', nil) =
                    encode_loop-Inv fuel (slide md5 sig s) pos (omega arith) w in
                  (s', rw (more, wide, miss, encode_loop) e, w', nil)
            ]
    ]
  ]
