-- ===== src/Common/Table.antt =====
-- A Go map as an association list. The order of the list is the order in which a `range` over the
-- map meets the keys; what is proved holds for every order.
use Prim.Native.Nat.{suc}
use mathlib.Core.Path.{◌≡◌, refl, sym, subst, ap, ◌∙◌}
use mathlib.Core.Logic.{inl, inr}
use mathlib.Core.Bool.{Bool, true, false}
use mathlib.Core.List.{List, [], ◌∷◌}
use mathlib.Core.Option.{Option, none, some}
use native.Mathlib.Omega.{arith}
use tailsync.Common.Lists.{length, All}
use tailsync.Common.Tests.{Key, ◌==◌, if◌then◌else◌, Bool-cases}

abbrev pub Table {ℓ κ} : Type ℓ → Type κ → Type (ℓ ⊔ κ)
Table K V = List (K × V)

module _ {ℓ κ} {K : Type ℓ} {V : Type κ} ⦃key : Key K⦄ where
  -- `m[k]` with its second result.
  unfoldable pub get : K → Table K V → Option V
  get k [] = none
  get k ((j, v) ∷ m) = if j == k then some v else get k m

  -- `m[k] = v`
  unfoldable pub put : K → V → Table K V → Table K V
  put k v [] = (k, v) ∷ []
  put k v ((j, w) ∷ m) = if j == k then (j, v) ∷ m else (j, w) ∷ put k v m

  -- `delete(m, k)`
  unfoldable pub del : K → Table K V → Table K V
  del k [] = []
  del k ((j, w) ∷ m) = let rest = del k m in if j == k then rest else (j, w) ∷ rest

  -- `_, ok := m[k]`
  abbrev pub has : K → Table K V → Bool
  has k m = elim (get k m) [ none ↦ false | some v ↦ true ]

  -- No key occurs twice, as in any Go map.
  abbrev pub Distinct : Table K V → Type (ℓ ⊔ κ)
  Distinct [] = Unit
  Distinct ((k, v) ∷ m) = (get k m ≡ none) × Distinct m

module _ {ℓ κ} {K : Type ℓ} {V : Type κ} ⦃key : Key K⦄ where
  pub get-put :
      (k j : K) (v : V) (m : Table K V) → get j (put k v m) ≡ (if k == j then some v else get j m)
  unfolding get put
  get-put k j v [] = refl
  get-put k j v ((i, w) ∷ m) =
      ground
        (arith, key.eqb→eq k j, key.eqb→eq i k, key.eqb→eq i j, key.eqb_refl k, get-put k j v m)

  pub get-del : (k j : K) (m : Table K V) → get j (del k m) ≡ (if k == j then none else get j m)
  unfolding get del
  get-del k j [] = ground arith
  get-del k j ((i, w) ∷ m) =
      ground (arith, key.eqb→eq k j, key.eqb→eq i k, key.eqb→eq i j, key.eqb_refl k, get-del k j m)

  pub put-Distinct : (k : K) (v : V) (m : Table K V) → Distinct m → Distinct (put k v m)
  unfolding get put
  put-Distinct k v [] d = (refl, tt)
  put-Distinct k v ((i, w) ∷ m) d =
      ground (arith, get-put k i v m, key.eqb→eq k i, key.eqb_refl k, put-Distinct k v m)

  pub del-Distinct : (k : K) (m : Table K V) → Distinct m → Distinct (del k m)
  unfolding get del
  del-Distinct k [] d = tt
  del-Distinct k ((i, w) ∷ m) d = ground (arith, get-del k i m, del-Distinct k m)

  pub length-put :
      (k : K) (v : V) (m : Table K V)
      → length (put k v m) ≡ (if has k m then length m else suc (length m))
  unfolding get put
  length-put k v [] = refl
  length-put k v ((i, w) ∷ m) = ground (arith, length-put k v m)

module _ {ℓ κ μ} {K : Type ℓ} {V : Type κ} ⦃key : Key K⦄ (P : K × V → Type μ) where
  pub put-All : (k : K) (v : V) (m : Table K V) → P (k, v) → All P m → All P (put k v m)
  unfolding put
  put-All k v [] h hm = (h, tt)
  put-All k v ((j, w) ∷ m) h hm = elim (Bool-cases (key.eqb j k)) [
    | inl e ↦ rw e (subst (λ q. P (q, v)) (sym (key.eqb→eq j k e)) h, hm.1)
    | inr e ↦ rw e (hm.0, put-All k v m h hm.1)
  ]

  pub del-All : (k : K) (m : Table K V) → All P m → All P (del k m)
  unfolding del
  del-All k [] hm = tt
  del-All k ((j, w) ∷ m) hm = elim (Bool-cases (key.eqb j k)) [
    | inl e ↦ rw e (del-All k m hm.1)
    | inr e ↦ rw e (hm.0, del-All k m hm.1)
  ]

  -- What holds of every pair holds of one that is looked up.
  pub get-All : (k : K) (v : V) (m : Table K V) → All P m → get k m ≡ some v → P (k, v)
  unfolding get
  get-All k v [] hm e = absurd (none≢some e)
    where
      none≢some : {v : V} → none ≡ some v → ⊥
      none≢some h = cc
  get-All k v ((j, w) ∷ m) hm e = elim (Bool-cases (key.eqb j k)) [
    | inl here ↦
        let same : w ≡ v = ground (arith, here) in
        subst (λ q. P (q, v)) (key.eqb→eq j k here) (subst (λ x. P (j, x)) same hm.0)
    | inr there ↦ get-All k v m hm.1 (ground (arith, there))
  ]

module _ {ℓ κ} {K : Type ℓ} {V : Type κ} ⦃key : Key K⦄ where
  pub get-cons_ne :
      (k j : K) (v w : V) (m : Table K V)
      → get k m ≡ none
      → get j m ≡ some w
      → get j ((k, v) ∷ m) ≡ some w
  unfolding get
  get-cons_ne k j v w m absent there = elim (Bool-cases (key.eqb k j)) [
    | inl e ↦ absurd (none≢some (sym absent ∙ ap (λ q. get q m) (key.eqb→eq k j e) ∙ there))
    | inr e ↦ rw e there
  ]
    where
      none≢some : none ≡ some w → ⊥
      none≢some h = cc

  All-get_sub :
      (k : K) (v : V) (xs m : Table K V)
      → get k m ≡ none
      → All (λ kv. get kv.0 m ≡ some kv.1) xs
      → All (λ kv. get kv.0 ((k, v) ∷ m) ≡ some kv.1) xs
  All-get_sub k v [] m absent h = tt
  All-get_sub k v ((j, w) ∷ xs) m absent h =
      (get-cons_ne k j v w m absent h.0, All-get_sub k v xs m absent h.1)

  -- Where no key stands twice, each pair is what a lookup of its key finds.
  pub All-get : (m : Table K V) → Distinct m → All (λ kv. get kv.0 m ≡ some kv.1) m
  unfolding get
  All-get [] d = tt
  All-get ((k, v) ∷ m) d = (rw (key.eqb_refl k), All-get_sub k v m m d.0 (All-get m d.1))
