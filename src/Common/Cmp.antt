-- ===== src/Common/Cmp.antt =====
-- Three-way comparisons, as Go's `cmp.Compare`, and their laws: a total order on numbers, on
-- booleans, on strings by bytes, and on pairs by the first component that differs.
use Prim.Native.Nat.{ℕ, compare, Ordering}
use mathlib.Core.Path.{◌≡◌, refl, ap₂}
use mathlib.Core.Bool.{Bool, true, false}
use mathlib.Core.List.{[], ◌∷◌}
use native.Mathlib.Omega.{arith}
use tailsync.Common.Tests.{Text}

-- The second comparison decides where the first finds no difference.
abbrev pub then_cmp : Ordering → Ordering → Ordering
then_cmp Ordering.lt d = Ordering.lt
then_cmp Ordering.gt d = Ordering.gt
then_cmp Ordering.eq d = d

abbrev pub cmp_bool : Bool → Bool → Ordering
cmp_bool true true = Ordering.eq
cmp_bool true false = Ordering.gt
cmp_bool false true = Ordering.lt
cmp_bool false false = Ordering.eq

abbrev pub cmp_text : Text → Text → Ordering
cmp_text [] [] = Ordering.eq
cmp_text [] (y ∷ ys) = Ordering.lt
cmp_text (x ∷ xs) [] = Ordering.gt
cmp_text (x ∷ xs) (y ∷ ys) = then_cmp (compare x y) (cmp_text xs ys)

abbrev pub cmp_pair {ℓ κ} :
    {A : Type ℓ} {B : Type κ} → (A → A → Ordering) → (B → B → Ordering) → A × B → A × B → Ordering
cmp_pair f g p q = then_cmp (f p.0 q.0) (g p.1 q.1)

-- The laws of a total order, read off the three answers.
pub record IsOrder {ℓ} {A : Type ℓ} (cmp : A → A → Ordering) : Type ℓ where
  pub cmp_refl : (a : A) → cmp a a ≡ Ordering.eq
  pub eq_of_cmp : (a b : A) → cmp a b ≡ Ordering.eq → a ≡ b
  pub gt_of_lt : (a b : A) → cmp a b ≡ Ordering.lt → cmp b a ≡ Ordering.gt
  pub lt_of_gt : (a b : A) → cmp a b ≡ Ordering.gt → cmp b a ≡ Ordering.lt
  pub lt_trans : (a b c : A) → cmp a b ≡ Ordering.lt → cmp b c ≡ Ordering.lt → cmp a c ≡ Ordering.lt

nat_refl : (a : ℕ) → compare a a ≡ Ordering.eq
nat_refl a = ground arith

nat_eq : (a b : ℕ) → compare a b ≡ Ordering.eq → a ≡ b
nat_eq a b h = ground arith

nat_gt : (a b : ℕ) → compare a b ≡ Ordering.lt → compare b a ≡ Ordering.gt
nat_gt a b h = ground arith

nat_lt : (a b : ℕ) → compare a b ≡ Ordering.gt → compare b a ≡ Ordering.lt
nat_lt a b h = ground arith

nat_trans :
    (a b c : ℕ) → compare a b ≡ Ordering.lt → compare b c ≡ Ordering.lt → compare a c ≡ Ordering.lt
nat_trans a b c h k = ground arith

pub nat-IsOrder : IsOrder compare
nat-IsOrder = record {
  cmp_refl = nat_refl;
  eq_of_cmp = nat_eq;
  gt_of_lt = nat_gt;
  lt_of_gt = nat_lt;
  lt_trans = nat_trans;
}

pub bool-IsOrder : IsOrder cmp_bool
bool-IsOrder = record {
  cmp_refl = λ a. ground arith;
  eq_of_cmp = λ a b h. ground arith;
  gt_of_lt = λ a b h. ground arith;
  lt_of_gt = λ a b h. ground arith;
  lt_trans = λ a b c h k. ground arith;
}

text_refl : (s : Text) → cmp_text s s ≡ Ordering.eq
text_refl [] = refl
text_refl (x ∷ s) = ground (arith, text_refl s)

text_eq : (s t : Text) → cmp_text s t ≡ Ordering.eq → s ≡ t
text_eq [] [] h = refl
text_eq [] (y ∷ t) h = cc
text_eq (x ∷ s) [] h = cc
text_eq (x ∷ s) (y ∷ t) h = ground (arith, text_eq s t)

text_gt : (s t : Text) → cmp_text s t ≡ Ordering.lt → cmp_text t s ≡ Ordering.gt
text_gt [] [] h = cc
text_gt [] (y ∷ t) h = refl
text_gt (x ∷ s) [] h = cc
text_gt (x ∷ s) (y ∷ t) h = ground (arith, text_gt s t)

text_lt : (s t : Text) → cmp_text s t ≡ Ordering.gt → cmp_text t s ≡ Ordering.lt
text_lt [] [] h = cc
text_lt [] (y ∷ t) h = cc
text_lt (x ∷ s) [] h = refl
text_lt (x ∷ s) (y ∷ t) h = ground (arith, text_lt s t)

text_trans :
    (s t u : Text)
    → cmp_text s t ≡ Ordering.lt
    → cmp_text t u ≡ Ordering.lt
    → cmp_text s u ≡ Ordering.lt
text_trans [] [] u h k = cc
text_trans [] (y ∷ t) [] h k = cc
text_trans [] (y ∷ t) (z ∷ u) h k = refl
text_trans (x ∷ s) [] u h k = cc
text_trans (x ∷ s) (y ∷ t) [] h k = cc
text_trans (x ∷ s) (y ∷ t) (z ∷ u) h k = ground (arith, text_trans s t u)

pub text-IsOrder : IsOrder cmp_text
text-IsOrder = record {
  cmp_refl = text_refl;
  eq_of_cmp = text_eq;
  gt_of_lt = text_gt;
  lt_of_gt = text_lt;
  lt_trans = text_trans;
}

module _ {ℓ κ} {A : Type ℓ} {B : Type κ} {f : A → A → Ordering} {g : B → B → Ordering}
    (of : IsOrder f) (og : IsOrder g) where
  pair_eq : (p q : A × B) → cmp_pair f g p q ≡ Ordering.eq → p ≡ q
  pair_eq (a, b) (c, d) h =
      ap₂ {B = B} (λ x y. (x, y)) (of.eq_of_cmp a c (ground arith))
        (og.eq_of_cmp b d (ground arith))

  pub pair-IsOrder : IsOrder (cmp_pair f g)
  pair-IsOrder = record {
    cmp_refl = λ p. ground (arith, of.cmp_refl p.0, og.cmp_refl p.1);
    eq_of_cmp = pair_eq;
    gt_of_lt = λ p q h.
        ground
          (arith, of.gt_of_lt p.0 q.0, og.gt_of_lt p.1 q.1, of.eq_of_cmp p.0 q.0, of.cmp_refl p.0);
    lt_of_gt = λ p q h.
        ground
          (arith, of.lt_of_gt p.0 q.0, og.lt_of_gt p.1 q.1, of.eq_of_cmp p.0 q.0, of.cmp_refl p.0);
    lt_trans = λ p q r h k. ground (
      arith,
      of.lt_trans p.0 q.0 r.0,
      og.lt_trans p.1 q.1 r.1,
      of.eq_of_cmp p.0 q.0,
      of.eq_of_cmp q.0 r.0,
    );
  }
