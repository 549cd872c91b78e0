-- ===== src/Common/Tests.antt =====
-- Boolean tests on the native numbers, the conditional, and the interface of keys with an equality.
use Prim.Native.Nat.{ℕ, ◌≤◌, ◌<◌, compare, Ordering}
use mathlib.Core.Path.{◌≡◌, refl}
use mathlib.Core.Logic.{◌↔◌, ◌≢◌, ◌⊎◌, inl, inr}
use mathlib.Core.Bool.{Bool, true, false, ◌&&◌}
use mathlib.Core.List.{List, [], ◌∷◌}
use mathlib.Core.Option.{Option, none, some}
use native.Mathlib.Omega.{arith}

abbrev pub ltb : ℕ → ℕ → Bool
ltb a b = elim (compare a b) [ Ordering.lt ↦ true | _ ↦ false ]

abbrev pub leb : ℕ → ℕ → Bool
leb a b = elim (compare a b) [ Ordering.gt ↦ false | _ ↦ true ]

abbrev pub nat_eqb : ℕ → ℕ → Bool
nat_eqb a b = elim (compare a b) [ Ordering.eq ↦ true | _ ↦ false ]

infix 1 if◌then◌else◌
abbrev pub if◌then◌else◌ {ℓ} : {A : Type ℓ} → Bool → A → A → A
if true then x else y = x
if false then x else y = y

-- Both tests of Go's `==` on booleans.
abbrev pub bool_eqb : Bool → Bool → Bool
bool_eqb true b = b
bool_eqb false true = false
bool_eqb false false = true

pub ltb→lt : (a b : ℕ) → ltb a b ≡ true → a < b
ltb→lt a b h = ground arith

pub lt→ltb : (a b : ℕ) → a < b → ltb a b ≡ true
lt→ltb a b h = ground arith

pub leb→le : (a b : ℕ) → leb a b ≡ true → a ≤ b
leb→le a b h = ground arith

pub nat_eqb_iff : (a b : ℕ) → (nat_eqb a b ≡ true) ↔ (a ≡ b)
nat_eqb_iff a b = ground arith

pub Bool-cases : (b : Bool) → (b ≡ true) ⊎ (b ≡ false)
Bool-cases true = inl refl
Bool-cases false = inr refl

pub Option-cases {ℓ} : {A : Type ℓ} (o : Option A) → (o ≡ none) ⊎ ((a : A) × (o ≡ some a))
Option-cases none = inl refl
Option-cases (some a) = inr (a, refl)

-- A Go string is the list of its bytes.
abbrev pub Text : Type 0
Text = List ℕ

abbrev pub text_eqb : Text → Text → Bool
text_eqb [] [] = true
text_eqb [] (y ∷ ys) = false
text_eqb (x ∷ xs) [] = false
text_eqb (x ∷ xs) (y ∷ ys) = nat_eqb x y && text_eqb xs ys

pub text_eqb→eq : (s t : Text) → text_eqb s t ≡ true → s ≡ t
text_eqb→eq [] [] h = refl
text_eqb→eq [] (y ∷ ys) h = cc
text_eqb→eq (x ∷ xs) [] h = cc
text_eqb→eq (x ∷ xs) (y ∷ ys) h = ground (arith, text_eqb→eq xs ys)

pub text_eqb_refl : (s : Text) → text_eqb s s ≡ true
text_eqb_refl [] = refl
text_eqb_refl (x ∷ xs) = ground (arith, text_eqb_refl xs)

-- What a Go map asks of its key type.
pub record Key {ℓ} (K : Type ℓ) : Type ℓ where
  pub eqb : K → K → Bool
  pub eqb→eq : (a b : K) → eqb a b ≡ true → a ≡ b
  pub eqb_refl : (a : K) → eqb a a ≡ true

infix 50 ◌==◌
abbrev pub ◌==◌ {ℓ} : {K : Type ℓ} ⦃key : Key K⦄ → K → K → Bool
◌==◌ ⦃key⦄ = key.eqb

pub nat_eqb→eq : (a b : ℕ) → nat_eqb a b ≡ true → a ≡ b
nat_eqb→eq a b h = ground arith

pub nat_eqb_refl : (a : ℕ) → nat_eqb a a ≡ true
nat_eqb_refl a = ground arith

instance abbrev pub nat_key : Key ℕ
nat_key = record { eqb = nat_eqb; eqb→eq = nat_eqb→eq; eqb_refl = nat_eqb_refl }

instance abbrev pub text_key : Key Text
text_key = record { eqb = text_eqb; eqb→eq = text_eqb→eq; eqb_refl = text_eqb_refl }

-- A key differs from another exactly when the test says so.
pub eqb-eq_false {ℓ} : {K : Type ℓ} (key : Key K) (a b : K) → a ≢ b → key.eqb a b ≡ false
eqb-eq_false key a b h = elim (Bool-cases (key.eqb a b)) [
  | inl e ↦ absurd (h (key.eqb→eq a b e))
  | inr e ↦ e
]

pub text_eqb_iff : (s t : Text) → (text_eqb s t ≡ true) ↔ (s ≡ t)
text_eqb_iff s t = (text_eqb→eq s t, λ e. rw e (text_eqb_refl t))
