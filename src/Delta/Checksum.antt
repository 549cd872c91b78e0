-- ===== src/Delta/Checksum.antt =====
-- The rolling checksum: sliding the window by one byte gives the checksum of the new window.
use tailsync.Common.{
  ℕ, suc, ◌+◌, ◌*◌, ◌^◌, ◌<◌, ◌≡◌, ap, length-append, List, [], ◌∷◌, ◌++◌, length, arith,
}
use native.Mathlib.Nat.{div-add-mod}
use tailsync.Delta.{weak_loop, weak_checksum, roll, u32, low16}

-- The two sums with no bound.
sum1 : List ℕ → ℕ
sum1 [] = 0
sum1 (c ∷ cs) = c + sum1 cs

sum2 : List ℕ → ℕ
sum2 [] = 0
sum2 (c ∷ cs) = suc (length cs) * c + sum2 cs

abbrev pub IsByte : ℕ → Type 0
IsByte c = c < 256

loop-sum1 : (a bb : ℕ) (cs : List ℕ) → u32 (weak_loop a bb cs).0 ≡ u32 (a + sum1 cs)
unfolding weak_loop sum1
loop-sum1 a bb [] = omega arith
loop-sum1 a bb (c ∷ cs) = omega (arith, loop-sum1 (u32 (a + c)) (u32 (bb + u32 (a + c))) cs)

loop-sum2 :
    (a bb : ℕ) (cs : List ℕ) → u32 (weak_loop a bb cs).1 ≡ u32 (bb + length cs * a + sum2 cs)
unfolding weak_loop sum2
loop-sum2 a bb [] = omega arith
loop-sum2 a bb (c ∷ cs) = omega (
  arith,
  loop-sum2 (u32 (a + c)) (u32 (bb + u32 (a + c))) cs,
  ap (λ (t : ℕ). length cs * t) (div-add-mod (a + c) (2 ^ 32)),
)

weak-sums : (b : List ℕ) → weak_checksum b ≡ low16 (sum2 b) * 2 ^ 16 + low16 (sum1 b)
unfolding weak_checksum
weak-sums b = omega (arith, loop-sum1 0 0 b, loop-sum2 0 0 b)

sum1-snoc : (cs : List ℕ) (c : ℕ) → sum1 (cs ++ (c ∷ [])) ≡ sum1 cs + c
unfolding sum1
sum1-snoc [] c = omega arith
sum1-snoc (d ∷ cs) c = omega (arith, sum1-snoc cs c)

sum2-snoc : (cs : List ℕ) (c : ℕ) → sum2 (cs ++ (c ∷ [])) ≡ sum2 cs + sum1 cs + c
unfolding sum1 sum2
sum2-snoc [] c = omega arith
sum2-snoc (d ∷ cs) c =
    omega (arith, sum2-snoc cs c, ap (λ (t : ℕ). suc t * d) (length-append cs (c ∷ [])))

mul_wrap : (n out : ℕ) → u32 (u32 n * out) ≡ u32 (n * out)
mul_wrap n out = omega (arith, ap (λ (t : ℕ). t * out) (div-add-mod n (2 ^ 32)))

-- `roll` keeps the checksum: where a byte leaves the window on the left and one enters on the right,
-- rolling the old window's checksum gives what `weakChecksum` computes for the new window.
pub roll-weak_checksum :
    (out inb : ℕ) (w : List ℕ)
    → IsByte out
    → roll (weak_checksum (out ∷ w)) out inb (length (out ∷ w)) ≡ weak_checksum (w ++ (inb ∷ []))
unfolding roll sum1 sum2
roll-weak_checksum out inb w small = omega (
  arith,
  weak-sums (out ∷ w),
  weak-sums (w ++ (inb ∷ [])),
  sum1-snoc w inb,
  sum2-snoc w inb,
  mul_wrap (suc (length w)) out,
)
