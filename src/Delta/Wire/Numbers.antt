-- ===== src/Delta/Wire/Numbers.antt =====
-- Numbers on the wire.
use tailsync.Common.{
  ℕ, zero, suc, ◌+◌, ◌*◌, ◌/◌, ◌%◌, ◌^◌, ◌<◌, ◌≡◌, refl, ap, List, ◌++◌, length, arith,
  length-append, take-append, drop-append,
}
use native.Mathlib.Nat.{pow-suc}
use tailsync.Delta.Wire.{ok, put_le, get_le, read_full}

pub length-put_le : (n v : ℕ) → length (put_le n v) ≡ n
unfolding put_le
length-put_le zero v = refl
length-put_le (suc n) v = ap suc (length-put_le n (v / 256))

-- A number that fits is read back, whatever follows it.
pub get_le-put_le : (n v : ℕ) (r : List ℕ) → v < 256 ^ n → get_le n (put_le n v ++ r) ≡ ok (v, r)
unfolding put_le get_le
get_le-put_le zero v r h = ground arith
get_le-put_le (suc n) v r h =
    let e : v % 256 + 256 * (v / 256) ≡ v = omega arith in
    rw (get_le-put_le n (v / 256) r (omega (arith, pow-suc 256 n)), e)

pub read_full-append : (a r : List ℕ) → read_full (length a) (a ++ r) ≡ ok (a, r)
unfolding read_full
read_full-append a r = ground (arith, length-append a r, take-append a r, drop-append a r)
