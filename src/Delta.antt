-- ===== src/Delta.antt =====
-- internal/delta/delta.go: block signatures, rolling checksums, and deltas. A byte slice is a list
-- of numbers below 256; an `int` that holds a block number, a size or a length is not negative.
pub mod Checksum
pub mod Sign
pub mod Encode
pub mod Apply
pub mod Expand
pub mod Patch
pub mod RoundTrip
pub mod Size
pub mod Wire
mod Runs
use tailsync.Common.{
  ℕ, zero, suc, ◌+◌, ◌-◌, ◌*◌, ◌/◌, ◌%◌, ◌^◌, ◌<◌, ◌≡◌, Bool, true, false, ◌&&◌, not, Option, none,
  some, List, [], ◌∷◌, ◌++◌, Text, ltb, leb, nat_eqb, if◌then◌else◌, length, take, drop, get_elem?,
  min, text_eqb,
}

abbrev pub default_block_size : ℕ
default_block_size = 4096

-- 16 << 20
abbrev pub max_decode_ops : ℕ
max_decode_ops = 16 * 2 ^ 20

-- 64 << 20
abbrev pub max_output_size : ℕ
max_output_size = 64 * 2 ^ 20

-- An MD5 sum is the list of its bytes.
pub record BlockChecksum : Type 0 where
  pub index : ℕ
  pub weak : ℕ
  pub strong : Text

pub record Signature : Type 0 where
  pub block_size : ℕ
  pub blocks : List BlockChecksum

pub data Op : Type 0 where
  literal : List ℕ → Op
  copy : ℕ → Op

pub record Delta : Type 0 where
  pub block_size : ℕ
  pub ops : List Op
  pub output_size : ℕ

abbrev pub u32 : ℕ → ℕ
u32 n = n % 2 ^ 32

abbrev pub low16 : ℕ → ℕ
low16 n = n % 2 ^ 16

-- `(b << 16) | a` on 32 bits, for an `a` of 16 bits: the two do not overlap.
abbrev pub join16 : ℕ → ℕ → ℕ
join16 b a = u32 (b * 2 ^ 16) + a

-- The loop of `weakChecksum`, its two sums wrapping at 32 bits.
unfoldable pub weak_loop : ℕ → ℕ → List ℕ → ℕ × ℕ
weak_loop a bb [] = (a, bb)
weak_loop a bb (c ∷ cs) = let a' = u32 (a + c) in weak_loop a' (u32 (bb + a')) cs

unfoldable pub weak_checksum : List ℕ → ℕ
weak_checksum b = let (a, bb) = weak_loop 0 0 b in join16 bb (low16 a)

-- `out` leaves on the left and `inb` enters on the right; a difference of 32-bit words is taken
-- with the modulus added first.
unfoldable pub roll : ℕ → ℕ → ℕ → ℕ → ℕ
roll sum out inb n =
    let a = low16 sum in
    let b = sum / 2 ^ 16 in
    let a' = low16 (u32 (u32 (a + 2 ^ 32 - out) + inb)) in
    let b' = low16 (u32 (u32 (b + 2 ^ 32 - u32 (u32 n * out)) + a')) in join16 b' a'
