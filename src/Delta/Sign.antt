-- ===== src/Delta/Sign.antt =====
-- `Sign` of internal/delta/delta.go over a buffer, as `SignBytes` calls it: such a reader never
-- fails, and `io.ReadFull` ends short exactly at the end of the data. MD5 is a parameter.
use tailsync.Common.{
  ℕ, zero, suc, ◌+◌, ◌-◌, ◌*◌, ◌<◌, ◌≤◌, ◌≡◌, refl, Option, none, some, List, [], ◌∷◌, ltb, nat_eqb,
  if◌then◌else◌, length, take, drop, get_elem?, arith, Text, inl, inr, Bool-cases, length-drop,
  length-take, drop-drop, ◌∙◌,
}
use tailsync.Delta.{BlockChecksum, Signature, default_block_size, weak_checksum}

module _ (md5 : List ℕ → Text) where
  abbrev pub checksum_of : ℕ → List ℕ → BlockChecksum
  checksum_of i block = record { index = i; weak = weak_checksum block; strong = md5 block }

  -- The read loop. `none`: the fuel ran out.
  unfoldable pub sign_loop : ℕ → ℕ → ℕ → List ℕ → Option (List BlockChecksum)
  sign_loop zero bs i r = none
  sign_loop (suc fuel) bs i r =
      let block : List ℕ = take bs r in
      let more : Option (List BlockChecksum) = sign_loop fuel bs (suc i) (drop bs r) in
      if nat_eqb (length block) 0
      then some []
      else (if ltb (length block) bs
          then some (checksum_of i block ∷ [])
          else (elim more [ none ↦ none | some blocks ↦ some (checksum_of i block ∷ blocks) ]))

  unfoldable pub sign_bytes : List ℕ → ℕ → Option Signature
  unfolding sign_loop
  sign_bytes r block_size =
      let bs : ℕ = if nat_eqb block_size 0 then default_block_size else block_size in
      elim (sign_loop (suc (length r)) bs 0 r) [
        | none ↦ none
        | some blocks ↦ some (record { block_size = bs; blocks = blocks })
      ]

  -- The `k`-th block of a buffer, if there is one.
  abbrev pub block_at : ℕ → ℕ → List ℕ → ℕ → Option BlockChecksum
  block_at bs i r k =
      if ltb (k * bs) (length r)
      then some (checksum_of (i + k) (take bs (drop (k * bs) r)))
      else none

  first_block :
      (bs i : ℕ) (r : List ℕ) → 0 < length r → some (checksum_of i (take bs r)) ≡ block_at bs i r 0
  first_block bs i r h =
      let z : 0 * bs ≡ 0 = omega arith in
      let n : i + 0 ≡ i = omega arith in rw (z, n) (ground arith)

  next_block :
      (bs i : ℕ) (r : List ℕ) (k : ℕ)
      → bs ≤ length r
      → block_at bs (suc i) (drop bs r) k ≡ block_at bs i r (suc k)
  next_block bs i r k h =
      let n : suc i + k ≡ i + suc k = omega arith in
      let m : bs + k * bs ≡ suc k * bs = omega arith in
      let l : length (drop bs r) ≡ length r - bs = length-drop bs r in
      rw (n, drop-drop (k * bs) bs r, m, l) (ground arith)

  past_end : (bs i : ℕ) (r : List ℕ) (k : ℕ) → length r ≤ k * bs → none ≡ block_at bs i r k
  past_end bs i r k h = ground arith

  short_block :
      (bs i : ℕ) (r : List ℕ) (k : ℕ)
      → 0 < length r
      → length r < bs
      → get_elem? (checksum_of i (take bs r) ∷ []) k ≡ block_at bs i r k
  short_block bs i r zero h s = first_block bs i r h
  short_block bs i r (suc k) h s = past_end bs i r (suc k) (grind arith)

  full_block :
      (bs i : ℕ) (r : List ℕ) (blocks : List BlockChecksum) (k : ℕ)
      → 0 < bs
      → bs ≤ length r
      → ((j : ℕ) → get_elem? blocks j ≡ block_at bs (suc i) (drop bs r) j)
      → get_elem? (checksum_of i (take bs r) ∷ blocks) k ≡ block_at bs i r k
  full_block bs i r blocks zero pos h rest = first_block bs i r (omega arith)
  full_block bs i r blocks (suc k) pos h rest = rest k ∙ next_block bs i r k h

  sign_loop_blocks :
      (fuel bs i : ℕ) (r : List ℕ)
      → 0 < bs
      → length r < fuel
      → (blocks : List BlockChecksum) × (sign_loop fuel bs i r ≡ some blocks)
        × ((k : ℕ) → get_elem? blocks k ≡ block_at bs i r k)
  unfolding sign_loop
  sign_loop_blocks zero bs i r pos enough = absurd (omega arith)
  sign_loop_blocks (suc fuel) bs i r pos enough =
      elim (Bool-cases (nat_eqb (length (take bs r)) 0)) [
        | inl done ↦ ([], rw done, λ k. past_end bs i r k (ground (arith, done, length-take bs r)))
        | inr more ↦ elim (Bool-cases (ltb (length (take bs r)) bs)) [
          | inl last ↦ (
            checksum_of i (take bs r) ∷ [],
            rw (more, last),
            λ k.
                short_block bs i r k (ground (arith, length-take bs r))
                  (ground (arith, length-take bs r)),
          )
          | inr full ↦
              let (blocks, e, at) =
                sign_loop_blocks fuel bs (suc i) (drop bs r) pos
                  (ground (arith, length-drop bs r, length-take bs r)) in
              (
                checksum_of i (take bs r) ∷ blocks,
                rw (more, full, e),
                λ k. full_block bs i r blocks k pos (ground (arith, length-take bs r)) at,
              )
        ]
      ]

  -- `SignBytes` ends on every buffer. The signature has the block size asked for, or the default for
  -- 0, and its `k`-th block is numbered `k` and carries both checksums of the bytes from `k` times the
  -- block size on, up to one block: for exactly the `k` at which such bytes exist.
  pub sign_bytes_blocks :
      (r : List ℕ) (block_size : ℕ)
      → (sig : Signature) × (sign_bytes r block_size ≡ some sig)
        × (sig.block_size ≡ (if nat_eqb block_size 0 then default_block_size else block_size))
        × ((k : ℕ)
            → get_elem? sig.blocks k ≡ (
                if ltb (k * sig.block_size) (length r)
                then some (record {
                  index = k;
                  weak = weak_checksum (take sig.block_size (drop (k * sig.block_size) r));
                  strong = md5 (take sig.block_size (drop (k * sig.block_size) r));
                })
                else none))
  unfolding sign_bytes
  sign_bytes_blocks r block_size =
      let bs : ℕ = if nat_eqb block_size 0 then default_block_size else block_size in
      let (blocks, e, at) = sign_loop_blocks (suc (length r)) bs 0 r (ground arith) (omega arith) in
      (
        record { block_size = bs; blocks = blocks },
        rw (e, sign_bytes),
        refl,
        λ k. let z : 0 + k ≡ k = omega arith in rw z at (at k),
      )
