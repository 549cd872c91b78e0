-- ===== src/Delta/Expand.antt =====
-- What the operations of a delta stand for over a basis, and when a signature describes a basis.
use mathlib.Core.List.{append-nil, append_assoc}
use tailsync.Common.{
  ℕ, ◌*◌, ◌<◌, ◌≡◌, refl, sym, ap, ◌∙◌, none, some, List, [], ◌∷◌, ◌++◌, text_eqb, text_eqb→eq,
  length, take, drop, get_elem?, Text, arith, All, All-append, Bool-cases, Option-cases, inl, inr,
}
use tailsync.Delta.{BlockChecksum, Signature, Op, literal, copy}
use tailsync.Delta.Encode.{find_strong, flush_lit}
use tailsync.Delta.Sign.{block_at}

-- The `k`-th block of a basis.
abbrev pub chunk : List ℕ → ℕ → ℕ → List ℕ
chunk basis bs k = take bs (drop (k * bs) basis)

pub find_strong_sound :
    (blocks : List BlockChecksum) (sum : Text) (is : List ℕ) (i : ℕ)
    → find_strong blocks sum is ≡ some i
    → (b : BlockChecksum) × (get_elem? blocks i ≡ some b) × (b.strong ≡ sum)
unfolding find_strong
find_strong_sound blocks sum [] i h = absurd (none≢ h)
  where
    none≢ : {i : ℕ} → none ≡ some i → ⊥
    none≢ e = cc
find_strong_sound blocks sum (j ∷ is) i h = elim (Option-cases (get_elem? blocks j)) [
  | inl out ↦ find_strong_sound blocks sum is i (ground (arith, out))
  | inr (b, at) ↦ elim (Bool-cases (text_eqb b.strong sum)) [
    | inl same ↦
        let e : j ≡ i = ground (arith, at, same) in
        (b, ap (get_elem? blocks) (sym e) ∙ at, text_eqb→eq b.strong sum same)
    | inr other ↦ find_strong_sound blocks sum is i (ground (arith, at, other))
  ]
]

-- What the operations stand for.
unfoldable pub expand : List ℕ → ℕ → List Op → List ℕ
expand basis bs [] = []
expand basis bs (literal b ∷ ops) = b ++ expand basis bs ops
expand basis bs (copy i ∷ ops) = chunk basis bs i ++ expand basis bs ops

pub expand-append :
    (basis : List ℕ) (bs : ℕ) (xs ys : List Op)
    → expand basis bs (xs ++ ys) ≡ expand basis bs xs ++ expand basis bs ys
unfolding expand
expand-append basis bs [] ys = refl
expand-append basis bs (literal b ∷ xs) ys =
    ap (◌++◌ b) (expand-append basis bs xs ys)
    ∙ sym (append_assoc b (expand basis bs xs) (expand basis bs ys))
expand-append basis bs (copy i ∷ xs) ys =
    ap (◌++◌ (chunk basis bs i)) (expand-append basis bs xs ys)
    ∙ sym (append_assoc (chunk basis bs i) (expand basis bs xs) (expand basis bs ys))

pub expand-flush_lit :
    (basis : List ℕ) (bs : ℕ) (lit : List ℕ) (ops : List Op)
    → expand basis bs (flush_lit lit ops) ≡ expand basis bs ops ++ lit
unfolding flush_lit
expand-flush_lit basis bs [] ops = sym (append-nil (expand basis bs ops))
expand-flush_lit basis bs (b ∷ lit) ops =
    expand-append basis bs ops (literal (b ∷ lit) ∷ [])
    ∙ ap (◌++◌ (expand basis bs ops)) (unfold expand in append-nil (b ∷ lit))

pub expand-copy : (basis : List ℕ) (bs i : ℕ) → expand basis bs (copy i ∷ []) ≡ chunk basis bs i
unfolding expand
expand-copy basis bs i = append-nil (chunk basis bs i)

-- A copied block lies in the basis.
abbrev pub InBasis : List ℕ → ℕ → Op → Type 0
InBasis basis bs (literal b) = Unit
InBasis basis bs (copy i) = i * bs < length basis

pub flush_lit-InBasis :
    (basis : List ℕ) (bs : ℕ) (lit : List ℕ) (ops : List Op)
    → All (InBasis basis bs) ops
    → All (InBasis basis bs) (flush_lit lit ops)
unfolding flush_lit
flush_lit-InBasis basis bs [] ops h = h
flush_lit-InBasis basis bs (b ∷ lit) ops h =
    All-append (InBasis basis bs) ops (literal (b ∷ lit) ∷ []) h (tt, tt)

-- No block of the basis has the MD5 sum of a different window of `r`.
abbrev pub NoCollision : (List ℕ → Text) → List ℕ → ℕ → List ℕ → Type 0
NoCollision md5 basis bs r =
    (j k : ℕ)
    → md5 (chunk basis bs k) ≡ md5 (take bs (drop j r))
    → chunk basis bs k ≡ take bs (drop j r)

-- A signature that describes the basis, as `SignBytes` makes it.
abbrev pub Describes : (List ℕ → Text) → List ℕ → Signature → Type 0
Describes md5 basis sig = (k : ℕ) → get_elem? sig.blocks k ≡ block_at md5 sig.block_size 0 basis k
