-- ===== src/PathUtil/Confined.antt =====
-- About `relPath` of daemon/path.go: what the paths that it accepts cannot name.
mod Runs
use mathlib.Core.Path.{subst}
use tailsync.Common.{
  ◌≡◌, ◌≢◌, sym, ap, ◌∙◌, inl, inr, refl, Bool, true, false, ◌&&◌, ◌||◌, not, Option, none, some,
  List, [], ◌∷◌, Text, text_eqb, text_eqb_iff, arith, Bool-cases, Option-cases, if◌then◌else◌, All,
  text_eqb_refl,
}
use tailsync.PathUtil.{has_prefix, is_reserved_component}
use tailsync.PathUtil.Clean.{
  dot, dot_dot, slash, split, valid_part, valid_parts, any_reserved, valid_path, check_cleaned,
  clean_rel, rel_path,
}

-- A component that stays below the directory it is looked up in, outside the daemon's own state.
abbrev pub Confined : Text → Type 0
Confined part = (part ≢ []) × (part ≢ dot) × (part ≢ dot_dot) × (is_reserved_component part ≡ false)

text_eqb_apart : (s t : Text) → text_eqb s t ≡ false → s ≢ t
text_eqb_apart s t h e = grind (arith, text_eqb_refl t, h, e)

valid_part-Confined :
    (part : Text) → valid_part part ≡ true → is_reserved_component part ≡ false → Confined part
valid_part-Confined part valid unreserved = (
  text_eqb_apart part [] (ground (arith, valid)),
  text_eqb_apart part dot (ground (arith, valid)),
  text_eqb_apart part dot_dot (ground (arith, valid)),
  unreserved,
)

parts-Confined :
    (parts : List Text) → valid_parts parts ≡ true → any_reserved parts ≡ false → All Confined parts
unfolding valid_parts any_reserved
parts-Confined [] valid unreserved = tt
parts-Confined (part ∷ parts) valid unreserved = (
  valid_part-Confined part (ground (arith, valid)) (ground (arith, unreserved)),
  parts-Confined parts (ground (arith, valid)) (ground (arith, unreserved)),
)

module _ (valid_utf8 : Text → Bool) (trim_space clean : Text → Text) (is_local : Text → Bool) where
  check_cleaned-Confined :
      (p q : Text)
      → check_cleaned valid_utf8 trim_space clean is_local p ≡ some q
      → (p ≡ q) × All Confined (split p) × (is_local p ≡ true)
  unfolding check_cleaned valid_path
  check_cleaned-Confined p q h = elim (Bool-cases (valid_parts (split p))) [
    | inr bad ↦ absurd (ground (arith, h, bad))
    | inl good ↦ elim (Bool-cases (any_reserved (split p))) [
      | inl bad ↦ absurd (ground (arith, h, bad))
      | inr fine ↦ (ground (arith, h), parts-Confined (split p) good fine, ground (arith, h))
    ]
  ]

  clean_rel-Confined :
      (given q : Text)
      → clean_rel valid_utf8 trim_space clean is_local given ≡ some q
      → (clean (trim_space given) ≡ q) × All Confined (split q) × (is_local q ≡ true)
  unfolding clean_rel
  clean_rel-Confined given q h =
      let (same, parts, local) =
        check_cleaned-Confined (clean (trim_space given)) q (ground (arith, h)) in
      (same, subst (λ p. All Confined (split p)) same parts, rw (sym same) local)

  -- A path that `relPath` accepts is the cleaned form of the given one without the spaces around it. None
  -- of its components is empty, a dot, two dots, or reserved for the daemon's own state, it is local, and
  -- what filepath.Rel finds between the directory and the path joined to it is local too.
  pub rel_path-Confined :
      (join_rel : Text → Option Text) (given q : Text)
      → rel_path valid_utf8 trim_space clean is_local join_rel given ≡ some q
      → (clean (trim_space given) ≡ q)
        × All Confined (split q)
        × (is_local q ≡ true)
        × ((r : Text) × (join_rel q ≡ some r) × (is_local r ≡ true))
  unfolding rel_path
  rel_path-Confined join_rel given q h =
      elim (Option-cases (clean_rel valid_utf8 trim_space clean is_local given)) [
        | inl refused ↦ absurd (ground (arith, h, refused))
        | inr (p, accepted) ↦ elim (Option-cases (join_rel p)) [
          | inl apart ↦ absurd (ground (arith, h, accepted, apart))
          | inr (r, joined) ↦
              let same : p ≡ q = ground (arith, h, accepted, joined) in
              let accepted' : clean_rel valid_utf8 trim_space clean is_local given ≡ some q =
                accepted ∙ ap some same in
              let (cleaned, parts, local) = clean_rel-Confined given q accepted' in
              (
                cleaned,
                parts,
                local,
                (r, ap join_rel (sym same) ∙ joined, ground (arith, h, accepted, joined)),
              )
        ]
      ]
