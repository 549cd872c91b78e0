-- ===== src/PathUtil/Clean.antt =====
-- `CleanRel` of internal/pathutil/pathutil.go and `relPath` of daemon/path.go, on a system whose separator
-- is the slash, where ToSlash and FromSlash change nothing. TrimSpace, filepath.Clean, filepath.IsLocal,
-- filepath.Join with filepath.Rel, and utf8.ValidString are parameters.
use tailsync.Common.{
  ℕ, Bool, true, false, ◌&&◌, ◌||◌, not, Option, none, some, List, [], ◌∷◌, Text, text_eqb, nat_eqb,
  if◌then◌else◌,
}
use tailsync.PathUtil.{has_prefix, is_reserved_component}

abbrev pub slash : Text
slash = b'/' ∷ []

abbrev pub dot : Text
dot = b'.' ∷ []

abbrev pub dot_dot : Text
dot_dot = b'.' ∷ b'.' ∷ []

abbrev prepend : ℕ → List Text → List Text
prepend c [] = (c ∷ []) ∷ []
prepend c (part ∷ parts) = (c ∷ part) ∷ parts

-- `strings.SplitSeq(s, "/")`
unfoldable pub split : Text → List Text
split [] = [] ∷ []
split (c ∷ s) = let rest = split s in if nat_eqb c b'/' then [] ∷ rest else prepend c rest

-- An element of a path that `fs.ValidPath` accepts.
abbrev pub valid_part : Text → Bool
valid_part part = not (text_eqb part [] || (text_eqb part dot || text_eqb part dot_dot))

unfoldable pub valid_parts : List Text → Bool
valid_parts [] = true
valid_parts (part ∷ parts) = valid_part part && valid_parts parts

-- The loop of `CleanRel` over the components.
unfoldable pub any_reserved : List Text → Bool
any_reserved [] = false
any_reserved (part ∷ parts) = is_reserved_component part || any_reserved parts

module _ (valid_utf8 : Text → Bool) where
  -- `fs.ValidPath`
  unfoldable pub valid_path : Text → Bool
  unfolding split valid_parts
  valid_path p = valid_utf8 p && (text_eqb p dot || valid_parts (split p))

  module _ (trim_space clean : Text → Text) (is_local : Text → Bool) where
    -- What `CleanRel` makes of the cleaned path.
    unfoldable pub check_cleaned : Text → Option Text
    unfolding valid_path split any_reserved
    check_cleaned p =
        if text_eqb p dot || (text_eqb p [] || not (valid_path p))
        then none
        else (if any_reserved (split p) then none else (if not (is_local p) then none else some p))

    unfoldable pub clean_rel : Text → Option Text
    unfolding check_cleaned has_prefix
    clean_rel given =
        let rel : Text = trim_space given in
        if text_eqb rel [] || has_prefix rel slash then none else check_cleaned (clean rel)

    -- `relPath`; `join_rel` is filepath.Rel of the directory and of the path joined to it.
    unfoldable pub rel_path : (Text → Option Text) → Text → Option Text
    unfolding clean_rel
    rel_path join_rel given = elim (clean_rel given) [
      | none ↦ none
      | some p ↦ elim (join_rel p) [
        | none ↦ none
        | some r ↦ if not (is_local r) then none else some p
      ]
    ]
