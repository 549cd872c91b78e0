-- ===== src/PathUtil/Confined/Runs.antt =====
-- Runs of `relPath`, with a trim of leading spaces and a clean that leaves a clean path alone.
use tailsync.Common.{
  ◌≡◌, refl, Bool, true, ◌||◌, not, Option, none, some, [], ◌++◌, ◌∷◌, Text, text_eqb, nat_eqb,
  if◌then◌else◌, All,
}
use tailsync.PathUtil.{has_prefix, is_reserved_component, state_name}
use tailsync.PathUtil.Clean.{
  slash, dot_dot, split, valid_parts, any_reserved, valid_path, check_cleaned, clean_rel, rel_path,
}
use tailsync.PathUtil.Confined.{Confined, rel_path-Confined}

unfoldable trim_left : Text → Text
trim_left [] = []
trim_left (c ∷ s) = let rest = trim_left s in if nat_eqb c 32 then rest else c ∷ s

abbrev as_given : Text → Text
as_given s = s

abbrev any_utf8 : Text → Bool
any_utf8 s = true

unfoldable local : Text → Bool
unfolding has_prefix
local p = not (has_prefix p slash || (text_eqb p [] || text_eqb p dot_dot))

abbrev accepts : Text → Option Text
accepts = rel_path any_utf8 trim_left as_given local some

abbrev nested : Text
nested = b'a' ∷ b'/' ∷ b'b' ∷ []

-- The space in front is dropped, so the path is not the one that was given.
trims : accepts (32 ∷ nested) ≡ some nested
unfolding rel_path clean_rel check_cleaned valid_path split valid_parts any_reserved has_prefix
    is_reserved_component trim_left local
trims = refl

refuses_parent : accepts (dot_dot ++ slash ++ nested) ≡ none
unfolding rel_path clean_rel check_cleaned valid_path split valid_parts any_reserved has_prefix
    is_reserved_component trim_left local
refuses_parent = refl

refuses_state : accepts (nested ++ slash ++ state_name) ≡ none
unfolding rel_path clean_rel check_cleaned valid_path split valid_parts any_reserved has_prefix
    is_reserved_component trim_left local
refuses_state = refl

rel_path-Confined_example :
    (as_given (trim_left (32 ∷ nested)) ≡ nested)
    × All Confined (split nested)
    × (local nested ≡ true)
    × ((r : Text) × (some nested ≡ some r) × (local r ≡ true))
rel_path-Confined_example =
    rel_path-Confined any_utf8 trim_left as_given local some (32 ∷ nested) nested trims
