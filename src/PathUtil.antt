-- ===== src/PathUtil.antt =====
-- internal/pathutil/pathutil.go: the names that are reserved for the daemon's own state.
pub mod Clean
pub mod Confined
use tailsync.Common.{Bool, true, false, ◌&&◌, ◌||◌, [], ◌∷◌, Text, text_eqb, nat_eqb}

-- `strings.HasPrefix(s, prefix)`
unfoldable pub has_prefix : Text → Text → Bool
has_prefix s [] = true
has_prefix [] (p ∷ ps) = false
has_prefix (c ∷ s) (p ∷ ps) = nat_eqb c p && has_prefix s ps

-- ".tailsync" and ".tailsync-"
abbrev pub state_name : Text
state_name = b'.' ∷ b't' ∷ b'a' ∷ b'i' ∷ b'l' ∷ b's' ∷ b'y' ∷ b'n' ∷ b'c' ∷ []

abbrev pub state_prefix : Text
state_prefix = b'.' ∷ b't' ∷ b'a' ∷ b'i' ∷ b'l' ∷ b's' ∷ b'y' ∷ b'n' ∷ b'c' ∷ b'-' ∷ []

unfoldable pub is_reserved_component : Text → Bool
unfolding has_prefix
is_reserved_component name = text_eqb name state_name || has_prefix name state_prefix
