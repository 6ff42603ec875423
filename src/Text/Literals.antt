-- ===== src/Text/Literals.antt =====
-- Text literals, and the comparison with a prefix.
use Prim.Native.Char.{code}
use Prim.Native.String.{String}
use fau_portalen.Prelude.{Bool, true, false, ◌&&◌, [], ◌∷◌, ◌==◌}
use fau_portalen.Text.Trim.{Text}

-- The code points of a native string.
abbrev pub codes : String → Text
codes String.[] = []
codes (String.◌∷◌ c s) = code c ∷ codes s

-- `text.starts_with(prefix)`
abbrev pub has_prefix : Text → Text → Bool
has_prefix [] text = true
has_prefix (c ∷ prefix) [] = false
has_prefix (c ∷ prefix) (d ∷ text) = c == d && has_prefix prefix text
