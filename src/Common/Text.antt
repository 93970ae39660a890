-- ===== src/Common/Text.antt =====
-- Literals, and Go's order of strings.
use Prim.Native.Char.{code}
use Prim.Native.String.{String}
use mathlib.Core.Bool.{Bool, true, false}
use mathlib.Core.List.{[], ◌∷◌}
use steve.Common.Tests.{ltb, eqb, if◌then◌else◌}
use steve.Common.Classes.{Str}

-- The bytes of an ASCII literal.
abbrev pub codes : String → Str
codes String.[] = []
codes (String.◌∷◌ c s) = code c ∷ codes s

-- `s < t` on strings: by bytes.
unfoldable pub str_ltb : Str → Str → Bool
str_ltb s [] = false
str_ltb [] (b ∷ t) = true
str_ltb (a ∷ s) (b ∷ t) = if ltb a b then true else (if eqb a b then str_ltb s t else false)
