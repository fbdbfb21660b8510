-- ===== src/Prelude/Text.antt =====
-- Texts: their characters as numbers, and equality.
use Prim.Native.Nat.{ℕ}
use Prim.Native.Char.{code}
use Prim.Native.String.{String}
use mathlib.Core.Bool.{Bool, false, ◌||◌}
use mathlib.Core.List.{List, [], ◌∷◌}
use text.Mathlib.Text.{◌==◌}

abbrev pub codes : String → List ℕ
codes String.[] = []
codes (String.◌∷◌ c s) = code c ∷ codes s

abbrev pub str_eq : String → String → Bool
str_eq s t = s == t

-- `s in texts`
abbrev pub str_elem : String → List String → Bool
str_elem s [] = false
str_elem s (t ∷ ts) = str_eq s t || str_elem s ts
