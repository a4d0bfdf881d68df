-- ===== src/Base/Text.antt =====
-- Go's strings as lists of bytes.
use Prim.Native.Char.{code}
use Prim.Native.String.{String}
use Prim.Native.Nat.{ℕ}
use mathlib.Core.Bool.{Bool, true, false, ◌||◌}
use mathlib.Core.List.{List, [], ◌∷◌}
use th.Base.Tests.{◌==◌}
use th.Base.Lists.{bytes_eq}

abbrev pub Text : Type 0
Text = List ℕ

-- The bytes of a literal that is ASCII. `String` has its own `[]` and `∷`.
abbrev pub codes : String → Text
codes String.[] = []
codes (String.◌∷◌ c s) = code c ∷ codes s

abbrev pub text_eq : Text → Text → Bool
text_eq = bytes_eq

-- `s == ""`
abbrev pub is_empty : Text → Bool
is_empty [] = true
is_empty (c ∷ s) = false

-- `strings.ContainsRune`, for an ASCII character.
abbrev pub contains_byte : ℕ → Text → Bool
contains_byte b [] = false
contains_byte b (c ∷ s) = b == c || contains_byte b s
