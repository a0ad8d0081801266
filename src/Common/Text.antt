-- ===== src/Common/Text.antt =====
-- ASCII case folding of texts, as `strings.ToLower` and `strings.EqualFold` do on ASCII.
use Prim.Native.Nat.{ℕ, ◌+◌}
use Prim.Native.Char.{code}
use Prim.Native.String.{String, len, find}
use mathlib.Core.Bool.{Bool, true, false, ◌&&◌}
use mathlib.Core.List.{List, [], ◌∷◌, map}
use one_dev_army.Common.Tests.{leb, ◌==◌, if◌then◌else◌}

-- The code points of a text.
unfoldable pub codes : String → List ℕ
codes String.[] = []
codes (String.◌∷◌ c s) = code c ∷ codes s

unfoldable pub lower : ℕ → ℕ
lower c = if leb b'A' c && leb c b'Z' then c + 32 else c

unfoldable pub codes_eq : List ℕ → List ℕ → Bool
codes_eq [] [] = true
codes_eq (c ∷ cs) (d ∷ ds) = c == d && codes_eq cs ds
codes_eq _ _ = false

-- Equality of two texts up to the case of ASCII letters.
unfoldable pub equal_fold : String → String → Bool
unfolding codes lower codes_eq
equal_fold s t = codes_eq (map lower (codes s)) (map lower (codes t))

-- `strings.ToLower(s) == t`
unfoldable pub lower_is : String → String → Bool
unfolding codes lower codes_eq
lower_is s t = codes_eq (map lower (codes s)) (codes t)

-- `strings.Contains(s, t)`: a search that fails gives a position behind the end.
unfoldable pub contains : String → String → Bool
contains s t = leb (find s t) (len s)
