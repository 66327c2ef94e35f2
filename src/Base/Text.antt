-- ===== src/Base/Text.antt =====
-- Texts: equality of whole texts, and the code points for the operations that look inside one.
-- The literals that the program searches for hold none of the letters whose case folding leaves
-- or enters ASCII, so lower-casing is that of ASCII.
use Prim.Native.Nat.{ℕ, ◌+◌}
use Prim.Native.Char.{code}
use Prim.Native.String.{String}
use text.Mathlib.Text
use text.Mathlib.TextEquality
use mathlib.Core.Path.{◌≡◌}
use mathlib.Core.Logic.{◌↔◌}
use mathlib.Core.Bool.{Bool, true, false, ◌&&◌, ◌||◌}
use mathlib.Core.List.{List, [], ◌∷◌, map}
use existential_identity_tes.Base.Tests.{leb, ◌==◌, if◌then◌else◌}

abbrev pub str_eq : String → String → Bool
str_eq = Text.◌==◌

pub str_eq_iff : (s t : String) → (str_eq s t ≡ true) ↔ (s ≡ t)
str_eq_iff s t = TextEquality.eq_iff s t

abbrev pub codes : String → List ℕ
codes String.[] = []
codes (String.◌∷◌ c s) = code c ∷ codes s

unfoldable pub to_lower : ℕ → ℕ
to_lower c = if leb b'A' c && leb c b'Z' then c + 32 else c

-- `text.startswith(prefix)`, over code points.
unfoldable pub starts_with : List ℕ → List ℕ → Bool
starts_with text [] = true
starts_with [] (c ∷ cs) = false
starts_with (d ∷ ds) (c ∷ cs) = d == c && starts_with ds cs

-- `needle in text`, over code points.
unfoldable pub contains : List ℕ → List ℕ → Bool
unfolding starts_with
contains needle [] = starts_with [] needle
contains needle (c ∷ cs) = starts_with (c ∷ cs) needle || contains needle cs

-- `needle in text.lower()`
unfoldable pub lower_contains : String → String → Bool
unfolding to_lower contains
lower_contains needle text = contains (codes needle) (map to_lower (codes text))

-- `text in items`, for a set or a list of texts.
unfoldable pub elem : String → List String → Bool
elem s [] = false
elem s (t ∷ ts) = str_eq t s || elem s ts
