-- ===== src/Prelude/Text.antt =====
-- Texts that the program walks, as their code points.
use Prim.Native.Char.{code}
use Prim.Native.String.{String}
use f2p.Prelude.Tests.{◌==◌, if◌then◌else◌}
use Prim.Native.Nat.{ℕ}
use mathlib.Core.Bool.{Bool, true, false}
use mathlib.Core.List.{List, [], ◌∷◌, reverse}

-- The code points of a text: its bytes, if it is ASCII.
abbrev pub codes : String → List ℕ
codes String.[] = []
codes (String.◌∷◌ c s) = code c ∷ codes s

-- strings.HasPrefix.
unfoldable pub has_prefix : List ℕ → List ℕ → Bool
has_prefix s [] = true
has_prefix [] (p ∷ ps) = false
has_prefix (c ∷ s) (p ∷ ps) = if c == p then has_prefix s ps else false

-- strings.HasSuffix, by the reversed texts.
unfoldable pub has_suffix : List ℕ → List ℕ → Bool
unfolding has_prefix
has_suffix s suffix = has_prefix (reverse s) (reverse suffix)

-- strings.TrimRight with one character: a character stays if something stays behind it.
unfoldable pub trim_step : ℕ → ℕ → List ℕ → List ℕ
trim_step d c [] = if c == d then [] else c ∷ []
trim_step d c (e ∷ t) = c ∷ (e ∷ t)

unfoldable pub trim_right : ℕ → List ℕ → List ℕ
unfolding trim_step
trim_right d [] = []
trim_right d (c ∷ s) = trim_step d c (trim_right d s)
