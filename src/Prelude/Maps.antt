-- ===== src/Prelude/Maps.antt =====
-- A map as an association list, with Go's insert (replace) and delete, and membership by a test.
use mathlib.Core.Path.{◌≡◌}
use mathlib.Core.Logic.{◌↔◌}
use mathlib.Core.Bool.{Bool, true, false}
use mathlib.Core.Option.{Option, none, some}
use mathlib.Core.List.{List, [], ◌∷◌}
use native.Mathlib.Omega.{arith}
use f2p.Prelude.Tests.{if◌then◌else◌}

module _ {ℓ k} {K : Type ℓ} {V : Type k} (eq : K → K → Bool) where
  unfoldable pub lookup : K → List (K × V) → Option V
  lookup x [] = none
  lookup x ((y, v) ∷ m) = if eq x y then some v else lookup x m

  unfoldable pub delete : K → List (K × V) → List (K × V)
  delete x [] = []
  delete x ((y, v) ∷ m) = let rest = delete x m in if eq x y then rest else (y, v) ∷ rest

  abbrev pub insert : K → V → List (K × V) → List (K × V)
  insert x v m = (x, v) ∷ delete x m

-- A test that decides equality.
abbrev pub IsEquality {ℓ} : {K : Type ℓ} → (K → K → Bool) → Type ℓ
IsEquality eq = (x y : _) → (eq x y ≡ true) ↔ (x ≡ y)

unfoldable pub elem {ℓ} : {K : Type ℓ} → (K → K → Bool) → K → List K → Bool
elem eq x [] = false
elem eq x (y ∷ ys) = if eq x y then true else elem eq x ys

module _ {ℓ k} {K : Type ℓ} {V : Type k} (eq : K → K → Bool) (law : IsEquality eq) where
  pub lookup-delete :
      (x y : K) (m : List (K × V))
      → lookup eq x (delete eq y m) ≡ (if eq x y then none else lookup eq x m)
  unfolding lookup delete
  lookup-delete x y [] = ground arith
  lookup-delete x y ((z, v) ∷ m) = ground (arith, law x y, law y z, law x z, lookup-delete x y m)

  pub lookup-insert :
      (x y : K) (v : V) (m : List (K × V))
      → lookup eq x (insert eq y v m) ≡ (if eq x y then some v else lookup eq x m)
  unfolding lookup
  lookup-insert x y v m = ground (arith, lookup-delete x y m)
