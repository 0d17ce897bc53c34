-- ===== src/Prelude/Sublists.antt =====
-- Sublists: what is left of a list, in its order, when some elements go.
use mathlib.Core.Path.{◌≡◌}
use mathlib.Core.List.{List, [], ◌∷◌, ◌++◌, Sublistᴰ}
use mathlib.Core.List.Sublistᴰ
use Prim.Native.Nat.{◌≤◌}
use native.Mathlib.Omega.{arith}
use f2p.Prelude.Lists.{All, length}

module _ {ℓ} {A : Type ℓ} where
  pub sublist_append :
      {xs xs' ys ys' : List A}
      → Sublistᴰ xs xs'
      → Sublistᴰ ys ys'
      → Sublistᴰ (xs ++ ys) (xs' ++ ys')
  sublist_append Sublistᴰ.slnil t = t
  sublist_append (Sublistᴰ.cons s) t = Sublistᴰ.cons (sublist_append s t)
  sublist_append (Sublistᴰ.cons-cons e s) t = Sublistᴰ.cons-cons e (sublist_append s t)

  pub sublist_drop_front : (gone xs : List A) → Sublistᴰ xs (gone ++ xs)
  sublist_drop_front [] xs = Sublistᴰ.refl xs
  sublist_drop_front (x ∷ gone) xs = Sublistᴰ.cons (sublist_drop_front gone xs)

  pub sublist_of_split : (xs gone ys : List A) → xs ≡ gone ++ ys → Sublistᴰ ys xs
  sublist_of_split xs gone ys e = rw e (sublist_drop_front gone ys)

  pub sublist_trans : {xs ys zs : List A} → Sublistᴰ xs ys → Sublistᴰ ys zs → Sublistᴰ xs zs
  sublist_trans = Sublistᴰ.trans

  pub All-sublist {κ} : (P : A → Type κ) {xs ys : List A} → Sublistᴰ xs ys → All P ys → All P xs
  All-sublist P Sublistᴰ.slnil h = h
  All-sublist P (Sublistᴰ.cons s) h = All-sublist P s h.1
  All-sublist P (Sublistᴰ.cons-cons e s) h = (rw e h.0, All-sublist P s h.1)

  pub length-sublist : {xs ys : List A} → Sublistᴰ xs ys → length xs ≤ length ys
  length-sublist Sublistᴰ.slnil = omega arith
  length-sublist (Sublistᴰ.cons s) = omega (arith, length-sublist s)
  length-sublist (Sublistᴰ.cons-cons e s) = omega (arith, length-sublist s)
