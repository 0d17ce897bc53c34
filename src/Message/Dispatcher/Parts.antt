-- ===== src/Message/Dispatcher/Parts.antt =====
-- What the loops over one queue of the dispatcher do.
use f2p.Prelude.{
  ℕ, suc, ◌≤◌, ◌≡◌, refl, ap, true, false, List, [], ◌∷◌, ◌++◌, Option, none, some, length, arith,
  leb, All, Bool-cases, inl, inr,
}
use f2p.Message.Dispatcher.{Entry, prune, evict, scan_queue, is_expired}

-- The prune cuts expired entries off the front.
pub prune_splits :
    (now : ℕ) (q : List Entry)
    → (gone : List Entry) × (q ≡ gone ++ (prune now q).0)
      × (length gone ≡ (prune now q).1)
      × All (λ e. is_expired now e ≡ true) gone
unfolding prune
prune_splits now [] = ([], refl, refl, tt)
prune_splits now (e ∷ q) = elim (Bool-cases (is_expired now e)) [
  | inl x ↦
      let (gone, split, size, all) = prune_splits now q in
      rw x (e ∷ gone, ap (λ l. e ∷ l) split, ap suc size, (x, all))
  | inr x ↦ rw x ([], refl, refl, tt)
]

-- Eviction takes one entry off a full queue, and none off another.
pub evict_splits :
    (q : List Entry)
    → (gone : List Entry) × (q ≡ gone ++ (evict q).0)
      × (length gone ≡ (evict q).1)
      × (length q ≤ 10 → length (evict q).0 ≤ 9)
unfolding evict
evict_splits [] = ([], refl, refl, omega arith)
evict_splits (e ∷ q) = elim (Bool-cases (leb 10 (length (e ∷ q)))) [
  | inl x ↦ rw x (e ∷ [], refl, refl, λ h. omega (arith, h))
  | inr x ↦ rw x ([], refl, refl, λ h. ground arith)
]

abbrev pub found_list : Option Entry → List Entry
found_list none = []
found_list (some e) = e ∷ []

abbrev pub IsLive : ℕ → Option Entry → Type 0
IsLive now none = Unit
IsLive now (some e) = is_expired now e ≡ false

-- A scan passes over expired entries only, and stops at the first live one; if it finds none, nothing
-- stays queued.
pub scan_queue_splits :
    (now : ℕ) (q : List Entry)
    → (gone : List Entry) × (q ≡ gone ++ (found_list (scan_queue now q).0 ++ (scan_queue now q).1))
      × (length gone ≡ (scan_queue now q).2)
      × All (λ e. is_expired now e ≡ true) gone
      × IsLive now (scan_queue now q).0
      × ((scan_queue now q).0 ≡ none → (scan_queue now q).1 ≡ [])
unfolding scan_queue
scan_queue_splits now [] = ([], refl, refl, tt, tt, λ h. refl)
scan_queue_splits now (e ∷ q) = elim (Bool-cases (is_expired now e)) [
  | inl x ↦
      let (gone, split, size, all, live, empty) = scan_queue_splits now q in
      rw x (e ∷ gone, ap (λ l. e ∷ l) split, ap suc size, (x, all), live, empty)
  | inr x ↦ rw x ([], refl, refl, tt, x, λ h. cc)
]
