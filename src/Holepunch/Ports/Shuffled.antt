-- ===== src/Holepunch/Ports/Shuffled.antt =====
-- The shuffle only reorders: every port from 1 to 65535 is tried, and none twice before that.
use f2p.Prelude.{
  ◌≤◌, ◌<◌, ℕ, zero, suc, ◌+◌, ◌-◌, ◌≡◌, refl, ◌∙◌, inl, inr, List, [], ◌∷◌, some, arith,
  if◌then◌else◌, leb, ◌==◌, length, get_elem?, ◌&&◌, Option-cases,
}
use f2p.Holepunch.Ports.{
  ports_from, set_elem, swap, shuffle, shuffled_ports, generate_shuffled_ports, random_int,
}

-- How often a number stands in a list.
abbrev pub count : ℕ → List ℕ → ℕ
count a [] = 0
count a (x ∷ xs) = (if x == a then 1 else 0) + count a xs

length-set_elem : (i a : ℕ) (l : List ℕ) → length (set_elem i a l) ≡ length l
unfolding set_elem
length-set_elem i a [] = refl
length-set_elem zero a (x ∷ l) = refl
length-set_elem (suc i) a (x ∷ l) = omega (arith, length-set_elem i a l)

-- An assignment takes the old element out and puts the new one in.
count-set_elem :
    (p i a b : ℕ) (l : List ℕ)
    → get_elem? l i ≡ some a
    → count p (set_elem i b l) + (if a == p then 1 else 0) ≡ count p l + (if b == p then 1 else 0)
unfolding set_elem
count-set_elem p i a b [] h = absurd (ground arith)
count-set_elem p zero a b (x ∷ l) h = ground (arith)
count-set_elem p (suc i) a b (x ∷ l) h = ground (arith, count-set_elem p i a b l h)

get_elem?-set_elem :
    (i j a b : ℕ) (l : List ℕ)
    → get_elem? l j ≡ some b
    → get_elem? (set_elem i a l) j ≡ (if i == j then some a else some b)
unfolding set_elem
get_elem?-set_elem i j a b [] h = absurd (ground arith)
get_elem?-set_elem zero zero a b (x ∷ l) h = refl
get_elem?-set_elem zero (suc j) a b (x ∷ l) h = ground arith
get_elem?-set_elem (suc i) zero a b (x ∷ l) h = ground arith
get_elem?-set_elem (suc i) (suc j) a b (x ∷ l) h = ground (arith, get_elem?-set_elem i j a b l h)

swapped_counts :
    (p i j a b : ℕ) (l : List ℕ)
    → get_elem? l i ≡ some a
    → get_elem? l j ≡ some b
    → count p (set_elem j a (set_elem i b l)) ≡ count p l
swapped_counts p i j a b l hi hj = ground (
  arith,
  get_elem?-set_elem i j b b l hj,
  count-set_elem p i a b l hi,
  count-set_elem p j b a (set_elem i b l),
)

count-swap : (p i j : ℕ) (l : List ℕ) → count p (swap i j l) ≡ count p l
unfolding swap
count-swap p i j l = elim (Option-cases (get_elem? l i)) [
  | inl n ↦ ground arith
  | inr (a, ha) ↦ elim (Option-cases (get_elem? l j)) [
    | inl n ↦ ground arith
    | inr (b, hb) ↦ ground (arith, swapped_counts p i j a b l ha hb)
  ]
]

count-shuffle :
    (p : ℕ) (draws : ℕ → ℕ) (i : ℕ) (l : List ℕ) → count p (shuffle draws i l) ≡ count p l
unfolding shuffle
count-shuffle p draws zero l = refl
count-shuffle p draws (suc i) l =
    count-shuffle p draws i (swap (suc i) (random_int 0 (suc i + 1) (draws (suc i))) l)
    ∙ count-swap p (suc i) (random_int 0 (suc i + 1) (draws (suc i))) l

count-ports_from :
    (p i n : ℕ) → count p (ports_from i n) ≡ (if leb (suc i) p && leb p (i + n) then 1 else 0)
count-ports_from p i zero = ground arith
count-ports_from p i (suc n) = ground (arith, count-ports_from p (i + 1) n)

count-shuffled_ports :
    (n : ℕ) (draws : ℕ → ℕ) (p : ℕ)
    → count p (shuffled_ports n draws) ≡ (if leb 1 p && leb p n then 1 else 0)
unfolding shuffled_ports
count-shuffled_ports n draws p =
    ground (arith, count-shuffle p draws (n - 1) (ports_from 0 n), count-ports_from p 0 n)

-- Whatever is drawn, every number from 1 to 65535 stands exactly once in the shuffled list of ports,
-- and no other number stands in it.
pub count-generate_shuffled_ports :
    (draws : ℕ → ℕ) (p : ℕ)
    → count p (generate_shuffled_ports draws) ≡ (if leb 1 p && leb p 65535 then 1 else 0)
unfolding generate_shuffled_ports
count-generate_shuffled_ports draws p = count-shuffled_ports 65535 draws p

length-swap : (i j : ℕ) (l : List ℕ) → length (swap i j l) ≡ length l
unfolding swap
length-swap i j l = elim (Option-cases (get_elem? l i)) [
  | inl n ↦ ground arith
  | inr (a, ha) ↦ elim (Option-cases (get_elem? l j)) [
    | inl n ↦ ground arith
    | inr (b, hb) ↦ ground (arith, length-set_elem j a (set_elem i b l), length-set_elem i b l)
  ]
]

length-shuffle : (draws : ℕ → ℕ) (i : ℕ) (l : List ℕ) → length (shuffle draws i l) ≡ length l
unfolding shuffle
length-shuffle draws zero l = refl
length-shuffle draws (suc i) l =
    length-shuffle draws i (swap (suc i) (random_int 0 (suc i + 1) (draws (suc i))) l)
    ∙ length-swap (suc i) (random_int 0 (suc i + 1) (draws (suc i))) l

length-ports_from : (i n : ℕ) → length (ports_from i n) ≡ n
length-ports_from i zero = refl
length-ports_from i (suc n) = omega (arith, length-ports_from (i + 1) n)

length-shuffled_ports : (n : ℕ) (draws : ℕ → ℕ) → length (shuffled_ports n draws) ≡ n
unfolding shuffled_ports
length-shuffled_ports n draws =
    length-shuffle draws (n - 1) (ports_from 0 n) ∙ length-ports_from 0 n

pub length-generate_shuffled_ports :
    (draws : ℕ → ℕ) → length (generate_shuffled_ports draws) ≡ 65535
unfolding generate_shuffled_ports
length-generate_shuffled_ports draws = length-shuffled_ports 65535 draws

counted : (i p : ℕ) (l : List ℕ) → get_elem? l i ≡ some p → 1 ≤ count p l
counted i p [] h = absurd (ground arith)
counted zero p (x ∷ l) h = ground arith
counted (suc i) p (x ∷ l) h = ground (arith, counted i p l h)

-- Every index of the shuffled list holds a port.
pub port_in_range :
    (draws : ℕ → ℕ) (i p : ℕ)
    → get_elem? (generate_shuffled_ports draws) i ≡ some p
    → (1 ≤ p) × (p ≤ 65535)
port_in_range draws i p h =
    ground
      (arith, counted i p (generate_shuffled_ports draws) h, count-generate_shuffled_ports draws p)

pub some_elem : (i : ℕ) (l : List ℕ) → i < length l → (p : ℕ) × (get_elem? l i ≡ some p)
some_elem i [] h = absurd (omega arith)
some_elem zero (x ∷ l) h = (x, refl)
some_elem (suc i) (x ∷ l) h = some_elem i l (omega arith)
