-- ===== src/Holepunch/Ports.antt =====
-- internal/holepunch/punch.go: the random order in which ports are tried, and the port that is
-- predicted for a symmetric NAT. What crypto/rand reads is an argument.
pub mod Shuffled
use f2p.Prelude.{
  ℕ, zero, suc, ◌+◌, ◌-◌, ◌%◌, Bool, List, [], ◌∷◌, Option, none, some, get_elem?, if◌then◌else◌,
}
use f2p.Prelude.Int.{ℤ, pos, ◌+ℤ◌, ◌-ℤ◌}

-- rand.Int gives a number below the bound: any number that is read, modulo the bound.
unfoldable pub random_int : ℕ → ℕ → ℕ → ℕ
random_int min max drawn = drawn % (max - min) + min

-- ports[i] = i + 1, from index i on, for n ports.
abbrev pub ports_from : ℕ → ℕ → List ℕ
ports_from i zero = []
ports_from i (suc n) = (i + 1) ∷ ports_from (i + 1) n

module _ {ℓ} {A : Type ℓ} where
  unfoldable pub set_elem : ℕ → A → List A → List A
  set_elem i a [] = []
  set_elem zero a (x ∷ xs) = a ∷ xs
  set_elem (suc i) a (x ∷ xs) = x ∷ set_elem i a xs

  -- The two assignments of a swap; an index out of range is an error of the program.
  unfoldable pub swap : ℕ → ℕ → List A → List A
  unfolding set_elem
  swap i j l = elim (get_elem? l i) [
    | none ↦ l
    | some a ↦ elim (get_elem? l j) [ none ↦ l | some b ↦ set_elem j a (set_elem i b l) ]
  ]

-- The loop of the Fisher-Yates shuffle from index i down to 1; `draws i` is what is read at index i.
unfoldable pub shuffle : (ℕ → ℕ) → ℕ → List ℕ → List ℕ
unfolding swap random_int
shuffle draws zero ports = ports
shuffle draws (suc i) ports =
    shuffle draws i (swap (suc i) (random_int 0 (suc i + 1) (draws (suc i))) ports)

unfoldable pub shuffled_ports : ℕ → (ℕ → ℕ) → List ℕ
unfolding shuffle
shuffled_ports n draws = shuffle draws (n - 1) (ports_from 0 n)

abbrev pub max_port_number : ℕ
max_port_number = 65535

unfoldable pub generate_shuffled_ports : (ℕ → ℕ) → List ℕ
unfolding shuffled_ports
generate_shuffled_ports draws = shuffled_ports max_port_number draws

abbrev pub easy_sym_port_offset : ℕ
easy_sym_port_offset = 20

-- punchBothEasySym's guess of the next port of the peer's NAT: an int, which nothing bounds.
unfoldable pub predicted_peer_port : Bool → ℤ → ℤ
predicted_peer_port peer_incremental port =
    if peer_incremental then port +ℤ pos easy_sym_port_offset else port -ℤ pos easy_sym_port_offset
