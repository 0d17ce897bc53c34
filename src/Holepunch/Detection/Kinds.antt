-- ===== src/Holepunch/Detection/Kinds.antt =====
-- What each kind of NAT that DetectNAT reports means for the answers.
use f2p.Prelude.{
  ℕ, ◌+◌, ◌-◌, ◌≤◌, ◌<◌, ◌≡◌, refl, ◌⊎◌, inl, inr, Bool, true, false, ◌&&◌, List, [], ◌∷◌, Option,
  none, some, arith, if◌then◌else◌, String, str_eq, eq_iff, length, ltb, ◌==◌, ==_iff, map, All,
  Bool-cases,
}
use f2p.Prelude.Int.{pos, sub_ℕ, ltb_ℤ}
use f2p.Holepunch.{NatInfo, unknown, cone, symmetric_easy_inc, symmetric_easy_dec, symmetric_hard}
use f2p.Holepunch.Detection.{
  Mapped, unique_strings, all_same_port, max_port, min_port, compare_extra, classify,
}

-- All the answers name one IP.
abbrev pub OneIp : Mapped → List Mapped → Type 0
OneIp r rest = All (λ m. m.ip ≡ r.ip) rest

abbrev pub OnePort : Mapped → List Mapped → Type 0
OnePort r rest = All (λ m. m.port ≡ r.port) rest

-- The answers behind each verdict.
pub data Explained (r : Mapped) (rest : List Mapped) (extra : Option Mapped)
    : NatInfo → Type 0 where
  is_cone :
      OnePort r rest
      → Explained r rest extra (record { type = cone; public_ip = r.ip; public_port = r.port })
  is_increasing :
      (e : Mapped)
      → extra ≡ some e
      → ¬ OnePort r rest
      → OneIp r rest
      → All (λ m. (m.port < e.port) × (e.port < m.port + 200)) (r ∷ rest)
      → Explained r rest extra
          (record { type = symmetric_easy_inc; public_ip = r.ip; public_port = e.port })
  is_decreasing :
      (e : Mapped)
      → extra ≡ some e
      → ¬ OnePort r rest
      → OneIp r rest
      → All (λ m. (e.port < m.port) × (m.port < e.port + 200)) (r ∷ rest)
      → Explained r rest extra
          (record { type = symmetric_easy_dec; public_ip = r.ip; public_port = e.port })
  is_hard :
      ¬ OnePort r rest
      → Explained r rest extra
          (record { type = symmetric_hard; public_ip = r.ip; public_port = r.port })

all_same_port-OnePort :
    (base : ℕ) (ms : List Mapped)
    → ((all_same_port base ms ≡ true) × All (λ m. m.port ≡ base) ms)
      ⊎ ((all_same_port base ms ≡ false) × ¬ All (λ m. m.port ≡ base) ms)
unfolding all_same_port
all_same_port-OnePort base [] = inl (refl, tt)
all_same_port-OnePort base (m ∷ ms) = elim (Bool-cases (m.port == base)) [
  | inr e ↦ inr (rw e refl, λ h. cc (e, (==_iff m.port base).1 h.0))
  | inl e ↦ elim (all_same_port-OnePort base ms) [
    | inl (f, all) ↦ inl (rw e f, ((==_iff m.port base).0 e, all))
    | inr (f, bad) ↦ inr (rw e f, λ h. bad h.1)
  ]
]

-- With one text seen, the others add nothing only if they are the same.
unique_seen :
    (s : String) (ms : List Mapped)
    → length (unique_strings (s ∷ []) (map (λ m. m.ip) ms)) ≤ 0
    → All (λ m. m.ip ≡ s) ms
unfolding unique_strings
unique_seen s [] h = tt
unique_seen s (m ∷ ms) h = elim (Bool-cases (str_eq m.ip s)) [
  | inl e ↦ ((eq_iff m.ip s).0 e, unique_seen s ms (rw e at h))
  | inr e ↦ absurd (ground (arith, e, h))
]

max_port-IsMax :
    (ms : List Mapped) (p : ℕ) → (p ≤ max_port p ms) × All (λ m. m.port ≤ max_port p ms) ms
unfolding max_port
max_port-IsMax [] p = (omega arith, tt)
max_port-IsMax (m ∷ ms) p =
    let (low, all) = max_port-IsMax ms (if ltb p m.port then m.port else p) in
    (ground (arith, low), (ground (arith, low), all))

min_port-IsMin :
    (ms : List Mapped) (p : ℕ) → (min_port p ms ≤ p) × All (λ m. min_port p ms ≤ m.port) ms
unfolding min_port
min_port-IsMin [] p = (omega arith, tt)
min_port-IsMin (m ∷ ms) p =
    let (high, all) = min_port-IsMin ms (if ltb m.port p then m.port else p) in
    (ground (arith, high), (ground (arith, high), all))

one_ip :
    (r : Mapped) (rest : List Mapped)
    → ltb 1 (length (unique_strings [] (r.ip ∷ map (λ m. m.ip) rest))) ≡ false
    → OneIp r rest
unfolding unique_strings
one_ip r rest h = unique_seen r.ip rest (ground (arith, h))

-- Ports within a spread of 100, all below a port that is less than 100 above the highest.
below-All :
    (ms : List Mapped) (low high e : ℕ)
    → All (λ m. m.port ≤ high) ms
    → All (λ m. low ≤ m.port) ms
    → high ≤ low + 100
    → high < e
    → e < high + 100
    → All (λ m. (m.port < e) × (e < m.port + 200)) ms
below-All [] low high e a b s h k = tt
below-All (m ∷ ms) low high e a b s h k =
    ((omega (arith, a.0, h), omega (arith, b.0, s, k)), below-All ms low high e a.1 b.1 s h k)

above-All :
    (ms : List Mapped) (low high e : ℕ)
    → All (λ m. m.port ≤ high) ms
    → All (λ m. low ≤ m.port) ms
    → high ≤ low + 100
    → e < low
    → low < e + 100
    → All (λ m. (e < m.port) × (m.port < e + 200)) ms
above-All [] low high e a b s h k = tt
above-All (m ∷ ms) low high e a b s h k =
    ((omega (arith, b.0, h), omega (arith, a.0, s, k)), above-All ms low high e a.1 b.1 s h k)

-- The two tests on the differences of the ports.
abbrev is_inc : ℕ → ℕ → Bool
is_inc max e = ltb_ℤ (pos 0) (sub_ℕ e max) && ltb_ℤ (sub_ℕ e max) (pos 100)

port_cases :
    (max min e : ℕ)
    → ((is_inc max e ≡ true) × (max < e) × (e < max + 100))
      ⊎ (((is_inc max e ≡ false) × (is_inc e min ≡ true) × (e < min) × (min < e + 100))
          ⊎ ((is_inc max e ≡ false) × (is_inc e min ≡ false)))
port_cases max min e = ground arith

module _ (r : Mapped) (rest : List Mapped) (many : ¬ OnePort r rest) (one : OneIp r rest) where
  compare_extra-Explained :
      (extra : Option Mapped)
      → max_port r.port rest ≤ min_port r.port rest + 100
      → Explained r rest extra (
          compare_extra
            (max_port r.port rest)
            (min_port r.port rest)
            (record { type = unknown; public_ip = r.ip; public_port = r.port })
            extra)
  unfolding compare_extra
  compare_extra-Explained none near = is_hard many
  compare_extra-Explained (some e) near =
      let top = max_port-IsMax rest r.port in
      let bottom = min_port-IsMin rest r.port in
      elim (port_cases (max_port r.port rest) (min_port r.port rest) e.port) [
        | inl (f, h, k) ↦ rw f (
            is_increasing e refl many one (
              below-All (r ∷ rest) (min_port r.port rest) (max_port r.port rest) e.port top bottom
                near h k))
        | inr (inl (f, g, h, k)) ↦
            rw (f, g)
              (is_decreasing e refl many one (
                above-All (r ∷ rest) (min_port r.port rest) (max_port r.port rest) e.port top bottom
                  near h k))
        | inr (inr (f, g)) ↦ rw (f, g) (is_hard many)
      ]

-- Every verdict that DetectNAT reaches from two answers or more is backed by the answers: a cone has
-- answered with one port; a predictable symmetric NAT has one IP, several ports, and a port of the
-- second socket that lies beyond all of them by less than 200, on the side of the verdict, and which
-- is then reported; and a hard one has answered with several ports.
pub classify-Explained :
    (r : Mapped) (rest : List Mapped) (extra : Option Mapped)
    → Explained r rest extra (classify r rest extra)
unfolding classify
classify-Explained r rest extra = elim (all_same_port-OnePort r.port rest) [
  | inl (e, all) ↦ rw (e, classify) (is_cone all)
  | inr (e, many) ↦
      elim (Bool-cases (ltb 1 (length (unique_strings [] (r.ip ∷ map (λ m. m.ip) rest))))) [
        | inl f ↦ rw (e, f, classify) (is_hard many)
        | inr f ↦ elim (Bool-cases (ltb 100 (max_port r.port rest - min_port r.port rest))) [
          | inl g ↦ rw (e, f, g, classify) (is_hard many)
          | inr g ↦
              rw (e, f, g, classify)
                (compare_extra-Explained r rest many (one_ip r rest f) extra (ground (arith, g)))
        ]
      ]
]
