-- ===== src/Prelude/Xor.antt =====
-- Lemmas on exclusive or at variables. A number is taken apart from its lowest digit up.
use Prim.Native.Nat.{
  ℕ, zero, suc, ◌+◌, ◌*◌, ◌/◌, ◌%◌, ◌≤◌, ◌<◌, bit_xor, bit_xor-bitwise, digits, differ,
}
use mathlib.Core.Path.{◌≡◌, refl, ◌∙◌, ap, ap₂}
use native.Mathlib.Omega.{arith}

abbrev xor_digits : ℕ → ℕ → ℕ → ℕ
xor_digits n a b = digits (λ b. b) differ n a b

enough_digits : (n m a b : ℕ) → a ≤ n → a ≤ m → xor_digits n a b ≡ xor_digits m a b
enough_digits zero zero a b h k = refl
enough_digits zero (suc m) zero b h k = refl
enough_digits zero (suc m) (suc a) b h k = absurd (omega arith)
enough_digits (suc n) zero zero b h k = refl
enough_digits (suc n) zero (suc a) b h k = absurd (omega arith)
enough_digits (suc n) (suc m) zero b h k = refl
enough_digits (suc n) (suc m) (suc a) b h k =
    omega (arith, enough_digits n m (suc a / 2) (b / 2) (omega arith) (omega arith))

zero-bit_xor : (b : ℕ) → bit_xor 0 b ≡ b
zero-bit_xor b = bit_xor-bitwise 0 b

by_lowest_digit : (a b : ℕ) → bit_xor a b ≡ bit_xor (a / 2) (b / 2) * 2 + differ (a % 2) (b % 2)
by_lowest_digit zero b = omega (arith, zero-bit_xor b, zero-bit_xor (b / 2))
by_lowest_digit (suc a) b = omega (
  arith,
  bit_xor-bitwise (suc a) b,
  bit_xor-bitwise (suc a / 2) (b / 2),
  enough_digits a (suc a / 2) (suc a / 2) (b / 2) (omega arith) (omega arith),
)

differ-digit : (i j : ℕ) → i < 2 → j < 2 → (differ i j < 2) × (differ (differ i j) j ≡ i)
differ-digit zero zero h k = (omega arith, refl)
differ-digit zero (suc zero) h k = (omega arith, refl)
differ-digit (suc zero) zero h k = (omega arith, refl)
differ-digit (suc zero) (suc zero) h k = (omega arith, refl)
differ-digit (suc (suc i)) j h k = absurd (omega arith)
differ-digit i (suc (suc j)) h k = absurd (omega arith)

cut_digit : (x d : ℕ) → d < 2 → ((x * 2 + d) / 2 ≡ x) × ((x * 2 + d) % 2 ≡ d)
cut_digit x d h = (omega arith, omega arith)

twice_below : (n a b : ℕ) → a ≤ n → b ≤ n → bit_xor (bit_xor a b) b ≡ a
twice_below zero zero zero h k = refl
twice_below zero (suc a) b h k = absurd (omega arith)
twice_below zero zero (suc b) h k = absurd (omega arith)
twice_below (suc n) a b h k =
    let x = bit_xor (a / 2) (b / 2) in
    let (small, back) = differ-digit (a % 2) (b % 2) (omega arith) (omega arith) in
    let d = differ (a % 2) (b % 2) in
    let (high, low) = cut_digit x d small in
    ap (λ c. bit_xor c b) (by_lowest_digit a b)
    ∙ (by_lowest_digit (x * 2 + d) b
        ∙ (ap₂ (λ u v. bit_xor u (b / 2) * 2 + differ v (b % 2)) high low
            ∙ omega (arith, back, twice_below n (a / 2) (b / 2) (omega arith) (omega arith))))

pub bit_xor_twice : (a b : ℕ) → bit_xor (bit_xor a b) b ≡ a
bit_xor_twice a b = twice_below (a + b) a b (omega arith) (omega arith)

abbrev Closed : ℕ → Type 0
Closed m = (a b : ℕ) → a < m → b < m → bit_xor a b < m

one-Closed : Closed 1
one-Closed zero zero h k = omega arith
one-Closed (suc a) b h k = absurd (omega arith)
one-Closed zero (suc b) h k = absurd (omega arith)

twice-Closed : (m : ℕ) → Closed m → Closed (m * 2)
twice-Closed m c a b h k = omega (
  arith,
  by_lowest_digit a b,
  c (a / 2) (b / 2) (omega arith) (omega arith),
  (differ-digit (a % 2) (b % 2) (omega arith) (omega arith)).0,
)

byte-Closed : (m : ℕ) → Closed m → Closed (m * 2 * 2 * 2 * 2 * 2 * 2 * 2 * 2)
byte-Closed m c = twice-Closed _ (
    twice-Closed _ (
      twice-Closed _
        (twice-Closed _ (twice-Closed _ (twice-Closed _ (twice-Closed _ (twice-Closed m c)))))))

pub bit_xor-u16 : (a b : ℕ) → a < 65536 → b < 65536 → bit_xor a b < 65536
bit_xor-u16 = byte-Closed 256 (byte-Closed 1 one-Closed)

pub bit_xor-u32 : (a b : ℕ) → a < 4294967296 → b < 4294967296 → bit_xor a b < 4294967296
bit_xor-u32 = byte-Closed 16777216 (byte-Closed 65536 bit_xor-u16)
