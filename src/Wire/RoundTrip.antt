-- ===== src/Wire/RoundTrip.antt =====
-- Integers and slices read back as they were written.
use f2p.Prelude.{
  ℕ, ◌<◌, ◌≡◌, List, ◌++◌, none, some, length, take_prefix, drop_prefix, take-append-drop,
  length-append, length-take, arith, All,
}
use f2p.Wire.{IsByte, IsU32, put_u32, get_u32, get_u16, read_full, byte_at}

pub get_u32-put_u32 :
    (n : ℕ) → IsU32 n → get_u32 (byte_at n 24) (byte_at n 16) (byte_at n 8) (byte_at n 0) ≡ n
unfolding get_u32
get_u32-put_u32 n h = omega arith

pub get_u16-put_u16 : (n : ℕ) → n < 65536 → get_u16 (byte_at n 8) (byte_at n 0) ≡ n
unfolding get_u16
get_u16-put_u16 n h = omega arith

pub put_u32-IsByte : (n : ℕ) → All IsByte (put_u32 n)
unfolding put_u32
put_u32-IsByte n = omega arith

-- An exact read takes a slice of the wanted length off the front.
pub read_full_prefix :
    (xs ys : List ℕ) (n : ℕ) → length xs ≡ n → read_full n (xs ++ ys) ≡ some (xs, ys)
unfolding read_full
read_full_prefix xs ys n h =
    rw (← h) (ground (arith, take_prefix xs ys, drop_prefix xs ys, length-append xs ys))

-- A read that succeeds splits its input, and the front has the wanted length.
pub read_full_splits :
    (n : ℕ) (bytes front back : List ℕ)
    → read_full n bytes ≡ some (front, back)
    → (bytes ≡ front ++ back) × (length front ≡ n)
unfolding read_full
read_full_splits n bytes front back h =
    ground (arith, take-append-drop n bytes, length-take n bytes)

pub read_full_short : (n : ℕ) (bytes : List ℕ) → length bytes < n → read_full n bytes ≡ none
unfolding read_full
read_full_short n bytes h = ground arith
