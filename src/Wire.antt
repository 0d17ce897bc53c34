-- ===== src/Wire.antt =====
-- Big-endian integers and exact reads, which every frame of the program is built from: the length
-- prefixes of internal/message/message.go and internal/holepunch/signaling.go, the transaction
-- number of internal/holepunch/types.go and the fields of internal/holepunch/stun.go.
-- A byte is a number below 256; a byte slice is a list of bytes.
pub mod RoundTrip
use f2p.Prelude.{
  ℕ, ◌+◌, ◌*◌, ◌/◌, ◌%◌, ◌^◌, ◌<◌, List, [], ◌∷◌, Option, none, some, length, take, drop, ltb,
  if◌then◌else◌, get_elem?, zero, suc,
}

abbrev pub IsByte : ℕ → Type 0
IsByte b = b < 256

abbrev pub IsU32 : ℕ → Type 0
IsU32 n = n < 2 ^ 32

-- `byte(n >> k)` keeps the low eight bits.
abbrev pub byte_at : ℕ → ℕ → ℕ
byte_at n k = n / 2 ^ k % 256

-- {byte(n >> 24), byte(n >> 16), byte(n >> 8), byte(n)}
unfoldable pub put_u32 : ℕ → List ℕ
put_u32 n = byte_at n 24 ∷ byte_at n 16 ∷ byte_at n 8 ∷ byte_at n 0 ∷ []

-- uint32(a)<<24 | uint32(b)<<16 | uint32(c)<<8 | uint32(d): the shifted bytes do not overlap, so `|` is a sum.
unfoldable pub get_u32 : ℕ → ℕ → ℕ → ℕ → ℕ
get_u32 a b c d = a * 2 ^ 24 + b * 2 ^ 16 + c * 2 ^ 8 + d

unfoldable pub put_u16 : ℕ → List ℕ
put_u16 n = byte_at n 8 ∷ byte_at n 0 ∷ []

unfoldable pub get_u16 : ℕ → ℕ → ℕ
get_u16 a b = a * 2 ^ 8 + b

-- `io.ReadFull` of n bytes from what a connection still holds: all of them and the rest, or an error.
unfoldable pub read_full : ℕ → List ℕ → Option (List ℕ × List ℕ)
read_full n bytes = if ltb (length bytes) n then none else some (take n bytes, drop n bytes)
