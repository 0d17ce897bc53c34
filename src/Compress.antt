-- ===== src/Compress.antt =====
-- internal/compress/zstd.go: frames of raw or compressed chunks over a connection.
-- The zstd library is a parameter. A frame is a flag byte, the payload's length as a uvarint, and the
-- payload.
pub mod Uvarint
pub mod Params
pub mod Duplex
pub mod Closing
mod Tests
use f2p.Prelude.{
  ℕ, zero, suc, ◌+◌, ◌-◌, ◌*◌, ◌/◌, ◌%◌, ◌^◌, ◌≡◌, Bool, true, false, ◌&&◌, List, [], ◌∷◌, ◌++◌,
  Option, none, some, length, take, drop, ltb, leb, ◌==◌, if◌then◌else◌, String, str_eq,
}
use Prim.Native.Nat.{bit_and}
use f2p.Prelude.Int.{ℤ, pos, pos_part, leb_ℤ}
use f2p.Wire.{read_full}

-- github.com/DataDog/zstd: CompressBound, CompressLevel and Decompress.
pub record Zstd : Type 0 where
  pub compress_bound : ℕ → ℕ
  pub compress_level : ℤ → List ℕ → Option (List ℕ)
  pub decompress : List ℕ → Option (List ℕ)

-- What its documentation promises: what was compressed decompresses to the same bytes.
abbrev pub IsLossless : Zstd → Type 0
IsLossless z =
    (level : ℤ) (chunk packed : List ℕ)
    → z.compress_level level chunk ≡ some packed
    → z.decompress packed ≡ some chunk

-- The package's three variables.
pub record ZstdParams : Type 0 where
  pub level : ℤ
  pub min_size : ℕ
  pub chunk_size : ℕ

-- ConfigureZstdParams; its arguments are Go ints, and what it stores is positive.
unfoldable pub configure_zstd_params : ℤ → ℤ → ℤ → ZstdParams
configure_zstd_params level min_size chunk_size =
    let chunk = if leb_ℤ chunk_size (pos 0) then 32 * 1024 else pos_part chunk_size in
    let min = if leb_ℤ min_size (pos 0) then 256 else pos_part min_size in
    let below = if ltb (chunk - 1) 32 then 32 else chunk - 1 in
    record { level = level; min_size = if leb chunk min then below else min; chunk_size = chunk }

-- binary.PutUvarint: seven bits a byte, lowest first, the top bit set on all but the last. The first
-- argument is the room left in the buffer of 10 bytes, which a uint64 never exhausts.
unfoldable pub put_uvarint_loop : ℕ → ℕ → List ℕ
put_uvarint_loop zero v = v % 256 ∷ []
put_uvarint_loop (suc room) v =
    let rest = put_uvarint_loop room (v / 128) in
    if ltb v 128 then v ∷ [] else (v % 128 + 128) ∷ rest

unfoldable pub put_uvarint : ℕ → List ℕ
unfolding put_uvarint_loop
put_uvarint v = put_uvarint_loop 9 v

-- binary.ReadUvarint: `left` counts the bytes that may follow, `scale` is 2 to the shift. A byte is
-- below 128 or has its top bit set; the bits of the groups do not overlap, so `|` is a sum.
unfoldable pub read_uvarint_loop : ℕ → ℕ → ℕ → List ℕ → Option (ℕ × List ℕ)
read_uvarint_loop left scale acc [] = none
read_uvarint_loop zero scale acc (b ∷ bytes) =
    if ltb b 128 then (if ltb 1 b then none else some (acc + b * scale, bytes)) else none
read_uvarint_loop (suc left) scale acc (b ∷ bytes) =
    let more = read_uvarint_loop left (scale * 128) (acc + b % 128 * scale) bytes in
    if ltb b 128 then some (acc + b * scale, bytes) else more

unfoldable pub read_uvarint : List ℕ → Option (ℕ × List ℕ)
unfolding read_uvarint_loop
read_uvarint bytes = read_uvarint_loop 9 1 0 bytes

-- uvarintLen, with the rounds left: 9 shifts of 7 bits bring every uint64 below 0x80.
unfoldable pub uvarint_len_loop : ℕ → ℕ → ℕ → ℕ
uvarint_len_loop zero v l = l
uvarint_len_loop (suc rounds) v l =
    let more = uvarint_len_loop rounds (v / 128) (l + 1) in if ltb v 128 then l else more

unfoldable pub uvarint_len : ℕ → ℕ
unfolding uvarint_len_loop
uvarint_len v = uvarint_len_loop 9 v 1

-- The connection under the frames. `budget` says which coming `Write` fails, and after how many bytes;
-- from then on every call fails at once. `none`: no call fails.
pub record Base : Type 0 where
  pub wire : List ℕ
  pub budget : Option (ℕ × ℕ)

unfoldable pub base_write : Base → List ℕ → Base × Bool
base_write b bytes = elim b.budget [
  | none ↦ (record b { wire = b.wire ++ bytes }, true)
  | some (suc n, k) ↦ (record { wire = b.wire ++ bytes; budget = some (n, k) }, true)
  | some (zero, k) ↦ (record { wire = b.wire ++ take k bytes; budget = some (0, 0) }, false)
]
