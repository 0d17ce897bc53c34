-- ===== src/Compress/Uvarint.antt =====
-- The lengths of internal/compress/zstd.go: what `writeUvarint` writes `readUvarint` reads, and
-- `uvarintLen` counts its bytes.
use f2p.Prelude.{
  ℕ, zero, suc, ◌+◌, ◌*◌, ◌/◌, ◌%◌, ◌^◌, ◌<◌, ◌≡◌, ap, List, ◌++◌, some, length, arith, ltb,
  Bool-cases, inl, inr,
}
use native.Mathlib.Nat.{div-add-mod}
use f2p.Compress.{
  put_uvarint_loop, put_uvarint, read_uvarint_loop, read_uvarint, uvarint_len_loop, uvarint_len,
}

-- What fits into the room left: two in the last byte, and seven bits in each other.
abbrev capacity : ℕ → ℕ
capacity zero = 2
capacity (suc room) = 128 * capacity room

-- The lowest group of `v` and the others, at a scale.
split_group : (v scale : ℕ) → v * scale ≡ v % 128 * scale + v / 128 * (scale * 128)
split_group v scale = omega (arith, ap (λ (t : ℕ). t * scale) (div-add-mod v 128))

read_loop-put_loop :
    (room v scale acc : ℕ) (rest : List ℕ)
    → v < capacity room
    → read_uvarint_loop room scale acc (put_uvarint_loop room v ++ rest)
      ≡ some (acc + v * scale, rest)
unfolding read_uvarint_loop put_uvarint_loop
read_loop-put_loop zero v scale acc rest h = ground arith
read_loop-put_loop (suc room) v scale acc rest h = elim (Bool-cases (ltb v 128)) [
  | inl small ↦ rw small (ground arith)
  | inr large ↦ rw large (
      ground (
        arith,
        split_group v scale,
        read_loop-put_loop room (v / 128) (scale * 128) (acc + (v % 128 + 128) % 128 * scale) rest,
      ))
]

-- `readUvarint` reads back every uint64 that `writeUvarint` wrote, and leaves what follows.
pub read_uvarint-put_uvarint :
    (v : ℕ) (rest : List ℕ) → v < 2 ^ 64 → read_uvarint (put_uvarint v ++ rest) ≡ some (v, rest)
unfolding read_uvarint put_uvarint
read_uvarint-put_uvarint v rest h = ground (arith, read_loop-put_loop 9 v 1 0 rest)

len_loop-put_loop :
    (room v l : ℕ) → uvarint_len_loop room v l + 1 ≡ l + length (put_uvarint_loop room v)
unfolding uvarint_len_loop put_uvarint_loop
len_loop-put_loop zero v l = omega arith
len_loop-put_loop (suc room) v l = ground (arith, len_loop-put_loop room (v / 128) (l + 1))

-- `uvarintLen` is the number of bytes that `writeUvarint` writes.
pub uvarint_len-put_uvarint : (v : ℕ) → uvarint_len v ≡ length (put_uvarint v)
unfolding uvarint_len put_uvarint
uvarint_len-put_uvarint v = omega (arith, len_loop-put_loop 9 v 1)
