-- ===== src/Compress/Duplex.antt =====
-- ZstdDuplex of internal/compress/zstd.go: `Write` cuts its argument into chunks and sends each as a
-- frame, `Read` serves the bytes of the frames. The byte and frame counters are int64 patterns.
pub mod Frames
pub mod Writing
pub mod Reading
pub mod Stream
use f2p.Prelude.{
  ℕ, zero, suc, ◌+◌, ◌%◌, ◌^◌, ◌≡◌, Bool, true, false, ◌&&◌, List, [], ◌∷◌, ◌++◌, Option, none,
  some, length, take, drop, ltb, leb, ◌==◌, if◌then◌else◌, String, str_eq,
}
use Prim.Native.Nat.{bit_and}
use f2p.Wire.{read_full}
use f2p.Compress.{Zstd, ZstdParams, Base, base_write, put_uvarint, read_uvarint, uvarint_len}

pub record Counters : Type 0 where
  pub frames : ℕ
  pub compressed : ℕ
  pub orig_bytes : ℕ
  pub stored_bytes : ℕ

-- `inbox` is what the peer has sent and is not read; `base` is the side that is written.
pub record ZstdDuplex : Type 0 where
  pub base : Base
  pub inbox : List ℕ
  pub read_buf : List ℕ
  pub wr : Counters
  pub rd : Counters
  pub meta_side : String
  pub meta_service : String
  pub meta_peer : String
  pub meta_protocol : String

abbrev pub flag_compressed : ℕ
flag_compressed = 0x01

abbrev pub add_count : ℕ → ℕ → ℕ
add_count a b = (a + b) % 2 ^ 64

-- One frame more.
abbrev pub count_frame : Counters → ℕ → ℕ → Counters
count_frame c orig stored = record c {
  frames = add_count c.frames 1;
  orig_bytes = add_count c.orig_bytes orig;
  stored_bytes = add_count c.stored_bytes stored;
}

abbrev pub count_compressed : Bool → Counters → Counters
count_compressed true c = record c { compressed = add_count c.compressed 1 }
count_compressed false c = c

-- The flag and the payload of a chunk: it is compressed if it is long enough, the library can do it,
-- and the frame gets shorter. (compressRatio is 1.0, so the float comparison is one of numbers.)
unfoldable pub choose_payload : Zstd → ZstdParams → List ℕ → Bool × List ℕ
choose_payload z p chunk =
    if leb p.min_size (length chunk) && ltb (length chunk) (z.compress_bound (length chunk))
    then elim (z.compress_level p.level chunk) [
      | none ↦ (false, chunk)
      | some packed ↦
          if ltb (length packed + (1 + uvarint_len (length packed))) (length chunk)
          then (true, packed)
          else (false, chunk)
    ]
    else (false, chunk)

abbrev pub flag_byte : Bool → ℕ
flag_byte true = flag_compressed
flag_byte false = 0

-- The three writes of a frame; the next is made only after the last succeeded.
unfoldable pub write_frame : Base → Bool → List ℕ → Base × Bool
write_frame b flag payload =
    let (b1, ok1) = base_write b (flag_byte flag ∷ []) in
    let (b2, ok2) = base_write b1 (put_uvarint (length payload)) in
    let last = base_write b2 payload in
    if ok1 then (if ok2 then last else (b2, false)) else (b1, false)

-- How a `Write` ends; `out_of_fuel` is no result of the code.
pub data WriteEnd : Type 0 where
  written write_error out_of_fuel : WriteEnd

pub record WriteResult : Type 0 where
  pub duplex : ZstdDuplex
  pub count : ℕ
  pub end : WriteEnd

-- One round of the loop: the counters of compressed frames and of frames stand where the code has them.
unfoldable pub write_chunk : Zstd → ZstdParams → ZstdDuplex → List ℕ → ZstdDuplex × Bool
write_chunk z p d chunk =
    let (flag, payload) = choose_payload z p chunk in
    let begun = count_compressed flag d.wr in
    let (b, ok) = write_frame d.base flag payload in
    if ok
    then (record d { base = b; wr = count_frame begun (length chunk) (length payload) }, true)
    else (record d { base = b; wr = begun }, false)

-- The loop of `Write` over what is left of its argument; `n` is writtenIn.
unfoldable pub write_loop : ℕ → Zstd → ZstdParams → ZstdDuplex → List ℕ → ℕ → WriteResult
write_loop fuel z p d [] n = record { duplex = d; count = n; end = written }
write_loop zero z p d (b ∷ bytes) n = record { duplex = d; count = n; end = out_of_fuel }
write_loop (suc fuel) z p d (b ∷ bytes) n =
    let chunk = take p.chunk_size (b ∷ bytes) in
    let (d', ok) = write_chunk z p d chunk in
    let more = write_loop fuel z p d' (drop p.chunk_size (b ∷ bytes)) (n + length chunk) in
    if ok then more else record { duplex = d'; count = n; end = write_error }

-- Each round takes a byte at least, so as many rounds as there are bytes are enough.
unfoldable pub write : Zstd → ZstdParams → ZstdDuplex → List ℕ → WriteResult
unfolding write_loop
write z p d bytes = write_loop (length bytes) z p d bytes 0

-- Read: bytes, the end of the stream, or another error, after which the connection is given up.
pub data ReadResult : Type 0 where
  took : List ℕ → ZstdDuplex → ReadResult
  eof : ZstdDuplex → ReadResult
  read_error : ReadResult

-- bytes.Buffer.Read into n bytes; an empty buffer is the end of the stream, unless n is 0.
unfoldable pub buffer_read : ZstdDuplex → ℕ → ReadResult
buffer_read d n = elim d.read_buf [
  | [] ↦ if n == 0 then took [] d else eof d
  | b ∷ bytes ↦ took (take n (b ∷ bytes)) (record d { read_buf = drop n (b ∷ bytes) })
]

abbrev pub max_stored_len : ℕ
max_stored_len = 2 ^ 30

-- What a payload unpacks to.
unfoldable pub unpack : Zstd → ℕ → List ℕ → Option (List ℕ)
unpack z flag payload =
    if bit_and flag flag_compressed == 0 then some payload else z.decompress payload

abbrev pub is_compressed : ℕ → Bool
is_compressed flag = if bit_and flag flag_compressed == 0 then false else true

-- The part of `Read` after the stored length: payload, unpacking, counters.
unfoldable pub read_payload : Zstd → ZstdDuplex → ℕ → ℕ → List ℕ → Option ZstdDuplex
read_payload z d flag stored bytes = elim (read_full stored bytes) [
  | none ↦ none
  | some (payload, rest) ↦ elim (unpack z flag payload) [
    | none ↦ none
    | some out ↦ some (record d {
      inbox = rest;
      read_buf = d.read_buf ++ out;
      rd = count_frame (count_compressed (is_compressed flag) d.rd) (length out) stored;
    })
  ]
]

-- The next frame is moved into the buffer; `none` is an error.
unfoldable pub read_frame : Zstd → ZstdDuplex → Option ZstdDuplex
unfolding read_payload
read_frame z d = elim d.inbox [
  | [] ↦ none
  | flag ∷ bytes ↦ elim (read_uvarint bytes) [
    | none ↦ none
    | some (stored, rest) ↦
        if ltb max_stored_len stored then none else read_payload z d flag stored rest
  ]
]

-- With an empty buffer, a stream that ends before a flag is its end.
unfoldable pub read_next : Zstd → ZstdDuplex → ℕ → ReadResult
unfolding buffer_read read_frame
read_next z d n = elim d.inbox [
  | [] ↦ eof d
  | _ ↦ elim (read_frame z d) [ none ↦ read_error | some d' ↦ buffer_read d' n ]
]

unfoldable pub read : Zstd → ZstdDuplex → ℕ → ReadResult
unfolding read_next
read z d n = elim d.read_buf [ b ∷ bytes ↦ buffer_read d n | [] ↦ read_next z d n ]

abbrev set_unless_empty : String → String → String
set_unless_empty new old = if str_eq new "" then old else new

-- SetInfo: an empty argument keeps what was set before.
unfoldable pub set_info : ZstdDuplex → String → String → String → String → ZstdDuplex
set_info d side service peer protocol = record d {
  meta_side = set_unless_empty side d.meta_side;
  meta_service = set_unless_empty service d.meta_service;
  meta_peer = set_unless_empty peer d.meta_peer;
  meta_protocol = set_unless_empty protocol d.meta_protocol;
}
