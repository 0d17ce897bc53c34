-- ===== src/Compress/Tests.antt =====
-- The compression theorems at concrete inputs, with a library that knows one long chunk.
use f2p.Prelude.{ℕ, suc, ◌≡◌, refl, List, [], ◌∷◌, ◌++◌, none, some, replicate, arith}
use f2p.Prelude.Int.{pos}
use mathlib.Core.Logic.{ite}
use native.Mathlib.Decide.{ℕ_discrete}
use f2p.Compress.{
  Zstd, ZstdParams, IsLossless, Base, configure_zstd_params, base_write, put_uvarint,
  put_uvarint_loop, uvarint_len, uvarint_len_loop,
}
use f2p.Compress.Params.{configure_keeps}
use f2p.Compress.Duplex.{
  ZstdDuplex, Counters, written, write, write_loop, write_chunk, choose_payload, write_frame,
}
use f2p.Compress.Duplex.Stream.{read_many, read_many-write}
use f2p.Compress.Duplex.Writing.{Progress, write-Progress}

Bytes-discrete : Discrete (List ℕ)
Bytes-discrete = hlevel ℕ_discrete

abbrev long_chunk : List ℕ
long_chunk = replicate 40 7

abbrev toy : Zstd
toy = record {
  compress_bound = suc;
  compress_level = λ level chunk. ite (Bytes-discrete chunk long_chunk) (some (1 ∷ [])) none;
  decompress = λ packed. some long_chunk;
}

toy-IsLossless : IsLossless toy
toy-IsLossless level chunk packed e = ground arith

abbrev no_counts : Counters
no_counts = record { frames = 0; compressed = 0; orig_bytes = 0; stored_bytes = 0 }

abbrev duplex_of : Base → List ℕ → ZstdDuplex
duplex_of base inbox = record {
  base = base;
  inbox = inbox;
  read_buf = [];
  wr = no_counts;
  rd = no_counts;
  meta_side = "";
  meta_service = "";
  meta_peer = "";
  meta_protocol = "";
}

abbrev params : ZstdParams
params = record { level = pos 1; min_size = 32; chunk_size = 40 }

abbrev writer : ZstdDuplex
writer = duplex_of (record { wire = 9 ∷ []; budget = none }) []

-- One compressed frame and a raw one.
abbrev on_wire : List ℕ
on_wire = 1 ∷ 1 ∷ 1 ∷ 0 ∷ 2 ∷ 5 ∷ 6 ∷ []

wire_of_two :
    (write toy params writer (long_chunk ++ (5 ∷ 6 ∷ []))).duplex.base.wire
    ≡ writer.base.wire ++ on_wire
unfolding write write_loop write_chunk choose_payload write_frame base_write put_uvarint
    put_uvarint_loop uvarint_len uvarint_len_loop Bytes-discrete ℕ_discrete
wire_of_two = refl

abbrev reader : ZstdDuplex
reader = duplex_of (record { wire = []; budget = none }) on_wire

abbrev payload : List ℕ
payload = long_chunk ++ (5 ∷ 6 ∷ [])

-- The call whose second write fails after a byte.
abbrev failing : ZstdDuplex
failing = duplex_of (record { wire = []; budget = some (1, 1) }) []

written_two : (write toy params writer payload).end ≡ written
unfolding write write_loop write_chunk choose_payload write_frame base_write put_uvarint
    put_uvarint_loop uvarint_len uvarint_len_loop Bytes-discrete ℕ_discrete
written_two = refl

read_many-write_example : read_many toy reader (replicate 42 3) ≡ payload
read_many-write_example =
    read_many-write toy params writer reader payload (replicate 42 3) toy-IsLossless (omega arith)
      (omega arith) written_two wire_of_two refl (ground arith) (omega arith)

write-Progress_example :
    Progress toy []
      (write toy params failing payload).duplex.base.wire
      payload
      (write toy params failing payload).end
      (write toy params failing payload).count
write-Progress_example =
    write-Progress toy params toy-IsLossless (omega arith) (omega arith) failing payload

configure_keeps_example :
    configure_zstd_params (pos 3) (pos 256) (pos 32768)
    ≡ record { level = pos 3; min_size = 256; chunk_size = 32768 }
configure_keeps_example = configure_keeps (pos 3) 256 32768 (omega arith) (omega arith)
