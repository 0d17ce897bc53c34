-- ===== src/Holepunch/Signaling/Messages.antt =====
-- A message of the signalling, written and read.
use f2p.Prelude.{
  ℕ, ◌≤◌, ◌%◌, ◌≡◌, refl, ap, ◌∙◌, true, List, ◌++◌, some, arith, length, append_assoc,
}
use f2p.Wire.{put_u32}
use f2p.Wire.RoundTrip.{get_u32-put_u32, read_full_prefix}
use f2p.Compress.{Base, base_write}
use f2p.Compress.Duplex.Frames.{base_write_ok}
use f2p.Holepunch.{SignalMsg}
use f2p.Holepunch.Signaling.{
  Json, max_signal_len, write_signal_msg, read_signal_msg, read_sized_signal,
}

-- What the JSON library promises: it decodes what it has encoded.
abbrev pub IsDecoding : Json → Type 0
IsDecoding j =
    (m : SignalMsg) (bytes : List ℕ) → j.marshal m ≡ some bytes → j.unmarshal bytes ≡ some m

-- What writeSignalMsg puts on the stream for a message's JSON.
abbrev pub signal_frame : List ℕ → List ℕ
signal_frame bytes = put_u32 (length bytes % 4294967296) ++ bytes

write_signal_msg-frame :
    (j : Json) (w : Base) (m : SignalMsg) (bytes : List ℕ)
    → j.marshal m ≡ some bytes
    → (write_signal_msg j w m).1 ≡ true
    → (write_signal_msg j w m).0.wire ≡ w.wire ++ signal_frame bytes
unfolding write_signal_msg
write_signal_msg-frame j w m bytes e h =
    let head : List ℕ = put_u32 (length bytes % 4294967296) in
    let w1 : Base = (base_write w head).0 in
    ground
      (arith, e, h, base_write_ok w head, base_write_ok w1 bytes, append_assoc w.wire head bytes)

read_sized_prefix :
    (j : Json) (m : SignalMsg) (bytes rest : List ℕ)
    → length bytes ≤ max_signal_len
    → j.unmarshal bytes ≡ some m
    → read_sized_signal j (length bytes) (bytes ++ rest) ≡ some (m, rest)
unfolding read_sized_signal
read_sized_prefix j m bytes rest h e =
    ground (arith, h, e, read_full_prefix bytes rest (length bytes) refl)

read_frame :
    (j : Json) (m : SignalMsg) (bytes rest : List ℕ)
    → length bytes ≤ max_signal_len
    → j.unmarshal bytes ≡ some m
    → read_signal_msg j (signal_frame bytes ++ rest) ≡ some (m, rest)
unfolding read_signal_msg put_u32
read_frame j m bytes rest h e =
    let same : length bytes % 4294967296 ≡ length bytes = omega (arith, h) in
    ap (λ n. read_sized_signal j n (bytes ++ rest))
      (get_u32-put_u32 (length bytes % 4294967296) (omega arith) ∙ same)
    ∙ read_sized_prefix j m bytes rest h e

-- A message whose JSON has at most 64 KiB and whose write succeeds is what the other side reads, and
-- the bytes behind it are left. (The JSON library decodes what it has encoded.)
pub read_signal_msg-write_signal_msg :
    (j : Json) (w : Base) (m : SignalMsg) (bytes rest : List ℕ)
    → IsDecoding j
    → j.marshal m ≡ some bytes
    → length bytes ≤ max_signal_len
    → (write_signal_msg j w m).1 ≡ true
    → (wire : List ℕ) × ((write_signal_msg j w m).0.wire ≡ w.wire ++ wire)
      × (read_signal_msg j (wire ++ rest) ≡ some (m, rest))
read_signal_msg-write_signal_msg j w m bytes rest decodes e fits ok = (
  signal_frame bytes,
  write_signal_msg-frame j w m bytes e ok,
  read_frame j m bytes rest fits (decodes m bytes e),
)
