-- ===== src/Compress/Duplex/Frames.antt =====
-- One frame: what it carries, and how it is written and read.
use f2p.Prelude.{
  ℕ, ◌≤◌, ◌≡◌, refl, sym, ap, append-nil, take-append-drop, drop, ◌∙◌, Bool, true, List, [], ◌∷◌,
  ◌++◌, Option, none, some, length, take, zero, suc, arith, append_assoc, Bool-cases, Option-cases,
  inl, inr,
}
use f2p.Wire.RoundTrip.{read_full_prefix}
use f2p.Compress.{Zstd, ZstdParams, IsLossless, Base, base_write, put_uvarint}
use f2p.Compress.Uvarint.{read_uvarint-put_uvarint}
use f2p.Compress.Duplex.{
  ZstdDuplex, choose_payload, flag_byte, write_frame, unpack, max_stored_len, read_frame,
  read_payload, count_frame, count_compressed, is_compressed,
}

abbrev pub frame : Bool → List ℕ → List ℕ
frame flag payload = flag_byte flag ∷ (put_uvarint (length payload) ++ payload)

-- The frame of a chunk: its payload unpacks to the chunk and is not longer.
pub record Holds (z : Zstd) (flag : Bool) (payload chunk : List ℕ) : Type 0 where
  pub unpacks : unpack z (flag_byte flag) payload ≡ some chunk
  pub shorter : length payload ≤ length chunk

pub choose_payload-Holds :
    (z : Zstd) (p : ZstdParams) (chunk : List ℕ)
    → IsLossless z
    → Holds z (choose_payload z p chunk).0 (choose_payload z p chunk).1 chunk
unfolding choose_payload unpack
choose_payload-Holds z p chunk ok = elim (Option-cases (z.compress_level p.level chunk)) [
  | inl e ↦ ground arith
  | inr (packed, e) ↦ ground (arith, ok p.level chunk packed e)
]

-- A write to the connection sends a prefix, and everything when it succeeds.
pub base_write_prefix :
    (b : Base) (bytes : List ℕ)
    → (part left : List ℕ) × (part ++ left ≡ bytes) × ((base_write b bytes).0.wire ≡ b.wire ++ part)
unfolding base_write
base_write_prefix b bytes = go b.budget refl
  where
    go :
        (budget : Option (ℕ × ℕ))
        → b.budget ≡ budget
        → (part left : List ℕ) × (part ++ left ≡ bytes)
          × ((base_write b bytes).0.wire ≡ b.wire ++ part)
    go none e = (bytes, [], append-nil bytes, ground arith)
    go (some (zero, k)) e = (take k bytes, drop k bytes, take-append-drop k bytes, ground arith)
    go (some (suc n, k)) e = (bytes, [], append-nil bytes, ground arith)

pub base_write_ok :
    (b : Base) (bytes : List ℕ)
    → (base_write b bytes).1 ≡ true
    → (base_write b bytes).0.wire ≡ b.wire ++ bytes
unfolding base_write
base_write_ok b bytes h = ground arith

pub write_frame_ok :
    (b : Base) (flag : Bool) (payload : List ℕ)
    → (write_frame b flag payload).1 ≡ true
    → (write_frame b flag payload).0.wire ≡ b.wire ++ frame flag payload
unfolding write_frame
write_frame_ok b flag payload h =
    let head : List ℕ = flag_byte flag ∷ [] in
    let len : List ℕ = put_uvarint (length payload) in
    let b1 : Base = (base_write b head).0 in
    let b2 : Base = (base_write b1 len).0 in
    ground (
      arith,
      base_write_ok b head,
      base_write_ok b1 len,
      base_write_ok b2 payload,
      append_assoc b.wire head len,
      append_assoc b.wire (head ++ len) payload,
    )

-- However a frame's writes end, they put a first part of the frame behind what stood on the wire.
pub write_frame_part :
    (b : Base) (flag : Bool) (payload : List ℕ)
    → (part left : List ℕ) × (part ++ left ≡ frame flag payload)
      × ((write_frame b flag payload).0.wire ≡ b.wire ++ part)
unfolding write_frame
write_frame_part b flag payload =
    let head : List ℕ = flag_byte flag ∷ [] in
    let len : List ℕ = put_uvarint (length payload) in
    let b1 : Base = (base_write b head).0 in
    let b2 : Base = (base_write b1 len).0 in
    let (part1, left1, c1, e1) = base_write_prefix b head in
    let (part2, left2, c2, e2) = base_write_prefix b1 len in
    let (part3, left3, c3, e3) = base_write_prefix b2 payload in
    elim (Bool-cases (base_write b head).1) [
      | inr stop ↦ (
        part1,
        left1 ++ (len ++ payload),
        sym (append_assoc part1 left1 (len ++ payload)) ∙ ap (λ l. l ++ (len ++ payload)) c1,
        rw (stop, write_frame) e1,
      )
      | inl go_on ↦
          let first = base_write_ok b head go_on in
          elim (Bool-cases (base_write b1 len).1) [
            | inr stop ↦ (
              head ++ part2,
              left2 ++ payload,
              ap (λ l. flag_byte flag ∷ l)
                  (sym (append_assoc part2 left2 payload) ∙ ap (λ l. l ++ payload) c2),
              rw (go_on, stop, write_frame)
                  (e2 ∙ (ap (λ w. w ++ part2) first ∙ append_assoc b.wire head part2)),
            )
            | inl last ↦
                let two = base_write_ok b1 len last ∙ ap (λ w. w ++ len) first in
                (
                  head ++ (len ++ part3),
                  left3,
                  ap (λ l. flag_byte flag ∷ l)
                      (append_assoc len part3 left3 ∙ ap (λ l. len ++ l) c3),
                  rw (go_on, last, write_frame)
                      (e3
                        ∙ (ap (λ w. w ++ part3) two
                            ∙ (append_assoc (b.wire ++ head) len part3
                                ∙ append_assoc b.wire head (len ++ part3)))),
                )
          ]
    ]

read_payload-frame :
    (z : Zstd) (d : ZstdDuplex) (flag : ℕ) (payload chunk rest : List ℕ)
    → unpack z flag payload ≡ some chunk
    → (d' : ZstdDuplex) × (read_payload z d flag (length payload) (payload ++ rest) ≡ some d')
      × (d'.inbox ≡ rest)
      × (d'.read_buf ≡ d.read_buf ++ chunk)
unfolding read_payload
read_payload-frame z d flag payload chunk rest e = (
  record d {
    inbox = rest;
    read_buf = d.read_buf ++ chunk;
    rd = count_frame (count_compressed (is_compressed flag) d.rd) (length chunk) (length payload);
  },
  rw (read_full_prefix payload rest (length payload) refl, read_payload) (rw e),
  refl,
  refl,
)

-- A frame at the front of the inbox moves its chunk into the buffer.
pub read_frame-frame :
    (z : Zstd) (d : ZstdDuplex) (flag : Bool) (payload chunk rest : List ℕ)
    → Holds z flag payload chunk
    → length payload ≤ max_stored_len
    → d.inbox ≡ frame flag payload ++ rest
    → (d' : ZstdDuplex) × (read_frame z d ≡ some d')
      × (d'.inbox ≡ rest)
      × (d'.read_buf ≡ d.read_buf ++ chunk)
unfolding read_frame
read_frame-frame z d flag payload chunk rest h size e =
    let (d', r, in_eq, buf_eq) =
      read_payload-frame z d (flag_byte flag) payload chunk rest h.unpacks in
    let len = put_uvarint (length payload) in
    (
      d',
      ground (
        arith,
        append_assoc len payload rest,
        read_uvarint-put_uvarint (length payload) (payload ++ rest),
        r,
      ),
      in_eq,
      buf_eq,
    )
