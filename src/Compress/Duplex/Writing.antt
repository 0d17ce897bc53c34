-- ===== src/Compress/Duplex/Writing.antt =====
-- `ZstdDuplex.Write` on every outcome of the connection's writes.
use f2p.Prelude.{
  ℕ, zero, suc, ◌+◌, ◌≤◌, ◌<◌, ◌≡◌, refl, sym, subst, ap, ◌∙◌, ◌⊎◌, Bool, true, List, [], ◌∷◌, ◌++◌,
  length, take, drop, arith, append_assoc, append-nil, take-append-drop, length-take, length-append,
  Bool-cases, inl, inr,
}
use native.Mathlib.Nat.{zero-add, suc-add}
use f2p.Compress.{Zstd, ZstdParams, IsLossless}
use f2p.Compress.Duplex.{
  ZstdDuplex, WriteEnd, written, write_error, write_chunk, write_loop, write, choose_payload,
  max_stored_len,
}
use f2p.Compress.Duplex.Frames.{
  frame, Holds, choose_payload-Holds, write_frame_ok, write_frame_part,
}

-- The bytes of a connection are whole frames, and these carry the content, chunk by chunk.
pub data Carries (z : Zstd) : List ℕ → List ℕ → Type 0 where
  nothing : {wire content : List ℕ} → wire ≡ [] → content ≡ [] → Carries z wire content
  framed :
      {wire content : List ℕ} (flag : Bool) (payload chunk wire' content' : List ℕ)
      → Holds z flag payload chunk
      → 1 ≤ length chunk
      → length payload ≤ max_stored_len
      → Carries z wire' content'
      → wire ≡ frame flag payload ++ wire'
      → content ≡ chunk ++ content'
      → Carries z wire content

-- A round that succeeds puts the frame of its chunk on the wire.
write_chunk_ok :
    (z : Zstd) (p : ZstdParams) (d : ZstdDuplex) (chunk : List ℕ)
    → (write_chunk z p d chunk).1 ≡ true
    → (write_chunk z p d chunk).0.base.wire
      ≡ d.base.wire ++ frame (choose_payload z p chunk).0 (choose_payload z p chunk).1
unfolding write_chunk
write_chunk_ok z p d chunk h =
    ground (arith, write_frame_ok d.base (choose_payload z p chunk).0 (choose_payload z p chunk).1)

-- A first part of the frame of a chunk that `rest` begins with.
pub record IsPart (z : Zstd) (part rest : List ℕ) : Type 0 where
  pub flag : Bool
  pub payload : List ℕ
  pub chunk : List ℕ
  pub missing : List ℕ
  pub later : List ℕ
  pub holds : Holds z flag payload chunk
  pub some_bytes : 1 ≤ length chunk
  pub cut : part ++ missing ≡ frame flag payload
  pub next : chunk ++ later ≡ rest

-- However a round ends, it puts a first part of its chunk's frame on the wire.
write_chunk-IsPart :
    (z : Zstd) (p : ZstdParams) (d : ZstdDuplex) (chunk later : List ℕ)
    → IsLossless z
    → 1 ≤ length chunk
    → (part : List ℕ) × ((write_chunk z p d chunk).0.base.wire ≡ d.base.wire ++ part)
      × IsPart z part (chunk ++ later)
unfolding write_chunk
write_chunk-IsPart z p d chunk later ok some_bytes =
    let (part, missing, cut, e) =
      write_frame_part d.base (choose_payload z p chunk).0 (choose_payload z p chunk).1 in
    (
      part,
      ground (arith, e),
      record {
        flag = (choose_payload z p chunk).0;
        payload = (choose_payload z p chunk).1;
        chunk = chunk;
        missing = missing;
        later = later;
        holds = choose_payload-Holds z p chunk ok;
        some_bytes = some_bytes;
        cut = cut;
        next = refl;
      },
    )

-- How far a `Write` came: whole frames for the first `count` bytes, and after an error a first part
-- of the frame of the next bytes.
pub record Progress (z : Zstd) (before after bytes : List ℕ) (end : WriteEnd) (count : ℕ)
    : Type 0 where
  pub wire : List ℕ
  pub tail : List ℕ
  pub sent : after ≡ before ++ (wire ++ tail)
  pub carries : Carries z wire (take count bytes)
  pub ended :
      ((end ≡ written) × (count ≡ length bytes) × (tail ≡ []))
      ⊎ ((end ≡ write_error) × (count < length bytes) × IsPart z tail (drop count bytes))

take_after :
    (c k : ℕ) (xs : List ℕ) → take (length (take c xs) + k) xs ≡ take c xs ++ take k (drop c xs)
take_after zero k xs = rw zero-add
take_after (suc c) k [] = rw zero-add
take_after (suc c) k (x ∷ xs) = rw suc-add (ap (λ l. x ∷ l) (take_after c k xs))

drop_after : (c k : ℕ) (xs : List ℕ) → drop (length (take c xs) + k) xs ≡ drop k (drop c xs)
drop_after zero k xs = rw zero-add refl
drop_after (suc c) k [] = rw zero-add refl
drop_after (suc c) k (x ∷ xs) = rw suc-add (drop_after c k xs)

length_cut : (c : ℕ) (xs : List ℕ) → length xs ≡ length (take c xs) + length (drop c xs)
length_cut c xs = ap length (sym (take-append-drop c xs)) ∙ length-append (take c xs) (drop c xs)

-- One chunk more in front of what a `Write` did with the rest.
prepend :
    (z : Zstd) (flag : Bool) (payload chunk left before mid after bytes : List ℕ) (end : WriteEnd)
    (k : ℕ)
    → Holds z flag payload chunk
    → 1 ≤ length chunk
    → length chunk ≤ max_stored_len
    → mid ≡ before ++ frame flag payload
    → take (length chunk + k) bytes ≡ chunk ++ take k left
    → drop (length chunk + k) bytes ≡ drop k left
    → length bytes ≡ length chunk + length left
    → Progress z mid after left end k
    → Progress z before after bytes end (length chunk + k)
prepend z flag payload chunk left before mid after bytes end k holds some_bytes fits e t dr cut pr =
    record {
      wire = frame flag payload ++ pr.wire;
      tail = pr.tail;
      sent =
          pr.sent
          ∙ rw (
            e,
            append_assoc before (frame flag payload) (pr.wire ++ pr.tail),
            append_assoc (frame flag payload) pr.wire pr.tail,
          );
      carries =
          framed flag payload chunk pr.wire (take k left) holds some_bytes
            (omega (arith, holds.shorter)) pr.carries refl t;
      ended = elim pr.ended [
        | inl (w, all, nil) ↦ inl (w, omega (arith, all, cut), nil)
        | inr (w, less, part) ↦
            inr (w, omega (arith, less, cut), subst (IsPart z pr.tail) (sym dr) part)
      ];
    }

module _ (z : Zstd) (p : ZstdParams) (ok : IsLossless z) (pos : 1 ≤ p.chunk_size)
    (small : p.chunk_size ≤ max_stored_len) where
  write_loop-Progress :
      (fuel : ℕ) (d : ZstdDuplex) (bytes : List ℕ) (n : ℕ)
      → length bytes ≤ fuel
      → (k : ℕ) × ((write_loop fuel z p d bytes n).count ≡ n + k)
        × Progress z d.base.wire
            (write_loop fuel z p d bytes n).duplex.base.wire
            bytes
            (write_loop fuel z p d bytes n).end
            k
  unfolding write_loop
  write_loop-Progress fuel d [] n h = (
    0,
    omega arith,
    record {
      wire = [];
      tail = [];
      sent = sym (append-nil d.base.wire);
      carries = nothing refl refl;
      ended = inl (refl, refl, refl);
    },
  )
  write_loop-Progress zero d (b ∷ bytes) n h = absurd (omega arith)
  write_loop-Progress (suc fuel) d (b ∷ bytes) n h =
      let chunk : List ℕ = take p.chunk_size (b ∷ bytes) in
      let left : List ℕ = drop p.chunk_size (b ∷ bytes) in
      let cut = length_cut p.chunk_size (b ∷ bytes) in
      let size = length-take p.chunk_size (b ∷ bytes) in
      let d' : ZstdDuplex = (write_chunk z p d chunk).0 in
      let (k, counted, pr) =
        write_loop-Progress fuel d' left (n + length chunk) (omega (arith, cut, size)) in
      elim (Bool-cases (write_chunk z p d chunk).1) [
        | inl done ↦ rw done (
          length chunk + k,
          omega (arith, counted),
          prepend z (choose_payload z p chunk).0 (choose_payload z p chunk).1 chunk left d.base.wire
              d'.base.wire _ (b ∷ bytes) _ k (choose_payload-Holds z p chunk ok)
              (omega (arith, size)) (omega (arith, size)) (write_chunk_ok z p d chunk done)
              (take_after p.chunk_size k (b ∷ bytes)) (drop_after p.chunk_size k (b ∷ bytes)) cut
              pr,
        )
        | inr stop ↦
            let (tail, e, part) = write_chunk-IsPart z p d chunk left ok (omega (arith, size)) in
            rw stop (
              0,
              omega arith,
              record {
                wire = [];
                tail = tail;
                sent = e;
                carries = nothing refl refl;
                ended = inr (
                  refl,
                  omega arith,
                  subst (IsPart z tail) (take-append-drop p.chunk_size (b ∷ bytes)) part,
                );
              },
            )
      ]

  -- With a lossless library, and a chunk size between 1 and the largest payload that a reader
  -- accepts, `Write` ends on every argument and outcome of the connection's writes. It puts whole
  -- frames, each of a non-empty chunk, for the first `count` bytes on the wire, behind what stood
  -- there. Then it reports either all its bytes, with nothing more on the wire, or an error with
  -- fewer bytes, with a first part (perhaps empty) of the frame of a chunk that the next byte starts.
  pub write-Progress :
      (d : ZstdDuplex) (bytes : List ℕ)
      → Progress z d.base.wire
          (write z p d bytes).duplex.base.wire
          bytes
          (write z p d bytes).end
          (write z p d bytes).count
  unfolding write
  write-Progress d bytes =
      let (k, counted, pr) = write_loop-Progress (length bytes) d bytes 0 (omega arith) in
      let same : (write_loop (length bytes) z p d bytes 0).count ≡ k = omega (arith, counted) in
      rw same pr
