-- ===== src/Compress/Duplex/Stream.antt =====
-- Many `Read` calls on the connection that a `Write` filled.
use f2p.Prelude.{
  ℕ, ◌≤◌, ◌≡◌, refl, sym, ap, ◌∙◌, subst, List, [], ◌∷◌, ◌++◌, length, take, arith, append-nil,
  length-append, take_all, inl, inr, All,
}
use mathlib.Core.List.{append_cancel_left}
use f2p.Compress.{Zstd, ZstdParams, IsLossless}
use f2p.Compress.Duplex.{
  ZstdDuplex, written, write, max_stored_len, took, eof, read_error, read, read_next,
}
use f2p.Compress.Duplex.Writing.{Carries, nothing, framed, write-Progress}
use f2p.Compress.Duplex.Reading.{Pending, read-Takes}

-- Reads with buffers of the sizes ns, up to the first that gives no bytes.
unfoldable pub read_many : Zstd → ZstdDuplex → List ℕ → List ℕ
read_many z d [] = []
read_many z d (n ∷ ns) = elim (read z d n) [
  | took bytes d' ↦ bytes ++ read_many z d' ns
  | eof d' ↦ []
  | read_error ↦ []
]

read_many-took :
    (z : Zstd) (d d' : ZstdDuplex) (n : ℕ) (ns bytes : List ℕ)
    → read z d n ≡ took bytes d'
    → read_many z d (n ∷ ns) ≡ bytes ++ read_many z d' ns
unfolding read_many
read_many-took z d d' n ns bytes e = rw (e, read_many) refl

-- Nothing is pending: the buffer and the connection are empty.
drained : (z : Zstd) (d : ZstdDuplex) → Pending z d [] → (d.read_buf ≡ []) × (d.inbox ≡ [])
drained z d p = go d.read_buf refl p.carries p.whole
  where
    no_frame : {wire carried : List ℕ} → carried ≡ [] → Carries z wire carried → wire ≡ []
    no_frame e (nothing w n) = w
    no_frame e (framed flag payload chunk wire' content' holds one size rest w split) =
        absurd (omega (arith, ap length (sym e ∙ split), length-append chunk content'))

    go :
        (buf : List ℕ)
        → d.read_buf ≡ buf
        → Carries z d.inbox p.carried
        → [] ≡ d.read_buf ++ p.carried
        → (d.read_buf ≡ []) × (d.inbox ≡ [])
    go [] e carries w = (e, no_frame (sym (rw e at w)) carries)
    go (b ∷ buf) e carries w = absurd (omega (arith, ap length (w ∙ ap (λ x. x ++ p.carried) e)))

read_drained :
    (z : Zstd) (d : ZstdDuplex) (n : ℕ) → (d.read_buf ≡ []) × (d.inbox ≡ []) → read z d n ≡ eof d
unfolding read read_next
read_drained z d n (e, i) = ground (arith, e, i)

read_many_lem :
    (z : Zstd) (ns : List ℕ) (d : ZstdDuplex) (content : List ℕ)
    → Pending z d content
    → All (λ n. 1 ≤ n) ns
    → length content ≤ length ns
    → read_many z d ns ≡ content
unfolding read_many
read_many_lem z [] d [] p pos enough = refl
read_many_lem z [] d (b ∷ content) p pos enough = absurd (omega arith)
read_many_lem z (n ∷ ns) d [] p pos enough = rw (read_drained z d n (drained z d p), read_many) refl
read_many_lem z (n ∷ ns) d (b ∷ content) p (one, pos) enough =
    let t = read-Takes z d n (b ∷ content) one (omega arith) p in
    let shorter = ap length t.front ∙ length-append t.bytes t.content' in
    let less : length t.content' ≤ length ns = omega (arith, shorter, t.some_bytes, enough) in
    read_many-took z d t.after n ns t.bytes t.result
    ∙ (ap (λ l. t.bytes ++ l) (read_many_lem z ns t.after t.content' t.pending pos less)
        ∙ sym t.front)

-- A lossless library, and a chunk size between 1 and the largest payload a reader accepts: when a
-- `Write` reports success and a reader with an empty buffer has exactly what it sent before it, then
-- as many non-empty reads as there are bytes give the written bytes, in order and whole, whatever
-- the sizes of the reads, and whichever chunks were compressed.
pub read_many-write :
    (z : Zstd) (p : ZstdParams) (d r : ZstdDuplex) (bytes ns : List ℕ)
    → IsLossless z
    → 1 ≤ p.chunk_size
    → p.chunk_size ≤ max_stored_len
    → (write z p d bytes).end ≡ written
    → (write z p d bytes).duplex.base.wire ≡ d.base.wire ++ r.inbox
    → r.read_buf ≡ []
    → All (λ n. 1 ≤ n) ns
    → length bytes ≤ length ns
    → read_many z r ns ≡ bytes
read_many-write z p d r bytes ns ok pos small done arrives empty sizes enough =
    let pr = write-Progress z p ok pos small d bytes in
    elim pr.ended [
      | inl (w, all, nil) ↦
          let sent =
            append_cancel_left d.base.wire r.inbox (pr.wire ++ pr.tail) (sym arrives ∙ pr.sent) in
          let inbox : r.inbox ≡ pr.wire = sent ∙ rw nil (append-nil pr.wire) in
          let whole : take (write z p d bytes).count bytes ≡ bytes =
            take_all (write z p d bytes).count bytes (omega (arith, all)) in
          read_many_lem z ns r bytes
            (record {
              carried = bytes;
              carries =
                  subst (λ w. Carries z w bytes) (sym inbox)
                    (subst (λ c. Carries z pr.wire c) whole pr.carries);
              whole = rw empty refl;
            })
            sizes enough
      | inr (w, less, part) ↦ absurd (cc (w, done))
    ]
