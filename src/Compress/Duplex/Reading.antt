-- ===== src/Compress/Duplex/Reading.antt =====
-- `ZstdDuplex.Read` on a connection that carries whole frames, whatever the sizes of its buffers.
use f2p.Prelude.{
  ℕ, ◌≤◌, ◌≡◌, refl, ap, ◌∙◌, List, [], ◌∷◌, ◌++◌, length, take, drop, arith, append_assoc,
  take-append-drop, length-take, some,
}
use f2p.Compress.{Zstd}
use f2p.Compress.Duplex.{ZstdDuplex, took, buffer_read, read, read_frame, flag_byte}
use f2p.Compress.Duplex.Frames.{read_frame-frame}
use f2p.Compress.Duplex.Writing.{Carries, nothing, framed}

-- The content that is still to be read: the buffer, and what the connection carries.
pub record Pending (z : Zstd) (d : ZstdDuplex) (content : List ℕ) : Type 0 where
  pub carried : List ℕ
  pub carries : Carries z d.inbox carried
  pub whole : content ≡ d.read_buf ++ carried

-- One `Read` into n bytes takes some of the content off its front.
pub record Takes (z : Zstd) (d : ZstdDuplex) (n : ℕ) (content : List ℕ) : Type 0 where
  pub bytes : List ℕ
  pub after : ZstdDuplex
  pub content' : List ℕ
  pub result : read z d n ≡ took bytes after
  pub some_bytes : 1 ≤ length bytes
  pub fits : length bytes ≤ n
  pub front : content ≡ bytes ++ content'
  pub pending : Pending z after content'

from_buffer :
    (d : ZstdDuplex) (n b : ℕ) (buf : List ℕ)
    → d.read_buf ≡ b ∷ buf
    → buffer_read d n ≡ took (take n (b ∷ buf)) (record d { read_buf = drop n (b ∷ buf) })
unfolding buffer_read
from_buffer d n b buf e = ground (arith, e)

front_of :
    (n b : ℕ) (buf carried : List ℕ)
    → (b ∷ buf) ++ carried ≡ take n (b ∷ buf) ++ (drop n (b ∷ buf) ++ carried)
front_of n b buf carried =
    rw (← append_assoc (take n (b ∷ buf)) (drop n (b ∷ buf)) carried, take-append-drop n (b ∷ buf))

-- A buffer that is not empty serves the read.
serve :
    (z : Zstd) (d0 d : ZstdDuplex) (n b : ℕ) (buf carried content : List ℕ)
    → 1 ≤ n
    → d.read_buf ≡ b ∷ buf
    → read z d0 n ≡ buffer_read d n
    → Carries z d.inbox carried
    → content ≡ (b ∷ buf) ++ carried
    → Takes z d0 n content
serve z d0 d n b buf carried content pos buffered e carries whole = record {
  bytes = take n (b ∷ buf);
  after = record d { read_buf = drop n (b ∷ buf) };
  content' = drop n (b ∷ buf) ++ carried;
  result = e ∙ from_buffer d n b buf buffered;
  some_bytes = omega (arith, length-take n (b ∷ buf));
  fits = omega (arith, length-take n (b ∷ buf));
  front = whole ∙ front_of n b buf carried;
  pending = record { carried = carried; carries = carries; whole = refl };
}

read_buffered :
    (z : Zstd) (d : ZstdDuplex) (n b : ℕ) (buf : List ℕ)
    → d.read_buf ≡ b ∷ buf
    → read z d n ≡ buffer_read d n
unfolding read
read_buffered z d n b buf e = ground (arith, e)

read_framed :
    (z : Zstd) (d d' : ZstdDuplex) (n x : ℕ) (inbox : List ℕ)
    → d.read_buf ≡ []
    → d.inbox ≡ x ∷ inbox
    → read_frame z d ≡ some d'
    → read z d n ≡ buffer_read d' n
unfolding read
read_framed z d d' n x inbox e f g = ground (arith, e, f, g)

not_empty : (xs : List ℕ) → 1 ≤ length xs → (b : ℕ) × (buf : List ℕ) × (xs ≡ b ∷ buf)
not_empty [] h = absurd (omega arith)
not_empty (b ∷ buf) h = (b, buf, refl)

-- While there is content, a read into at least one byte takes some of it.
pub read-Takes :
    (z : Zstd) (d : ZstdDuplex) (n : ℕ) (content : List ℕ)
    → 1 ≤ n
    → 1 ≤ length content
    → Pending z d content
    → Takes z d n content
read-Takes z d n content pos more p = go d.read_buf refl p.carries
  where
    from_frame :
        {wire carried : List ℕ}
        → d.read_buf ≡ []
        → d.inbox ≡ wire
        → content ≡ carried
        → Carries z wire carried
        → Takes z d n content
    from_frame e i c (nothing w n) = absurd (omega (arith, ap length c, ap length n))
    from_frame e i c (framed flag payload chunk wire' content' holds one size rest w split) =
        let (d', r, in_eq, buf_eq) =
          read_frame-frame z d flag payload chunk wire' holds size (i ∙ w) in
        let (b, buf, cut) = not_empty chunk one in
        serve z d d' n b buf content' content pos (buf_eq ∙ rw (e, cut) refl)
          (read_framed z d d' n (flag_byte flag) _ e (i ∙ w) r) (rw in_eq rest)
          (c ∙ (split ∙ rw cut refl))

    go : (buf : List ℕ) → d.read_buf ≡ buf → Carries z d.inbox p.carried → Takes z d n content
    go [] e carries = from_frame e refl (rw e at p.whole) carries
    go (b ∷ buf) e carries =
        serve z d d n b buf p.carried content pos e (read_buffered z d n b buf e) carries
          (rw e at p.whole)
