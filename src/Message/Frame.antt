-- ===== src/Message/Frame.antt =====
-- What `writeFull` and the frames guarantee, for every way the connection cuts the writes up.
pub mod Stream
use f2p.Prelude.{
  ℕ, ◌+◌, ◌*◌, ◌^◌, ◌≤◌, ◌<◌, ◌≡◌, refl, sym, ap, ◌∙◌, ◌≢◌, Bool, true, false, List, [], ◌∷◌, ◌++◌,
  Option, none, some, length, take, drop, arith, All, append-nil, append_assoc, take-append-drop,
  take_all, length-drop, length-append, zero, suc, ◌%◌, ◌⊎◌, inl, inr, Bool-cases, ltb,
  Option-cases,
}
use f2p.Wire.{put_u32, get_u32, read_full, byte_at, IsU32}
use f2p.Wire.RoundTrip.{get_u32-put_u32, read_full_prefix, read_full_splits}
use f2p.Proto.{UnifiedMessage, empty_message}
use f2p.Message.{
  Codec, IsFaithful, Conn, Outcome, Status, Sent, Received, done, failed, blocked, delivered,
  waiting, got, sent_of, write_payload, Written, write_loop, write_full, send_frame, send_message,
  receive_payload, receive_sized, receive_message, max_proto_msg_size, invalid_size,
  message_too_large, write_failed, read_failed, marshal_failed,
}

-- The bytes that a finished, failed or waiting write has put on the wire.
abbrev pub IsWritten : Status → List ℕ → List ℕ → List ℕ → Type 0
IsWritten done before p after = after ≡ before ++ p
IsWritten failed before p after = (k : ℕ) × (after ≡ before ++ take k p)
IsWritten blocked before p after = (k : ℕ) × (after ≡ before ++ take k p)

-- Two cuts in a row are one cut.
take-take : (i k : ℕ) (p : List ℕ) → (j : ℕ) × (take i p ++ take k (drop i p) ≡ take j p)
take-take zero k p = (k, refl)
take-take (suc i) k [] = (0, take_all k [] (omega arith))
take-take (suc i) k (x ∷ p) = let (j, e) = take-take i k p in (suc j, ap (λ l. x ∷ l) e)

extend :
    (s : Status) (i : ℕ) (before p after : List ℕ)
    → IsWritten s (before ++ take i p) (drop i p) after
    → IsWritten s before p after
extend done i before p after e = e ∙ (append_assoc before _ _ ∙ rw (take-append-drop i p))
extend failed i before p after (k, e) =
    let (j, f) = take-take i k p in (j, e ∙ (append_assoc before _ _ ∙ rw f))
extend blocked i before p after (k, e) =
    let (j, f) = take-take i k p in (j, e ∙ (append_assoc before _ _ ∙ rw f))

write_loop-IsWritten :
    (ws : List Outcome) (p sent : List ℕ)
    → IsWritten (write_loop ws p sent).status sent p (write_loop ws p sent).sent
unfolding write_loop
write_loop-IsWritten ws [] sent = sym (append-nil sent)
write_loop-IsWritten [] (b ∷ p) sent = (0, sym (append-nil sent))
write_loop-IsWritten (w ∷ ws) (b ∷ p) sent = elim (Bool-cases w.fails) [
  | inl e ↦ rw e (w.taken, refl)
  | inr e ↦ rw e (
      extend _ w.taken sent (b ∷ p) _
        (write_loop-IsWritten ws (drop w.taken (b ∷ p)) (sent ++ take w.taken (b ∷ p))))
]

-- Whatever the outcomes of the `Write` calls are, writeFull sends a prefix of its argument, and all
-- of it when it reports success.
pub write_full-IsWritten :
    (c : Conn) (p : List ℕ) → IsWritten (write_full c p).1 c.outbox p (write_full c p).0.outbox
unfolding write_full
write_full-IsWritten c p = write_loop-IsWritten c.writes p c.outbox

-- io.Writer reports an error when it takes less than all; so a `Write` without one takes something.
abbrev pub Progresses : Outcome → Type 0
Progresses w = (1 ≤ w.taken) × (w.fails ≡ false)

write_loop_ends :
    (ws : List Outcome) (p sent : List ℕ)
    → All Progresses ws
    → length p ≤ length ws
    → (write_loop ws p sent).status ≡ done
unfolding write_loop
write_loop_ends ws [] sent h n = refl
write_loop_ends [] (b ∷ p) sent h n = absurd (omega arith)
write_loop_ends (w ∷ ws) (b ∷ p) sent (h, hs) n =
    rw h.1
      (write_loop_ends ws (drop w.taken (b ∷ p)) _ hs (omega (arith, length-drop w.taken (b ∷ p))))

-- The loop of writeFull ends: with outcomes that take a byte each and no error, as many calls as there
-- are bytes are enough to send everything.
pub write_full_ends :
    (c : Conn) (p : List ℕ)
    → All Progresses c.writes
    → length p ≤ length c.writes
    → ((write_full c p).1 ≡ done) × ((write_full c p).0.outbox ≡ c.outbox ++ p)
unfolding write_full
write_full_ends c p h n =
    let e = write_loop_ends c.writes p c.outbox h n in
    (e, rw e at (write_loop-IsWritten c.writes p c.outbox))

-- The frame of a payload, as the peer reads it.
abbrev pub frame : List ℕ → List ℕ
frame payload = put_u32 (length payload) ++ payload

write_full_done :
    (c : Conn) (p : List ℕ) → (write_full c p).1 ≡ done → (write_full c p).0.outbox ≡ c.outbox ++ p
write_full_done c p e = rw e at (write_full-IsWritten c p)

sent_of-delivered : (s : Status) → sent_of s ≡ delivered → s ≡ done
sent_of-delivered done e = refl
sent_of-delivered failed e = cc
sent_of-delivered blocked e = cc

write_payload_delivered :
    (payload : List ℕ) (r : Conn × Status)
    → (write_payload payload r).1 ≡ delivered
    → (r.1 ≡ done) × ((write_payload payload r).0.outbox ≡ r.0.outbox ++ payload)
write_payload_delivered payload (c, done) e =
    (refl, write_full_done c payload (sent_of-delivered _ e))
write_payload_delivered payload (c, failed) e = cc
write_payload_delivered payload (c, blocked) e = cc

size_below : (n : ℕ) → n ≤ max_proto_msg_size → n % 2 ^ 32 ≡ n
size_below n h = omega arith

send_frame_fits :
    (c : Conn) (payload : List ℕ)
    → length payload ≤ max_proto_msg_size
    → send_frame c payload ≡ write_payload payload (write_full c (put_u32 (length payload)))
unfolding send_frame
send_frame_fits c payload h = ground (arith, size_below (length payload) h)

send_frame_large :
    (c : Conn) (payload : List ℕ)
    → max_proto_msg_size < length payload
    → send_frame c payload ≡ (c, Sent.error (message_too_large (length payload)))
unfolding send_frame
send_frame_large c payload h = ground arith

send_frame_size :
    (c : Conn) (payload : List ℕ)
    → (send_frame c payload).1 ≡ delivered
    → length payload ≤ max_proto_msg_size
unfolding send_frame
send_frame_size c payload e = ground arith

-- A frame that is delivered is on the wire whole, and was not too large.
pub send_frame_delivered :
    (c : Conn) (payload : List ℕ)
    → (send_frame c payload).1 ≡ delivered
    → ((send_frame c payload).0.outbox ≡ c.outbox ++ frame payload)
      × (length payload ≤ max_proto_msg_size)
send_frame_delivered c payload e =
    let fits : length payload ≤ max_proto_msg_size = send_frame_size c payload e in
    let (first, second) =
      write_payload_delivered payload (write_full c (put_u32 (length payload)))
        (rw (send_frame_fits c payload fits) at e) in
    (
      rw (send_frame_fits c payload fits)
          (second ∙ rw (write_full_done c (put_u32 (length payload)) first, append_assoc)),
      fits,
    )

receive_payload_prefix :
    (codec : Codec) (payload rest : List ℕ) (m : UnifiedMessage)
    → codec.unmarshal payload ≡ some m
    → receive_payload codec (length payload) (payload ++ rest) ≡ (got m, rest)
unfolding receive_payload
receive_payload_prefix codec payload rest m e =
    rw (read_full_prefix payload rest (length payload) refl, receive_payload) (rw e)

receive_sized_prefix :
    (codec : Codec) (payload rest : List ℕ) (m : UnifiedMessage)
    → IsFaithful codec
    → codec.unmarshal payload ≡ some m
    → length payload ≤ max_proto_msg_size
    → receive_sized codec (length payload) (payload ++ rest) ≡ (got m, rest)
unfolding receive_sized
receive_sized_prefix codec [] rest m ok e h = ground (arith, ok.empty_bytes)
receive_sized_prefix codec (b ∷ p) rest m ok e h =
    ground (arith, receive_payload_prefix codec (b ∷ p) rest m e)

-- A frame that was written is read as the message of its payload, whatever bytes follow it.
pub receive_frame :
    (codec : Codec) (payload rest : List ℕ) (m : UnifiedMessage)
    → IsFaithful codec
    → codec.unmarshal payload ≡ some m
    → length payload ≤ max_proto_msg_size
    → receive_message codec (frame payload ++ rest) ≡ (got m, rest)
unfolding receive_message put_u32
receive_frame codec payload rest m ok e h =
    rw (get_u32-put_u32 (length payload) (omega arith))
      (receive_sized_prefix codec payload rest m ok e h)

-- `send_message` delivers only what `marshal` wrote.
pub send_message_delivered :
    (codec : Codec) (c : Conn) (m : UnifiedMessage)
    → (send_message codec c m).1 ≡ delivered
    → (payload : List ℕ) × (codec.marshal m ≡ some payload)
      × (length payload ≤ max_proto_msg_size)
      × ((send_message codec c m).0.outbox ≡ c.outbox ++ frame payload)
unfolding send_message
send_message_delivered codec c m e = elim (Option-cases (codec.marshal m)) [
  | inl none_eq ↦ absurd (ground arith)
  | inr (payload, p) ↦
      let (wire, size) = send_frame_delivered c payload (rw (p, send_message) at e) in
      (payload, p, size, rw (p, send_message) wire)
]

-- A message that `sendMessage` delivers is the one that `receiveMessage` reads on the other side, and
-- the bytes sent after it are left for the next read.
pub receive_message-send_message :
    (codec : Codec) (c : Conn) (m : UnifiedMessage) (rest : List ℕ)
    → IsFaithful codec
    → (send_message codec c m).1 ≡ delivered
    → (wire : List ℕ) × ((send_message codec c m).0.outbox ≡ c.outbox ++ wire)
      × (receive_message codec (wire ++ rest) ≡ (got m, rest))
receive_message-send_message codec c m rest ok e =
    let (payload, p, size, out) = send_message_delivered codec c m e in
    (frame payload, out, receive_frame codec payload rest m ok (ok.reads_back m payload p) size)

-- sendMessage refuses a message larger than 4 MiB before it writes anything.
pub send_message_large :
    (codec : Codec) (c : Conn) (m : UnifiedMessage) (payload : List ℕ)
    → codec.marshal m ≡ some payload
    → max_proto_msg_size < length payload
    → send_message codec c m ≡ (c, Sent.error (message_too_large (length payload)))
unfolding send_message
send_message_large codec c m payload p h = rw (p, send_message) (send_frame_large c payload h)
