-- ===== src/Message/Frame/Stream.antt =====
-- Several messages over one connection: internal/message/message.go as the control stream uses it.
use f2p.Prelude.{
  ℕ, ◌≡◌, refl, sym, ◌∙◌, List, [], ◌∷◌, ◌++◌, append-nil, append_assoc, length, arith, zero, suc,
}
use f2p.Proto.{UnifiedMessage}
use f2p.Message.{Codec, IsFaithful, Conn, Received, delivered, got, send_message, receive_message}
use f2p.Message.Frame.{receive_message-send_message}

-- Every message of the list is sent in turn, and each is delivered.
abbrev pub AllDelivered : Codec → Conn → List UnifiedMessage → Type 0
AllDelivered codec c [] = Unit {0}
AllDelivered codec c (m ∷ ms) =
    ((send_message codec c m).1 ≡ delivered) × AllDelivered codec (send_message codec c m).0 ms

-- The connection after the sends.
unfoldable pub send_all : Codec → Conn → List UnifiedMessage → Conn
send_all codec c [] = c
send_all codec c (m ∷ ms) = send_all codec (send_message codec c m).0 ms

-- n reads in a row; the list ends where a read fails.
unfoldable pub receive_all : Codec → ℕ → List ℕ → List UnifiedMessage × List ℕ
receive_all codec zero bytes = ([], bytes)
receive_all codec (suc n) bytes =
    let (r, rest) = receive_message codec bytes in
    let more = receive_all codec n rest in
    elim r [ got m ↦ (m ∷ more.0, more.1) | Received.error e ↦ ([], rest) ]

receive_all_got :
    (codec : Codec) (n : ℕ) (bytes rest : List ℕ) (m : UnifiedMessage)
    → receive_message codec bytes ≡ (got m, rest)
    → receive_all codec (suc n) bytes
      ≡ (m ∷ (receive_all codec n rest).0, (receive_all codec n rest).1)
unfolding receive_all
receive_all_got codec n bytes rest m e = ground (arith, e)

-- Messages delivered one after the other are read in the same order and nothing of them is left,
-- however the connection cut the writes up.
pub receive_all-send_all :
    (codec : Codec) (ms : List UnifiedMessage) (c : Conn) (rest : List ℕ)
    → IsFaithful codec
    → AllDelivered codec c ms
    → (wire : List ℕ) × ((send_all codec c ms).outbox ≡ c.outbox ++ wire)
      × (receive_all codec (length ms) (wire ++ rest) ≡ (ms, rest))
unfolding send_all
receive_all-send_all codec [] c rest ok h =
    ([], sym (append-nil c.outbox), unfold receive_all in refl)
receive_all-send_all codec (m ∷ ms) c rest ok (h, hs) =
    let c1 : Conn = (send_message codec c m).0 in
    let (tail, out, back) = receive_all-send_all codec ms c1 rest ok hs in
    let (head, out1, back1) = receive_message-send_message codec c m (tail ++ rest) ok h in
    (
      head ++ tail,
      out ∙ rw (out1, append_assoc),
      rw append_assoc (receive_all_got codec (length ms) _ _ m back1 ∙ rw back),
    )
