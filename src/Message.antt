-- ===== src/Message.antt =====
-- internal/message/message.go and message_api.go: length-prefixed protobuf frames over a connection,
-- and the lifetime that each control message is given.
-- protobuf itself is a parameter, `Codec`. A connection is what the peer has sent and is not yet read,
-- what was written, and the outcomes of the coming `Write` calls.
pub mod Frame
pub mod Ttl
pub mod Dispatcher
mod Tests
use f2p.Prelude.{
  ℕ, ◌+◌, ◌*◌, ◌/◌, ◌%◌, ◌^◌, ◌≤◌, ◌≡◌, Bool, true, false, List, [], ◌∷◌, ◌++◌, Option, none, some,
  length, take, drop, ltb, ◌==◌, if◌then◌else◌, String,
}
use f2p.Prelude.Int.{ℤ, pos, pos_part, ltb_ℤ, leb_ℤ}
use f2p.Wire.{put_u32, get_u32, read_full}
use f2p.Proto.{
  UnifiedMessage, empty_message, ErrorCode, no_error, server_shutdown, client_shutdown, heartbeat,
  service_request, service_response, password_required, auth_request, auth_response,
}

-- google.golang.org/protobuf: `proto.Marshal` and `proto.Unmarshal`.
pub record Codec : Type 0 where
  pub marshal : UnifiedMessage → Option (List ℕ)
  pub unmarshal : List ℕ → Option UnifiedMessage

-- What its documentation promises: bytes that it wrote are read as the same message, and the empty
-- string of bytes is the message with no field set.
pub record IsFaithful (c : Codec) : Type 0 where
  pub reads_back :
      (m : UnifiedMessage) (bytes : List ℕ) → c.marshal m ≡ some bytes → c.unmarshal bytes ≡ some m
  pub empty_bytes : c.unmarshal [] ≡ some empty_message

pub data Error : Type 0 where
  marshal_failed write_failed read_failed unmarshal_failed : Error
  message_too_large invalid_size : ℕ → Error
  ttl_exceeds_max : ℤ → Error

-- What one call of `Write` does: it takes some bytes from the front, and may report an error.
pub record Outcome : Type 0 where
  pub taken : ℕ
  pub fails : Bool

pub record Conn : Type 0 where
  pub inbox : List ℕ
  pub outbox : List ℕ
  pub writes : List Outcome

-- A write loop has sent everything, has met an error, or still waits for a `Write` to return.
pub data Status : Type 0 where
  done failed blocked : Status

abbrev pub max_proto_msg_size : ℕ
max_proto_msg_size = 4 * 2 ^ 20

pub record Written : Type 0 where
  pub status : Status
  pub sent : List ℕ
  pub left : List Outcome

-- writeFull: `off` is the number of bytes that the earlier calls took.
unfoldable pub write_loop : List Outcome → List ℕ → List ℕ → Written
write_loop ws [] sent = record { status = done; sent = sent; left = ws }
write_loop [] (b ∷ p) sent = record { status = blocked; sent = sent; left = [] }
write_loop (w ∷ ws) (b ∷ p) sent =
    let sent' = sent ++ take w.taken (b ∷ p) in
    let rest = write_loop ws (drop w.taken (b ∷ p)) sent' in
    if w.fails then record { status = failed; sent = sent'; left = ws } else rest

unfoldable pub write_full : Conn → List ℕ → Conn × Status
unfolding write_loop
write_full c p =
    let r = write_loop c.writes p c.outbox in
    (record c { outbox = r.sent; writes = r.left }, r.status)

-- The result of a send: `waiting` while a `Write` has not returned.
pub data Sent : Type 0 where
  delivered waiting : Sent
  error : Error → Sent

abbrev pub sent_of : Status → Sent
sent_of done = delivered
sent_of failed = error write_failed
sent_of blocked = waiting

abbrev pub write_payload : List ℕ → Conn × Status → Conn × Sent
write_payload payload (c, done) = let (c', s) = write_full c payload in (c', sent_of s)
write_payload payload (c, failed) = (c, error write_failed)
write_payload payload (c, blocked) = (c, waiting)

-- The length prefix and the payload are written by one call of writeFull each.
unfoldable pub send_frame : Conn → List ℕ → Conn × Sent
send_frame c payload =
    if ltb max_proto_msg_size (length payload)
    then (c, error (message_too_large (length payload)))
    else write_payload payload (write_full c (put_u32 (length payload % 2 ^ 32)))

unfoldable pub send_message : Codec → Conn → UnifiedMessage → Conn × Sent
unfolding send_frame
send_message codec c msg = elim (codec.marshal msg) [
  | none ↦ (c, error marshal_failed)
  | some payload ↦ send_frame c payload
]

pub data Received : Type 0 where
  got : UnifiedMessage → Received
  error : Error → Received

-- The payload of a frame whose length has been read. A failed read leaves nothing behind.
unfoldable pub receive_payload : Codec → ℕ → List ℕ → Received × List ℕ
receive_payload codec len bytes = elim (read_full len bytes) [
  | none ↦ (Received.error read_failed, [])
  | some (payload, rest) ↦ elim (codec.unmarshal payload) [
    | none ↦ (Received.error unmarshal_failed, rest)
    | some msg ↦ (got msg, rest)
  ]
]

unfoldable pub receive_sized : Codec → ℕ → List ℕ → Received × List ℕ
unfolding receive_payload
receive_sized codec len bytes =
    if ltb max_proto_msg_size len
    then (Received.error (invalid_size len), bytes)
    else if len == 0
    then (got empty_message, bytes)
    else receive_payload codec len bytes

-- receiveMessage on the bytes that are to come: the result and the bytes behind the frame.
unfoldable pub receive_message : Codec → List ℕ → Received × List ℕ
unfolding receive_sized
receive_message codec (a ∷ b ∷ c ∷ d ∷ bytes) = receive_sized codec (get_u32 a b c d) bytes
receive_message codec _ = (Received.error read_failed, [])

-- Durations are nanoseconds, as time.Duration counts them.
abbrev pub milliseconds : ℕ → ℕ
milliseconds n = n * 1_000_000

abbrev pub seconds : ℕ → ℕ
seconds n = n * 1_000_000_000

abbrev pub default_ttl : ℕ
default_ttl = seconds 30

abbrev pub max_ttl : ℕ
max_ttl = seconds 60

abbrev pub min_ttl : ℕ
min_ttl = seconds 1

-- The first three tests of SendWithTTL; a time.Duration is signed. `none` is the error.
unfoldable pub clamp_ttl : ℤ → Option ℕ
clamp_ttl ttl =
    let positive = if leb_ℤ ttl (pos 0) then pos default_ttl else ttl in
    let at_least = if ltb_ℤ positive (pos min_ttl) then pos min_ttl else positive in
    if ltb_ℤ (pos max_ttl) at_least then none else some (pos_part at_least)

-- uint32(ttl / time.Millisecond), and the last guard of SendWithTTL.
unfoldable pub ttl_field : ℕ → ℕ
ttl_field ttl =
    let ms = ttl / milliseconds 1 % 2 ^ 32 in
    if ms == 0 then default_ttl / milliseconds 1 % 2 ^ 32 else ms

unfoldable pub send_with_ttl : Codec → Conn → UnifiedMessage → ℤ → Conn × Sent
unfolding clamp_ttl ttl_field
send_with_ttl codec c msg ttl = elim (clamp_ttl ttl) [
  | none ↦ (c, error (ttl_exceeds_max ttl))
  | some t ↦ send_message codec c (record msg { ttl_ms = ttl_field t })
]

abbrev pub default_control_ttl : ℤ
default_control_ttl = pos (seconds 30)

-- The messages of message_api.go; each is handed to SendWithTTL with the lifetime beside it.
abbrev pub server_shutdown_notice : UnifiedMessage
server_shutdown_notice = record empty_message {
  type = server_shutdown;
  message = "Server is shutting down gracefully";
}

abbrev pub client_shutdown_notice : UnifiedMessage
client_shutdown_notice = record empty_message {
  type = client_shutdown;
  message = "Client is shutting down gracefully";
}

abbrev pub ping : UnifiedMessage
ping = record empty_message { type = heartbeat; message = "ping" }

abbrev pub pong : UnifiedMessage
pong = record empty_message { type = heartbeat; message = "pong" }

abbrev pub heartbeat_ttl : ℤ
heartbeat_ttl = pos (seconds 10)

abbrev pub service_request_message : String → String → String → UnifiedMessage
service_request_message name protocol pwd = record empty_message {
  type = service_request;
  service_name = name;
  protocol = protocol;
  service_password = pwd;
}

abbrev pub service_response_message :
    Bool → ErrorCode → String → List (String × String) → UnifiedMessage
service_response_message ok code msg entries = record empty_message {
  type = service_response;
  success = ok;
  error_code = code;
  message = msg;
  entries = entries;
}

abbrev pub password_required_message : Bool → UnifiedMessage
password_required_message require = record empty_message {
  type = password_required;
  require_password = require;
}

abbrev pub auth_request_message : String → UnifiedMessage
auth_request_message password = record empty_message { type = auth_request; password = password }

abbrev pub auth_response_message : Bool → String → UnifiedMessage
auth_response_message ok msg = record empty_message {
  type = auth_response;
  success = ok;
  message = msg;
}
