-- ===== src/Client/Connecting.antt =====
-- internal/client: connectToServer and the two set-ups of connect.go, verifyServiceConfiguration of
-- handshake.go, and the connection manager of client.go. Times are in milliseconds, but the back-off
-- is in nanoseconds.

use f2p.Prelude.{ℕ, Bool, true, List, [], ◌∷◌, Option, none, some, if◌then◌else◌, String}
use f2p.Proto.{UnifiedMessage}
use f2p.Config.{LocalServiceConfig}
use f2p.Holepunch.Sockets.{Net}
use f2p.Client.{
  Client, AuthOutcome, logged_in, user_left, Prompt, authenticate_with_server, Check, Verification,
  verified, not_verified, verify_service,
}
use f2p.Client.Connection.{Connection, set_shutdown_reason}

-- The client with its connection and its sockets.
pub record Link : Type 0 where
  pub conn : Connection
  pub client : Client
  pub net : Net

-- What the server answers to the check of a service: is the request sent, and the response.
abbrev pub Answers : Type 0
Answers = String → String → String → Bool × Option UnifiedMessage

-- verifyServiceConfiguration: every protocol of every enabled service, until one fails.
unfoldable pub verify_protocols : Answers → String → String → List String → Client → Verification
unfolding verify_service
verify_protocols ask name password [] c = verified c
verify_protocols ask name password (p ∷ ps) c =
    let (sent_ok, resp) = ask name p password in
    elim (verify_service name sent_ok resp c) [
      | verified c' ↦ verify_protocols ask name password ps c'
      | not_verified f ↦ not_verified f
    ]

unfoldable pub verify_service_configuration :
    Answers → List LocalServiceConfig → Client → Verification
unfolding verify_protocols
verify_service_configuration ask [] c = verified c
verify_service_configuration ask (s ∷ ss) c =
    elim (if s.enabled then verify_protocols ask s.name s.password s.protocol c else verified c) [
      | verified c' ↦ verify_service_configuration ask ss c'
      | not_verified f ↦ not_verified f
    ]

-- What a set-up meets: the control stream and the write of its type, the server's side of the
-- authentication, the user, and the server's answers to the checks.
pub record SetupWorld : Type 0 where
  pub stream : Option ℕ
  pub type_written : Bool
  pub asked : Option UnifiedMessage
  pub prompt : Prompt
  pub auth_sent : Bool
  pub auth_answer : Option UnifiedMessage
  pub answers : Answers

pub data SetupEnd : Type 0 where
  connected no_direct_conn no_stream type_not_written auth_cancelled : SetupEnd
  auth_failed : AuthOutcome → SetupEnd
  services_not_verified : Check → SetupEnd

abbrev close_ctrl : ℕ → Connection → Connection
close_ctrl s c = record c { closed_streams = s ∷ c.closed_streams }

-- After the verification of the services: the local services are started (once only), or the client
-- is shut down.
unfoldable pub after_verification : ℕ → Link → Client → Verification → Link × SetupEnd
unfolding set_shutdown_reason
after_verification stream l c (verified c') =
    (record l { conn = record l.conn { services_started = true }; client = c' }, connected)
after_verification stream l c (not_verified f) = (
  record l {
    conn =
        record (set_shutdown_reason "service verification failed (configuration error)"
          (close_ctrl stream l.conn)) { cancelled = true };
    client = c;
  },
  services_not_verified f,
)

-- After the authentication.
unfoldable pub finish_setup :
    SetupWorld → List LocalServiceConfig → ℕ → Link → Client × AuthOutcome → Link × SetupEnd
unfolding verify_service_configuration after_verification set_shutdown_reason
finish_setup w services stream l (c, logged_in) =
    after_verification stream l c (verify_service_configuration w.answers services c)
finish_setup w services stream l (c, user_left) = (
  record l {
    conn = record (set_shutdown_reason "user interrupt (password input)" l.conn) {
      cancelled = true;
    };
    client = c;
  },
  auth_cancelled,
)
finish_setup w services stream l (c, failure) =
    (record l { conn = close_ctrl stream l.conn; client = c }, auth_failed failure)

abbrev pub auth_of : SetupWorld → Client → Client × AuthOutcome
auth_of w c =
    let (sent, c', o) = authenticate_with_server w.asked w.prompt w.auth_sent w.auth_answer c in
    (c', o)

-- The control stream, its messager and its dispatcher are set.
abbrev pub on_quic : ℕ → Connection → Connection
on_quic s c = record c {
  control_stream = none;
  quic_ctrl_close = some s;
  control_messager = some s;
  control_dispatcher = some s;
}

abbrev pub on_libp2p : ℕ → Connection → Connection
on_libp2p s c = record c {
  control_stream = some s;
  control_messager = some s;
  control_dispatcher = some s;
}

-- setupQUICProtocol: the control stream is opened on the direct connection.
unfoldable pub setup_quic_protocol : SetupWorld → List LocalServiceConfig → Link → Link × SetupEnd
unfolding finish_setup authenticate_with_server
setup_quic_protocol w services l = elim l.conn.direct_conn [
  | none ↦ (l, no_direct_conn)
  | some q ↦ elim w.stream [
    | none ↦ (l, no_stream)
    | some s ↦
        if w.type_written
        then finish_setup w services s (record l { conn = on_quic s l.conn }) (auth_of w l.client)
        else (record l { conn = close_ctrl s l.conn }, type_not_written)
  ]
]

-- setupLibp2pProtocol.
unfoldable pub setup_libp2p_protocol : SetupWorld → List LocalServiceConfig → Link → Link × SetupEnd
unfolding finish_setup authenticate_with_server
setup_libp2p_protocol w services l = elim w.stream [
  | none ↦ (l, no_stream)
  | some s ↦ finish_setup w services s (record l { conn = on_libp2p s l.conn }) (auth_of w l.client)
]
