-- ===== src/Server/Tests.antt =====
-- The server's theorems at concrete inputs.
use f2p.Prelude.{
  false, Bool, ◌≡◌, inr, refl, ◌⊎◌, true, List, [], ◌∷◌, some, arith, String, str_eq, eq_iff,
}
use f2p.Proto.{UnifiedMessage, auth_request}
use f2p.Message.{service_request_message, auth_request_message, ping}
use f2p.Prelude.Maps.{elem}
use f2p.Holepunch.{cone, NatInfo, cone_to_cone}
use f2p.Holepunch.Sockets.{Net, is_open}
use f2p.Holepunch.Sockets.Held.{IsFresh}
use f2p.Holepunch.Punch
use f2p.Holepunch.Direct.{AcceptOutside}
use f2p.Holepunch.Signaling.{Prepared}
use f2p.Config.{Config, ServiceConfig, of_parts}
use f2p.Server.Shutdown.{IsNotified, stop, stop-IsNotified}
use f2p.Server.Data.{dial_failed, forwarded, handle_data_connection}
use f2p.Server.Data.Granted.{Entitled, dialed-Entitled}
use f2p.Server.Direct.{Direct, handle_punch_and_quic}
use f2p.Server.Direct.Leaks.{left_open, handle_punch_and_quic_open}
use f2p.Config.Saving.{no_client}
use f2p.Config.Setup.{create_default_common_config, create_default_server_services}
use f2p.Config.Passwords.{Bcrypt, Hashes, hash_password}
use f2p.Server.{new_registry, validate_service_request}
use f2p.Server.Requests.{Answered}
use f2p.Server.Requests.Decision.{validate_service_request-Answered}
use f2p.Server.Auth.{authenticated, handle_auth_on_control, authenticated_password}
use f2p.Server.Heartbeat.{Beat, tick, arrives}
use f2p.Server.Sessions.{
  session_of, quic_session, handle_quic_control_stream, handle_quic_data_stream, resets, serves,
  handle_data_stream, end_monitor,
}
use f2p.Server.Sessions.Ended.{quic_session_lost}
use f2p.Server.Sessions.Runs.{
  quic_finished, Change, opened, finished, after, Authenticated, handle_data_stream-Authenticated,
}

abbrev secret : String
secret = "secret"

abbrev my_server : Config
my_server =
    of_parts true (record { private_key = "k"; peer_id = "p" })
      (record {
        password_hash = "$2a$";
        compress = true;
        services = create_default_server_services;
      })
      no_client create_default_common_config

abbrev ask : UnifiedMessage
ask = service_request_message "something" "tcp" "123"

validate_service_request-Answered_example :
    Answered my_server ask (validate_service_request my_server (new_registry my_server) ask)
validate_service_request-Answered_example = validate_service_request-Answered my_server ask

abbrev plain : Bcrypt
plain = record { generate = λ password. "$2a$"; compare = λ stored other. str_eq other "secret" }

plain-Hashes : Hashes plain secret
plain-Hashes = record {
  is_hash = λ e. ground (arith, eq_iff "$2a$" "", e);
  compares = λ other. eq_iff other secret;
}

let_in :
    (handle_auth_on_control plain my_server true (some (auth_request_message secret)) true).1
    ≡ authenticated
unfolding handle_auth_on_control
let_in = refl

stored_hash : my_server.server.password_hash ≡ hash_password plain secret
unfolding hash_password
stored_hash = refl

authenticated_password_example :
    (m : UnifiedMessage) × (some (auth_request_message secret) ≡ some m)
    × (m.type ≡ auth_request)
    × (m.password ≡ secret)
authenticated_password_example =
    authenticated_password plain my_server true true (some (auth_request_message secret)) secret
      plain-Hashes stored_hash (λ e. ground (arith, eq_iff secret "", e)) let_in

abbrev silence : List Beat
silence = tick true ∷ arrives ping ∷ tick true ∷ tick true ∷ arrives ping ∷ []

-- Peer 7 is authenticated on stream 1 and replaces it by stream 2.
abbrev two_streams : List Change
two_streams = opened 7 2 ∷ finished 7 1 true ∷ opened 7 1 ∷ []

handle_data_stream-Authenticated_example :
    (handle_data_stream 7 true (after two_streams) ≡ resets)
    ⊎ ((handle_data_stream 7 true (after two_streams) ≡ serves true) × Authenticated 7 two_streams)
handle_data_stream-Authenticated_example = handle_data_stream-Authenticated 7 true two_streams

-- Peer 7 is authenticated on a QUIC stream.
abbrev direct : List Change
direct = quic_finished 7 1 true ∷ []

direct_session : session_of 7 (after direct) ≡ some (quic_session 7 1)
unfolding after
direct_session = refl

quic_session_lost_example :
    handle_quic_data_stream 7 true
      (end_monitor (quic_session 7 1) (handle_quic_control_stream 7 2 (after direct)))
    ≡ resets
quic_session_lost_example =
    quic_session_lost (quic_session 7 1) 2 true (after direct) direct_session refl

abbrev web : ServiceConfig
web = record {
  name = "web";
  target = "127.0.0.1:80";
  password = "";
  protocol = "tcp" ∷ [];
  enabled = true;
  compress = some false;
}

abbrev web_server : Config
web_server = record my_server { server = record my_server.server { services = web ∷ [] } }

abbrev no_target : String → String → Bool
no_target protocol target = false

dialed_web :
    (handle_data_connection web_server
      (new_registry web_server)
      no_target
      true
      true
      (some (service_request_message "web" "tcp" ""))
      true).end_of
    ≡ forwarded (dial_failed "tcp" "127.0.0.1:80")
unfolding handle_data_connection new_registry
dialed_web = refl

abbrev tcp : String
tcp = "tcp"

dialed-Entitled_example :
    (s : ServiceConfig) × Entitled web_server (service_request_message "web" "tcp" "") s
    × (s.target ≡ "127.0.0.1:80")
    × (tcp ≡ tcp)
    × ((tcp ≡ "tcp") ⊎ (tcp ≡ "udp"))
dialed-Entitled_example =
    dialed-Entitled web_server no_target true true (service_request_message "web" "tcp" "") true
      (dial_failed "tcp" "127.0.0.1:80") tcp "127.0.0.1:80" dialed_web (inr refl)

-- The server's side of a punch that never hears anything.
abbrev nat : NatInfo
nat = record { type = cone; public_ip = "192.0.2.1"; public_port = 5000 }

abbrev prepared : Prepared
prepared = record { my_nat = nat; client_nat = nat; method = cone_to_cone; tid = 9 }

abbrev silent : Punch.Outside
silent = record { start = 0; waits = []; port_draws = λ i. i; round_draws = λ i. i }

abbrev one_socket : Net
one_socket = record { next = 1; opened = 0 ∷ []; sent = []; refusals = [] }

one_socket-IsFresh : IsFresh one_socket
unfolding is_open elem
one_socket-IsFresh x h = ground arith

socket_open : is_open 0 one_socket ≡ true
unfolding is_open elem
socket_open = refl

abbrev no_client_comes : AcceptOutside
no_client_comes = record { accepted = false; stream_accepted = false; incoming = [] }

abbrev unheard : Net × Direct
unheard = handle_punch_and_quic silent true no_client_comes (1 ∷ []) prepared (some 0) one_socket

handle_punch_and_quic_open_example : is_open 0 unheard.0 ≡ left_open unheard.1 (some 0) one_socket 0
handle_punch_and_quic_open_example =
    handle_punch_and_quic_open silent true no_client_comes (1 ∷ []) prepared (some 0) one_socket
      one_socket-IsFresh socket_open 0

stop-IsNotified_example : IsNotified (after direct).authenticated_clients (stop (after direct))
stop-IsNotified_example = stop-IsNotified (after direct)
