-- ===== src/Client/CycleTests.antt =====
-- The theorems about the client's connections at concrete inputs.
use f2p.Prelude.{
  All, ◌≢◌, ◌+◌, ◌≡◌, refl, subst, ◌++◌, true, false, List, [], ◌∷◌, none, some, arith,
}
use f2p.Prelude.Maps.{delete, elem}
use f2p.Message.{service_request_message, auth_response_message, password_required_message, ping}
use f2p.Config.{Config, ServiceConfig, LocalServiceConfig, of_parts}
use f2p.Config.Saving.{no_client}
use f2p.Config.Setup.{create_default_common_config}
use f2p.Holepunch.{cone, symmetric_hard, NatInfo, sym_to_cone, determine_punch_method}
use f2p.Holepunch.Sockets.{Net, is_open}
use f2p.Holepunch.Sockets.Held.{IsFresh}
use f2p.Holepunch.Punch.{Outside}
use f2p.Holepunch.Signaling.{Signaled, signaled}
use f2p.Server.{answer_message, new_registry, validate_service_request}
use f2p.Client.{verified, Client, typed}
use f2p.Client.Services.{server_answers}
use f2p.Client.Listeners.{
  Listens, local_services, start_local_services, start_local_services-Listens,
}
use f2p.Client.Connection.{Connection}
use f2p.Client.Monitor.{monitor_loop, heartbeat_limit, message, heartbeat_timeout}
use f2p.Client.Monitor.Answers.{pings, every_ten_seconds, silent_server_given_up}
use f2p.Client.HolePunch.{World, Punched, attempt_hole_punch}
use f2p.Client.HolePunch.Leaks.{remains}
use f2p.Client.HolePunch.Attempts.{used_info, attempt_hole_punch-remains}
use f2p.Client.Connecting.{verify_service_configuration, Link, SetupWorld}
use f2p.Client.Cycles.{Cycle, waiting_failed, connect_to_server, Round, start_connection_manager}
use f2p.Client.Cycles.Ends.{connect_to_server-HasEnd}
use f2p.Client.Cycles.Intervals.{Follows, start_connection_manager-Follows}

abbrev new_client : Client
new_client = record {
  service_compress = [];
  cached_server_password = "";
  has_cached_server_password = false;
  backoff = 1_000_000_000;
  backoff_max = 60_000_000_000;
}

abbrev unconnected : Connection
unconnected = record {
  control_stream = none;
  control_messager = none;
  control_dispatcher = some 4;
  quic_ctrl_close = some 4;
  direct_conn = some 3;
  nat = record { nat_info = none; nat_detected = false };
  shutdown_reason = "";
  stopping = false;
  cancelled = false;
  services_started = false;
  closed_streams = [];
  closed_dispatchers = [];
  closed_conns = [];
  peer_closes = 0;
  notices = 0;
}

abbrev no_net : Net
no_net = record { next = 0; opened = []; sent = []; refusals = true ∷ [] }

abbrev link : Link
link = record { conn = unconnected; client = new_client; net = no_net }

abbrev web : ServiceConfig
web = record {
  name = "web";
  target = "127.0.0.1:80";
  password = "";
  protocol = "tcp" ∷ [];
  enabled = true;
  compress = some true;
}

abbrev local_web : LocalServiceConfig
local_web = record {
  name = "web";
  local = "127.0.0.1:8080";
  password = "";
  protocol = "tcp" ∷ [];
  enabled = true;
}

abbrev my_server : Config
my_server =
    of_parts true (record { private_key = "k"; peer_id = "p" })
      (record { password_hash = ""; compress = true; services = web ∷ [] }) no_client
      create_default_common_config

abbrev setup : SetupWorld
setup = record {
  stream = some 9;
  type_written = true;
  asked = some (password_required_message false);
  prompt = typed "";
  auth_sent = true;
  auth_answer = some (auth_response_message true "");
  answers = λ name protocol password. (
    true,
    some (
        answer_message (
          validate_service_request my_server (new_registry my_server)
            (service_request_message name protocol password))),
  );
}

abbrev silence : Outside
silence = record { start = 0; waits = []; port_draws = λ i. i; round_draws = λ i. i }

abbrev far_nat : NatInfo
far_nat = record { type = cone; public_ip = "192.0.2.1"; public_port = 5000 }

abbrev client_nat : NatInfo
client_nat = record { type = symmetric_hard; public_ip = "198.51.100.7"; public_port = 6000 }

abbrev found : Signaled
found = record { nat = far_nat; token = 1 ∷ []; method = sym_to_cone; tid = 9 }

abbrev outside : World
outside = record {
  detected = some client_nat;
  signaling = signaled found;
  stun = none;
  punch = silence;
  dial = record { dialed = false; stream_opened = false; token_written = false; response = [] };
  conn = 6;
}

abbrev cycle : Cycle
cycle = record {
  found = true;
  connects = true;
  conns = true ∷ false ∷ [];
  now = 0;
  polls = [];
  attempts = λ k. outside;
  setup = setup;
}

-- The method that the server has chosen.
chosen_method : found.method ≡ determine_punch_method client_nat.type far_nat.type
unfolding determine_punch_method
chosen_method = refl

abbrev punching : Punched
punching = record { nat = unconnected.nat; direct_conn = none; net = no_net }

no_net-IsFresh : IsFresh no_net
unfolding is_open elem
no_net-IsFresh x h = refl

method_agreed :
    (info : NatInfo) (f : Signaled)
    → used_info outside punching.nat ≡ some info
    → outside.signaling ≡ signaled f
    → f.method ≡ determine_punch_method info.type f.nat.type
method_agreed info f d e =
    let i : client_nat ≡ info = cc in
    let g : found ≡ f = cc in
    subst (λ (x : NatInfo). f.method ≡ determine_punch_method x.type f.nat.type) i
      (subst (λ (y : Signaled). y.method ≡ determine_punch_method client_nat.type y.nat.type) g
        chosen_method)

attempt_hole_punch-remains_example :
    is_open 0 (attempt_hole_punch outside punching).0.net
    ≡ remains (attempt_hole_punch outside punching).1 no_net 0
attempt_hole_punch-remains_example =
    attempt_hole_punch-remains outside punching no_net-IsFresh method_agreed 0

abbrev failing : Round
failing = record {
  done_at_start = false;
  cycle = record cycle { connects = false };
  done_after = false;
  done_in_wait = false;
}

abbrev tries : List Round
tries = failing ∷ failing ∷ failing ∷ []

start_connection_manager-Follows_example :
    Follows 1_000_000_000 60_000_000_000
      (start_connection_manager tries (local_web ∷ []) link).intervals
      tries
start_connection_manager-Follows_example =
    start_connection_manager-Follows tries (local_web ∷ []) link

silent_server_given_up_example :
    monitor_loop
      (pings (every_ten_seconds 7 3) ++ ((60000, message ping true) ∷ []))
      (7 + heartbeat_limit)
      0
    ≡ record { acks = 3; end_of = heartbeat_timeout }
silent_server_given_up_example =
    silent_server_given_up 3 7 60000 (message ping true) [] (omega arith)

connect_to_server-HasEnd_example :
    (connect_to_server cycle (local_web ∷ []) link).1 ≢ waiting_failed
connect_to_server-HasEnd_example = connect_to_server-HasEnd cycle (local_web ∷ []) link

all_verified :
    verify_service_configuration (server_answers my_server) (local_web ∷ []) new_client
    ≡ verified (record new_client { service_compress = ("web", true) ∷ [] })
unfolding verify_service_configuration answer_message validate_service_request new_registry delete
all_verified = refl

start_local_services-Listens_example :
    All
      (Listens my_server (record new_client { service_compress = ("web", true) ∷ [] }))
      (start_local_services (local_services (local_web ∷ []) []))
start_local_services-Listens_example =
    start_local_services-Listens my_server (local_web ∷ []) new_client
      (record new_client { service_compress = ("web", true) ∷ [] }) all_verified
