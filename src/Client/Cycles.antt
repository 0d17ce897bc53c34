-- ===== src/Client/Cycles.antt =====
-- internal/client: connectToServer with its wait for a direct connection and its attempts to punch a
-- hole (connect.go), and the connection manager (client.go).
pub mod Ends
pub mod Modes
pub mod Branches
pub mod Handshakes
pub mod Intervals
use f2p.Prelude.{
  ◌||◌, ℕ, zero, suc, ◌+◌, Bool, true, false, List, [], ◌∷◌, Option, none, some, if◌then◌else◌, ltb,
}
use f2p.Config.{LocalServiceConfig}
use f2p.Client.{Client, reset_backoff, increase_backoff}
use f2p.Client.Connection.{set_shutdown_reason, Connection, cleanup_previous_connection}
use f2p.Client.Streams.{is_relay_connection}
use f2p.Client.HolePunch.{World, Attempt, established, Punched, attempt_hole_punch}
use f2p.Client.Connecting.{
  Link, SetupWorld, SetupEnd, connected, setup_quic_protocol, setup_libp2p_protocol,
}

abbrev pub dcutr_wait_timeout : ℕ
dcutr_wait_timeout = 15000

abbrev pub max_hole_punch_attempts : ℕ
max_hole_punch_attempts = 3

-- A poll of waitForDirectConnection: half a second and more passes and the connections are looked at,
-- or the context ends.
pub data Poll : Type 0 where
  sees : ℕ → List Bool → Poll
  context_ends : Poll

abbrev pub first_poll : List Poll → Poll
first_poll [] = sees 0 (true ∷ [])
first_poll (p ∷ ps) = p

abbrev pub later_polls : List Poll → List Poll
later_polls [] = []
later_polls (p ∷ ps) = ps

pub data Waited : Type 0 where
  became_direct gave_up fuel_ran_out : Waited

-- When no poll is left, the connection stays relayed.
unfoldable pub wait_for_direct_connection : ℕ → ℕ → ℕ → List Poll → Waited
unfolding is_relay_connection
wait_for_direct_connection zero deadline now polls = fuel_ran_out
wait_for_direct_connection (suc fuel) deadline now polls = elim (ltb now deadline) [
  | false ↦ gave_up
  | true ↦ elim (first_poll polls) [
    | context_ends ↦ gave_up
    | sees late conns ↦ elim (is_relay_connection conns) [
      | false ↦ became_direct
      | true ↦ wait_for_direct_connection fuel deadline (now + (500 + late)) (later_polls polls)
    ]
  ]
]

-- What a cycle meets. `attempts k` is what the attempt finds after which k more are left.
pub record Cycle : Type 0 where
  pub found : Bool
  pub connects : Bool
  pub conns : List Bool
  pub now : ℕ
  pub polls : List Poll
  pub attempts : ℕ → World
  pub setup : SetupWorld

pub data CycleEnd : Type 0 where
  not_found not_connected waiting_failed : CycleEnd
  no_attempt_left : Option Attempt → CycleEnd
  set_up : SetupEnd → CycleEnd

abbrev pub punching : Link → Punched
punching l = record { nat = l.conn.nat; direct_conn = l.conn.direct_conn; net = l.net }

abbrev pub take_punched : Link → Punched → Link
take_punched l p = record l {
  conn = record l.conn { nat = p.nat; direct_conn = p.direct_conn };
  net = p.net;
}

abbrev pub with_setup : Link × SetupEnd → Link × CycleEnd
with_setup (l, e) = (l, set_up e)

-- The attempts: `left` of them, and the last failure.
unfoldable pub try_hole_punches :
    ℕ → Option Attempt → (ℕ → World) → SetupWorld → List LocalServiceConfig → Link → Link × CycleEnd
unfolding attempt_hole_punch setup_quic_protocol
try_hole_punches zero last ws setup services l = (l, no_attempt_left last)
try_hole_punches (suc left) last ws setup services l =
    let (p, r) = attempt_hole_punch (ws left) (punching l) in
    elim r [
      | established sock ↦ with_setup (setup_quic_protocol setup services (take_punched l p))
      | failure ↦ try_hole_punches left (some failure) ws setup services (take_punched l p)
    ]

unfoldable pub after_connect : Cycle → List LocalServiceConfig → Link → Link × CycleEnd
unfolding is_relay_connection wait_for_direct_connection try_hole_punches setup_libp2p_protocol
after_connect w services l =
    if is_relay_connection w.conns
    then elim (wait_for_direct_connection 31 (w.now + dcutr_wait_timeout) w.now w.polls) [
      | became_direct ↦ with_setup (setup_libp2p_protocol w.setup services l)
      | gave_up ↦ try_hole_punches max_hole_punch_attempts none w.attempts w.setup services l
      | fuel_ran_out ↦ (l, waiting_failed)
    ]
    else with_setup (setup_libp2p_protocol w.setup services l)

-- connectToServer.
unfoldable pub connect_to_server : Cycle → List LocalServiceConfig → Link → Link × CycleEnd
unfolding cleanup_previous_connection after_connect reset_backoff
connect_to_server w services l =
    let clean = record l { conn = cleanup_previous_connection l.conn } in
    if w.found
    then (if w.connects
        then after_connect w services (record clean { client = reset_backoff clean.client })
        else (clean, not_connected))
    else (clean, not_found)

-- A round of startConnectionManager: is the context done at its start, after a failure, in the wait?
-- A set-up that cancels the context counts too.
pub record Round : Type 0 where
  pub done_at_start : Bool
  pub cycle : Cycle
  pub done_after : Bool
  pub done_in_wait : Bool

pub data ManagerEnd : Type 0 where
  context_done has_connected still_trying : ManagerEnd

-- The intervals that are waited, in order; `still_trying` when no more rounds are given.
pub record Managed : Type 0 where
  pub link : Link
  pub intervals : List ℕ
  pub end_of : ManagerEnd

abbrev pub is_connected : CycleEnd → Bool
is_connected (set_up connected) = true
is_connected _ = false

abbrev pub set_client : (Client → Client) → Link → Link
set_client f l = record l { client = f l.client }

abbrev waited : ℕ → Managed → Managed
waited interval m = record m { intervals = interval ∷ m.intervals }

unfoldable pub start_connection_manager : List Round → List LocalServiceConfig → Link → Managed
unfolding connect_to_server reset_backoff increase_backoff set_shutdown_reason
start_connection_manager [] services l = record { link = l; intervals = []; end_of = still_trying }
start_connection_manager (r ∷ rs) services l =
    let (l', e) = connect_to_server r.cycle services l in
    let more = start_connection_manager rs services (set_client increase_backoff l') in
    if r.done_at_start || l.conn.cancelled
    then record {
      link = record l { conn = set_shutdown_reason "context cancelled" l.conn };
      intervals = [];
      end_of = context_done;
    }
    else (if is_connected e
        then record { link = set_client reset_backoff l'; intervals = []; end_of = has_connected }
        else (if r.done_after || l'.conn.cancelled
            then record { link = l'; intervals = []; end_of = context_done }
            else (if r.done_in_wait
                then record { link = l'; intervals = l'.client.backoff ∷ []; end_of = context_done }
                else waited l'.client.backoff more)))
