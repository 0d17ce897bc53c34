-- ===== src/Client/Connection.antt =====
-- internal/client: the connection to the server and how it is taken down (monitor.go, and
-- setShutdownReason and Stop of client.go). Streams and QUIC connections are numbers; a messager and a
-- dispatcher have the number of their stream. What is closed is logged, the latest first.
pub mod Cleaned
use f2p.Prelude.{
  ℕ, ◌+◌, Bool, true, false, ◌||◌, List, [], ◌∷◌, Option, none, some, if◌then◌else◌, String, str_eq,
}
use f2p.Server.Direct.{NatState}

pub record Connection : Type 0 where
  pub control_stream : Option ℕ
  pub control_messager : Option ℕ
  pub control_dispatcher : Option ℕ
  pub quic_ctrl_close : Option ℕ
  pub direct_conn : Option ℕ
  pub nat : NatState
  pub shutdown_reason : String
  pub stopping : Bool
  pub cancelled : Bool
  pub services_started : Bool
  pub closed_streams : List ℕ
  pub closed_dispatchers : List ℕ
  pub closed_conns : List ℕ
  pub peer_closes : ℕ  -- calls of ClosePeer for the server
  pub notices : ℕ  -- shutdown notifications that were sent

abbrev pub log : Option ℕ → List ℕ → List ℕ
log none l = l
log (some s) l = s ∷ l

abbrev pub is_some : Option ℕ → Bool
is_some none = false
is_some (some s) = true

-- cleanupDirectConn, and whether there was a connection.
unfoldable pub cleanup_direct_conn : Connection → Connection
cleanup_direct_conn c = record c {
  direct_conn = none;
  closed_conns = log c.direct_conn c.closed_conns;
}

-- closeControlStream: without a direct connection the peer is closed.
unfoldable pub close_control_stream : Connection → Connection
unfolding cleanup_direct_conn
close_control_stream c =
    let c' = record c {
      closed_streams = log c.quic_ctrl_close (log c.control_stream c.closed_streams);
    } in
    if is_some c.direct_conn
    then cleanup_direct_conn c'
    else record (cleanup_direct_conn c') { peer_closes = c.peer_closes + 1 }

-- cleanupPreviousConnection.
unfoldable pub cleanup_previous_connection : Connection → Connection
unfolding cleanup_direct_conn
cleanup_previous_connection c =
    let c' = record c {
      control_dispatcher = none;
      closed_dispatchers = log c.control_dispatcher c.closed_dispatchers;
      control_messager = none;
      control_stream = none;
      quic_ctrl_close = none;
      closed_streams = log c.quic_ctrl_close (log c.control_stream c.closed_streams);
    } in
    record (cleanup_direct_conn c') {
      nat = record { nat_info = none; nat_detected = false };
      peer_closes = c.peer_closes + 1;
    }

-- The first reason stays.
unfoldable pub set_shutdown_reason : String → Connection → Connection
set_shutdown_reason r c =
    if str_eq c.shutdown_reason "" then record c { shutdown_reason = r } else c

-- Stop: the server is told over whichever control stream there is, and everything is closed. (The DHT
-- and the host are closed after it.)
unfoldable pub stop : Connection → Connection
unfolding cleanup_direct_conn
stop c =
    let active = is_some c.control_stream || is_some c.quic_ctrl_close in
    let c' = record c {
      stopping = true;
      notices =
          if active
          then (if is_some c.control_messager then c.notices + 1 else c.notices)
          else c.notices;
      closed_streams = log c.quic_ctrl_close (log c.control_stream c.closed_streams);
      closed_dispatchers = log c.control_dispatcher c.closed_dispatchers;
      cancelled = true;
    } in
    cleanup_direct_conn c'
