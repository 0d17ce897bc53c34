-- ===== src/Server/Sessions.antt =====
-- The table of authenticated clients: handleControlStream, handleAuthenticationStream and the end of
-- monitorControlStream (internal/server/handlers_control.go), handleDataStream (handlers_data.go),
-- handleQUICControlStream and handleQUICDataStream (handlers_holepunch.go). Peers and streams are
-- numbers, and a dispatcher has the number of its stream. Between the test whether a client is known
-- and the end of an authentication other streams may be handled, so these are two events.
pub mod Runs
pub mod Ended
use f2p.Prelude.{ℕ, Bool, true, false, List, [], ◌∷◌, ◌++◌, Option, none, some, if◌then◌else◌, ◌==◌}
use f2p.Holepunch.Direct.{stream_type_control, stream_type_data, stream_type_data_zstd}
use f2p.Prelude.Maps.{lookup, insert, delete}

-- The session of a direct QUIC connection has no libp2p control stream: `none` is nil.
pub record ClientSession : Type 0 where
  pub peer_id : ℕ
  pub control_stream : Option ℕ
  pub control_dispatcher : ℕ

-- `closed`, `closed_dispatchers` and `closed_peers` log what the server has closed.
pub record Sessions : Type 0 where
  pub authenticated_clients : List (ℕ × ClientSession)
  pub closed : List ℕ
  pub closed_dispatchers : List ℕ
  pub closed_peers : List ℕ

abbrev pub no_sessions : Sessions
no_sessions = record {
  authenticated_clients = [];
  closed = [];
  closed_dispatchers = [];
  closed_peers = [];
}

abbrev pub session_of : ℕ → Sessions → Option ClientSession
session_of peer s = lookup ◌==◌ peer s.authenticated_clients

abbrev pub libp2p_session : ℕ → ℕ → ClientSession
libp2p_session peer stream = record {
  peer_id = peer;
  control_stream = some stream;
  control_dispatcher = stream;
}

abbrev pub quic_session : ℕ → ℕ → ClientSession
quic_session peer stream = record {
  peer_id = peer;
  control_stream = none;
  control_dispatcher = stream;
}

-- Closing a stream that may be nil.
abbrev pub close_stream : Option ℕ → List ℕ → List ℕ
close_stream none closed = closed
close_stream (some stream) closed = stream ∷ closed

-- The old session is deleted and closed, and the new one is entered. The code does this under two
-- locks, one for the deletion and one for the entry, with the closing between them; here it is one
-- step, and a data stream that finds no session in between, and is ended for that, is no event.
unfoldable pub replace : ℕ → ClientSession → ClientSession → Sessions → Sessions
unfolding delete
replace peer old new s = record s {
  authenticated_clients = insert ◌==◌ peer new (delete ◌==◌ peer s.authenticated_clients);
  closed = close_stream old.control_stream s.closed;
  closed_dispatchers = old.control_dispatcher ∷ s.closed_dispatchers;
}

unfoldable pub enter : ℕ → ClientSession → Sessions → Sessions
unfolding delete
enter peer new s = record s { authenticated_clients = insert ◌==◌ peer new s.authenticated_clients }

-- A new control stream: of an unknown client it is authenticated first, which ends in the next
-- function; of a known one it replaces the old stream, which is closed.
unfoldable pub handle_control_stream : ℕ → ℕ → Sessions → Sessions
unfolding lookup replace
handle_control_stream peer stream s = elim (session_of peer s) [
  | none ↦ s
  | some old ↦ replace peer old (libp2p_session peer stream) s
]

-- The exchange on a stream has ended: the client is entered, or its dispatcher and the peer are closed.
unfoldable pub finish_authentication : ℕ → ℕ → Bool → Sessions → Sessions
unfolding enter
finish_authentication peer stream ok s =
    if ok then enter peer (libp2p_session peer stream) s else record s {
      closed_dispatchers = stream ∷ s.closed_dispatchers;
      closed_peers = peer ∷ s.closed_peers;
    }

-- The same for a control stream of a direct QUIC connection.
unfoldable pub handle_quic_control_stream : ℕ → ℕ → Sessions → Sessions
unfolding lookup replace
handle_quic_control_stream peer stream s = elim (session_of peer s) [
  | none ↦ s
  | some old ↦ replace peer old (quic_session peer stream) s
]

unfoldable pub finish_quic_authentication : ℕ → ℕ → Bool → Sessions → Sessions
unfolding enter
finish_quic_authentication peer stream ok s =
    if ok
    then enter peer (quic_session peer stream) s
    else record s { closed = stream ∷ s.closed; closed_dispatchers = stream ∷ s.closed_dispatchers }

-- Go's == on the two streams: nil equals nil.
abbrev pub same_stream : Option ℕ → Option ℕ → Bool
same_stream none none = true
same_stream (some a) (some b) = a == b
same_stream _ _ = false

-- The deferred part of monitorControlStream: the entry goes only if its stream is this session's.
unfoldable pub end_monitor : ClientSession → Sessions → Sessions
unfolding lookup delete
end_monitor session s =
    let kept : List (ℕ × ClientSession) = elim (session_of session.peer_id s) [
      | none ↦ s.authenticated_clients
      | some current ↦
          if same_stream current.control_stream session.control_stream
          then delete ◌==◌ session.peer_id s.authenticated_clients
          else s.authenticated_clients
    ] in
    record s {
      authenticated_clients = kept;
      closed = close_stream session.control_stream s.closed;
      closed_dispatchers = session.control_dispatcher ∷ s.closed_dispatchers;
      closed_peers = session.peer_id ∷ s.closed_peers;
    }

-- What becomes of a data stream: it is ended (reset, or closed on QUIC), or served; the Boolean is the
-- compression.
pub data DataStream : Type 0 where
  resets : DataStream
  serves : Bool → DataStream

unfoldable pub handle_data_stream : ℕ → Bool → Sessions → DataStream
unfolding lookup
handle_data_stream peer compressed s = elim (session_of peer s) [
  | none ↦ resets
  | some c ↦ serves compressed
]

-- handleQUICConnection, by the first byte of a stream, when it can be read; handleQUICDataStream. What
-- is not routed is closed.
pub data QuicStream : Type 0 where
  control closes : QuicStream
  data_stream : Bool → QuicStream

unfoldable pub route_quic_stream : Option ℕ → QuicStream
route_quic_stream none = closes
route_quic_stream (some type) =
    if type == stream_type_control
    then control
    else (if type == stream_type_data
        then data_stream false
        else (if type == stream_type_data_zstd then data_stream true else closes))

unfoldable pub handle_quic_data_stream : ℕ → Bool → Sessions → DataStream
unfolding lookup
handle_quic_data_stream peer compressed s = elim (session_of peer s) [
  | none ↦ resets
  | some c ↦ serves compressed
]
