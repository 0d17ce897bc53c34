-- ===== src/Client/Connection/Cleaned.antt =====
-- Nothing of an old connection is left when a new cycle starts.
use f2p.Prelude.{ℕ, ◌≡◌, refl, true, false, List, Option, none, some, arith, ◌==◌}
use f2p.Prelude.Maps.{elem}
use f2p.Client.Connection.{Connection, log, cleanup_direct_conn, cleanup_previous_connection, stop}

-- No stream, messager, dispatcher, connection or NAT data.
pub record IsClear (c : Connection) : Type 0 where
  pub control_stream : c.control_stream ≡ none
  pub control_messager : c.control_messager ≡ none
  pub control_dispatcher : c.control_dispatcher ≡ none
  pub quic_ctrl_close : c.quic_ctrl_close ≡ none
  pub direct_conn : c.direct_conn ≡ none
  pub nat : c.nat ≡ record { nat_info = none; nat_detected = false }

-- Whatever was there is among the closed ones.
abbrev pub IsLogged : Option ℕ → List ℕ → Type 0
IsLogged none l = Unit
IsLogged (some s) l = elem ◌==◌ s l ≡ true

pub record IsClosed (before after : Connection) : Type 0 where
  pub control_stream : IsLogged before.control_stream after.closed_streams
  pub quic_ctrl : IsLogged before.quic_ctrl_close after.closed_streams
  pub dispatcher : IsLogged before.control_dispatcher after.closed_dispatchers
  pub direct_conn : IsLogged before.direct_conn after.closed_conns

logged : (o : Option ℕ) (l : List ℕ) → IsLogged o (log o l)
unfolding elem
logged none l = tt
logged (some s) l = ground arith

IsLogged-under : (o p : Option ℕ) (l : List ℕ) → IsLogged o (log p (log o l))
unfolding elem
IsLogged-under none p l = tt
IsLogged-under (some s) none l = ground arith
IsLogged-under (some s) (some t) l = ground arith

-- The clean-up before a new cycle leaves no stream, messager, dispatcher, direct connection or NAT data,
-- and has closed every stream, dispatcher and connection that was there.
pub cleanup_previous_connection-IsClear :
    (c : Connection)
    → IsClear (cleanup_previous_connection c) × IsClosed c (cleanup_previous_connection c)
unfolding cleanup_previous_connection cleanup_direct_conn
cleanup_previous_connection-IsClear c = (
  record {
    control_stream = refl;
    control_messager = refl;
    control_dispatcher = refl;
    quic_ctrl_close = refl;
    direct_conn = refl;
    nat = refl;
  },
  record {
    control_stream = IsLogged-under c.control_stream c.quic_ctrl_close c.closed_streams;
    quic_ctrl = logged c.quic_ctrl_close (log c.control_stream c.closed_streams);
    dispatcher = logged c.control_dispatcher c.closed_dispatchers;
    direct_conn = logged c.direct_conn c.closed_conns;
  },
)

-- Stop closes the same.
pub stop-IsClosed : (c : Connection) → IsClosed c (stop c)
unfolding stop cleanup_direct_conn
stop-IsClosed c = record {
  control_stream = IsLogged-under c.control_stream c.quic_ctrl_close c.closed_streams;
  quic_ctrl = logged c.quic_ctrl_close (log c.control_stream c.closed_streams);
  dispatcher = logged c.control_dispatcher c.closed_dispatchers;
  direct_conn = logged c.direct_conn c.closed_conns;
}
