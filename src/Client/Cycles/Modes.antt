-- ===== src/Client/Cycles/Modes.antt =====
-- When a cycle has connected, the control stream is on one of the two kinds of connection.
use f2p.Prelude.{ℕ, ◌≡◌, ◌⊎◌, none, some}
use f2p.Client.{Client}
use f2p.Client.Connection.{Connection}
use f2p.Client.Connecting.{Link, SetupEnd, connected}
use f2p.Client.Cycles.{CycleEnd, set_up}

-- The dispatcher and the messager are on the control stream, which is a libp2p stream when there is no
-- direct connection, and a stream of the direct connection otherwise.
pub record IsUp (c : Connection) : Type 0 where
  pub stream : ℕ
  pub dispatcher : c.control_dispatcher ≡ some stream
  pub messager : c.control_messager ≡ some stream
  pub mode :
      ((c.direct_conn ≡ none) × (c.control_stream ≡ some stream) × (c.quic_ctrl_close ≡ none))
      ⊎ ((q : ℕ) × (c.direct_conn ≡ some q)
          × (c.control_stream ≡ none)
          × (c.quic_ctrl_close ≡ some stream))

abbrev UpIf : Link × SetupEnd → Type 0
UpIf r = r.1 ≡ connected → IsUp r.0.conn

abbrev CycleUp : Link × CycleEnd → Type 0
CycleUp r = r.1 ≡ set_up connected → IsUp r.0.conn
