-- ===== src/Client/HolePunch.antt =====
-- attemptHolePunch of internal/client/connect.go: detection, signalling, punch socket, punch, QUIC.
-- What the STUN servers, the server and QUIC give are arguments.
pub mod Leaks
pub mod Attempts
use f2p.Prelude.{ℕ, Bool, true, false, not, ◌&&◌, List, [], ◌∷◌, Option, none, some, if◌then◌else◌}
use f2p.Holepunch.{NatInfo, NatType, PunchMethod, sym_to_cone, is_cone}
use f2p.Holepunch.Detection.{Mapped}
use f2p.Holepunch.Signaling.{Signaled, ClientResult, signaled}
use f2p.Holepunch.Sockets.{Net, close}
use f2p.Holepunch.Punch.{Outside, PunchedSocket, PunchResult, punched}
use f2p.Holepunch.Execute.{execute_punch, create_punch_socket, close_given}
use f2p.Holepunch.Direct.{DialOutside, Authed, authenticated, direct_dial_quic}
use f2p.Server.Direct.{NatState}

abbrev pub is_sym_to_cone : PunchMethod → Bool
is_sym_to_cone sym_to_cone = true
is_sym_to_cone _ = false

-- What an attempt finds outside. `conn` numbers the QUIC connection that a successful dial gives.
pub record World : Type 0 where
  pub detected : Option NatInfo
  pub signaling : ClientResult
  pub stun : Option Mapped
  pub punch : Outside
  pub dial : DialOutside
  pub conn : ℕ

pub data Attempt : Type 0 where
  not_detected : Attempt
  not_signaled : ClientResult → Attempt
  no_socket : Attempt
  not_punched : PunchResult → Attempt
  not_dialed : PunchedSocket → Authed → Attempt
  established : PunchedSocket → Attempt

-- The state that an attempt changes: the NAT data, the direct connection, the sockets.
pub record Punched : Type 0 where
  pub nat : NatState
  pub direct_conn : Option ℕ
  pub net : Net

abbrev pub cached_info : NatState → Option NatInfo
cached_info s = if s.nat_detected then s.nat_info else none

-- DirectDialQUIC on the punched socket.
abbrev pub end_dialed : World → Punched → PunchedSocket → Authed → Punched × Attempt
end_dialed w s p authenticated = (record s { direct_conn = some w.conn }, established p)
end_dialed w s p other = (record s { net = close p.conn s.net }, not_dialed p other)

unfoldable pub dial : World → List ℕ → Option ℕ → Punched → PunchResult → Punched × Attempt
unfolding close close_given direct_dial_quic
dial w token sock s (punched p) = end_dialed w s p (direct_dial_quic w.dial token).result
dial w token sock s failure = (record s { net = close_given sock s.net }, not_punched failure)

-- ExecutePunch, with the socket that was made or without one.
unfoldable pub punch : World → NatType → Signaled → Option ℕ → Punched → Punched × Attempt
unfolding execute_punch dial
punch w mine found sock s =
    let (net, r) = execute_punch w.punch mine found.nat found.method found.tid sock s.net in
    dial w found.token sock (record s { net = net }) r

-- A cone makes a socket of its own; between two cones the socket's data, whose kind is not set, take
-- the place of the own ones.
unfoldable pub with_socket : World → NatInfo → Signaled → Punched → Punched × Attempt
unfolding is_cone create_punch_socket punch
with_socket w info found s =
    let (net, made) = create_punch_socket w.stun s.net in
    let without = punch w info.type found none s in
    if is_cone info.type
    then elim made [
      | none ↦ (record s { net = net }, no_socket)
      | some (sock, own) ↦
          punch w (if is_sym_to_cone found.method then info.type else own.type) found (some sock)
            (record s { net = net })
    ]
    else without

unfoldable pub signal : World → NatInfo → Punched → Punched × Attempt
unfolding with_socket
signal w info s = elim w.signaling [
  | signaled found ↦ with_socket w info found s
  | failure ↦ (s, not_signaled failure)
]

unfoldable pub attempt_hole_punch : World → Punched → Punched × Attempt
unfolding signal
attempt_hole_punch w s = elim (cached_info s.nat) [
  | some info ↦ signal w info s
  | none ↦ elim w.detected [
    | none ↦ (s, not_detected)
    | some info ↦
        signal w info (record s { nat = record { nat_info = some info; nat_detected = true } })
  ]
]
