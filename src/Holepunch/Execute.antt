-- ===== src/Holepunch/Execute.antt =====
-- internal/holepunch/punch.go: ExecutePunch, the choice among the ways to punch.
pub mod Faithful
pub mod Ways
pub mod Kept
pub mod Ends
pub mod Outcome
pub mod Roles
use f2p.Prelude.{
  ℕ, zero, suc, ◌+◌, ◌%◌, ◌≡◌, Bool, true, false, List, [], ◌∷◌, Option, none, some, String,
  if◌then◌else◌, ltb, ◌==◌, min, get_elem?, length,
}
use f2p.Prelude.Int.{pos}
use f2p.Holepunch.Detection.{Mapped}
use f2p.Holepunch.Sockets.{listen_udp, close}
use f2p.Holepunch.{
  unknown, NatType, NatInfo, PunchMethod, punch_none, cone_to_cone, sym_to_cone,
  easy_sym_to_easy_sym, other_method, is_symmetric, symmetric_easy_inc, make_punch_packet,
}
use f2p.Holepunch.Ports.{random_int, generate_shuffled_ports, predicted_peer_port}
use f2p.Holepunch.Sockets.{
  Addr, Net, Wait, Punching, new_udp_socket_array, close_all, close_sockets, write_to, send_all,
  pass, select,
}
use f2p.Holepunch.Punch.{
  birthday_min_packets, birthday_max_packets, punch_max_rounds, punch_confirm_duration,
  punch_confirm_interval, punch_timeout, LoopEnd, got, time_over, out_of_fuel, PunchResult,
  no_punch_socket, unsupported_method, Outside, begin, hand_back, punch_cone_to_cone,
  punch_sym_to_cone, punch_both_easy_sym,
}
use f2p.Holepunch.Spray.{punch_cone_to_sym}

abbrev pub peer_addr_of : NatInfo → Addr
peer_addr_of peer_nat = record { ip = peer_nat.public_ip; port = pos peer_nat.public_port }

abbrev pub is_easy_inc : NatType → Bool
is_easy_inc symmetric_easy_inc = true
is_easy_inc _ = false

-- ExecutePunch: of the own NAT only its kind is used.
unfoldable pub execute_punch :
    Outside → NatType → NatInfo → PunchMethod → ℕ → Option ℕ → Net → Net × PunchResult
unfolding punch_cone_to_cone punch_sym_to_cone punch_cone_to_sym punch_both_easy_sym is_symmetric
execute_punch o mine peer cone_to_cone tid none net = (net, no_punch_socket)
execute_punch o mine peer cone_to_cone tid (some sock) net =
    punch_cone_to_cone o sock (peer_addr_of peer) tid net
execute_punch o mine peer sym_to_cone tid sock net =
    if is_symmetric mine then punch_sym_to_cone o (peer_addr_of peer) tid net else elim sock [
      | none ↦ (net, no_punch_socket)
      | some s ↦ punch_cone_to_sym o s peer.public_ip tid net
    ]
execute_punch o mine peer easy_sym_to_easy_sym tid sock net =
    punch_both_easy_sym o (peer_addr_of peer) (is_easy_inc peer.type) tid net
execute_punch o mine peer punch_none tid sock net = (net, unsupported_method)
execute_punch o mine peer (other_method m) tid sock net = (net, unsupported_method)

-- CreatePunchSocket; the argument is what the STUN query gives.
unfoldable pub create_punch_socket : Option Mapped → Net → Net × Option (ℕ × NatInfo)
unfolding listen_udp close
create_punch_socket mapped net =
    let (net', conn) = listen_udp net in
    elim conn [
      | none ↦ (net', none)
      | some s ↦ elim mapped [
        | none ↦ (close s net', none)
        | some m ↦
            (net', some (s, record { type = unknown; public_ip = m.ip; public_port = m.port }))
      ]
    ]

-- `if punchSock != nil { punchSock.Close() }`
unfoldable pub close_given : Option ℕ → Net → Net
unfolding close
close_given none net = net
close_given (some s) net = close s net
