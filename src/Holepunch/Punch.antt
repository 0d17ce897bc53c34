-- ===== src/Holepunch/Punch.antt =====
-- internal/holepunch/punch.go: punching with many sockets, and between two cones. Times are in
-- milliseconds. A loop that waits at least 100 ms in each round runs on fuel; the fuel is the number
-- of rounds that fit into its time, and one more.
pub mod Good
pub mod Ends
use f2p.Prelude.{
  ℕ, zero, suc, ◌+◌, ◌%◌, ◌≡◌, Bool, true, false, List, [], ◌∷◌, Option, none, some, String,
  if◌then◌else◌, ltb, ◌==◌, min, get_elem?, length,
}
use f2p.Prelude.Int.{pos}
use f2p.Holepunch.{
  NatType, NatInfo, PunchMethod, punch_none, cone_to_cone, sym_to_cone, easy_sym_to_easy_sym,
  other_method, is_symmetric, symmetric_easy_inc, make_punch_packet,
}
use f2p.Holepunch.Ports.{random_int, generate_shuffled_ports, predicted_peer_port}
use f2p.Holepunch.Sockets.{
  Addr, Net, Wait, Punching, new_udp_socket_array, close_all, close_sockets, write_to, send_all,
  pass, select,
}

abbrev pub sym_to_cone_socket_count : ℕ
sym_to_cone_socket_count = 84

abbrev pub both_easy_sym_socket_count : ℕ
both_easy_sym_socket_count = 25

abbrev pub birthday_min_packets : ℕ
birthday_min_packets = 600

abbrev pub birthday_max_packets : ℕ
birthday_max_packets = 800

abbrev pub punch_timeout : ℕ
punch_timeout = 30000

abbrev pub punch_round_duration : ℕ
punch_round_duration = 5000

abbrev pub punch_send_interval : ℕ
punch_send_interval = 100

abbrev pub punch_max_rounds : ℕ
punch_max_rounds = 5

abbrev pub punch_confirm_duration : ℕ
punch_confirm_duration = 1000

abbrev pub punch_confirm_interval : ℕ
punch_confirm_interval = 50

-- PunchedSocket; its local address is the socket's.
pub record PunchedSocket : Type 0 where
  pub conn : ℕ
  pub remote_addr : Addr

-- How a sending loop ends.
pub data LoopEnd : Type 0 where
  got : ℕ → Addr → LoopEnd
  time_over out_of_fuel : LoopEnd

-- Send, then select between the listeners' result and the interval, until the time is over.
unfoldable pub send_until : ℕ → ℕ → (Net → Net) → ℕ → List ℕ → Punching → Punching × LoopEnd
unfolding select
send_until zero end' send tid socks st = (st, out_of_fuel)
send_until (suc fuel) end' send tid socks st = elim (ltb st.now end') [
  | false ↦ (st, time_over)
  | true ↦
      let (st', r) = select tid punch_send_interval socks (record st { net = send st.net }) in
      elim r [ none ↦ send_until fuel end' send tid socks st' | some (s, a) ↦ (st', got s a) ]
]

-- The rounds of punchSymToCone.
unfoldable pub sym_rounds : ℕ → ℕ → (Net → Net) → ℕ → List ℕ → Punching → Punching × LoopEnd
unfolding send_until
sym_rounds zero deadline send tid socks st = (st, time_over)
sym_rounds (suc rounds) deadline send tid socks st = elim (ltb st.now deadline) [
  | false ↦ (st, time_over)
  | true ↦
      let (st', r) =
        send_until 51 (min (st.now + punch_round_duration) deadline) send tid socks st in
      elim r [
        | time_over ↦ sym_rounds rounds deadline send tid socks st'
        | got s a ↦ (st', got s a)
        | out_of_fuel ↦ (st', out_of_fuel)
      ]
]

pub data PunchResult : Type 0 where
  punched : PunchedSocket → PunchResult
  no_socket_array timed_out no_punch_socket unsupported_method fuel_exhausted : PunchResult

-- What the environment of a punch brings: the clock at its start, what happens in the waits, the
-- numbers drawn for the shuffle and for the rounds.
pub record Outside : Type 0 where
  pub start : ℕ
  pub waits : List Wait
  pub port_draws : ℕ → ℕ
  pub round_draws : ℕ → ℕ

abbrev pub begin : Outside → Net → Punching
begin o net = record { net = net; waits = o.waits; pending = none; now = o.start }

-- The end of the punches with many sockets: one is kept, or none.
unfoldable pub keep_one : List ℕ → Punching × LoopEnd → Net × PunchResult
unfolding close_all close_sockets
keep_one socks (st, got s a) =
    (close_sockets socks s st.net, punched (record { conn = s; remote_addr = a }))
keep_one socks (st, time_over) = (close_all socks st.net, timed_out)
keep_one socks (st, out_of_fuel) = (st.net, fuel_exhausted)

unfoldable pub punch_sym_to_cone : Outside → Addr → ℕ → Net → Net × PunchResult
unfolding new_udp_socket_array keep_one sym_rounds send_all
punch_sym_to_cone o server_addr tid net =
    let (net', arr) = new_udp_socket_array sym_to_cone_socket_count net in
    elim arr [
      | none ↦ (net', no_socket_array)
      | some socks ↦ keep_one socks (
          sym_rounds punch_max_rounds (o.start + punch_timeout)
            (send_all socks (make_punch_packet tid) server_addr) tid socks (begin o net'))
    ]

abbrev pub predicted_addr : Bool → Addr → Addr
predicted_addr peer_incremental peer_addr = record peer_addr {
  port = predicted_peer_port peer_incremental peer_addr.port;
}

-- Of the code's arguments the own NAT's direction and port are not used.
unfoldable pub punch_both_easy_sym : Outside → Addr → Bool → ℕ → Net → Net × PunchResult
unfolding new_udp_socket_array keep_one send_until send_all
punch_both_easy_sym o peer_addr peer_incremental tid net =
    let (net', arr) = new_udp_socket_array both_easy_sym_socket_count net in
    elim arr [
      | none ↦ (net', no_socket_array)
      | some socks ↦ keep_one socks (
          send_until 301 (o.start + punch_timeout)
            (send_all socks (make_punch_packet tid) (predicted_addr peer_incremental peer_addr)) tid
            socks (begin o net'))
    ]

-- The end of the punches over the socket that the caller owns.
unfoldable pub hand_back : Punching × LoopEnd → Net × PunchResult
hand_back (st, got s a) = (st.net, punched (record { conn = s; remote_addr = a }))
hand_back (st, time_over) = (st.net, timed_out)
hand_back (st, out_of_fuel) = (st.net, fuel_exhausted)

unfoldable pub punch_cone_to_cone : Outside → ℕ → Addr → ℕ → Net → Net × PunchResult
unfolding send_until hand_back write_to
punch_cone_to_cone o my_socket peer_addr tid net = hand_back (
    send_until 301 (o.start + punch_timeout) (write_to my_socket (make_punch_packet tid) peer_addr)
      tid (my_socket ∷ []) (begin o net))
