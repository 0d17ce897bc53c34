-- ===== src/Holepunch/Spray.antt =====
-- internal/holepunch/punch.go: the cone's side against a symmetric NAT: packets to ports in a random
-- order, and confirmations once a packet has come. A round of confirmations waits 50 ms.
pub mod Good
pub mod Ends
use f2p.Prelude.{
  ℕ, zero, suc, ◌+◌, ◌%◌, ◌≡◌, Bool, true, false, List, [], ◌∷◌, Option, none, some, String,
  if◌then◌else◌, ltb, ◌==◌, min, get_elem?, length,
}
use f2p.Prelude.Int.{pos}
use f2p.Holepunch.{
  NatType, NatInfo, PunchMethod, punch_none, cone_to_cone, sym_to_cone, easy_sym_to_easy_sym,
  other_method, is_symmetric, symmetric_easy_inc, make_punch_packet,
}
use f2p.Holepunch.Ports.{random_int, generate_shuffled_ports, predicted_peer_port}
use f2p.Holepunch.Sockets.{
  Addr, Net, Wait, Punching, new_udp_socket_array, close_all, close_sockets, write_to, send_all,
  pass, select,
}
use f2p.Holepunch.Punch.{
  birthday_min_packets, birthday_max_packets, punch_max_rounds, punch_confirm_duration,
  punch_confirm_interval, punch_timeout, LoopEnd, got, time_over, out_of_fuel, PunchResult,
  no_punch_socket, unsupported_method, Outside, begin, hand_back, punch_cone_to_cone,
  punch_sym_to_cone, punch_both_easy_sym,
}

-- punchConeToSym: its fixed arguments.
pub record ConeSide : Type 0 where
  pub socket : ℕ
  pub client_ip : String
  pub tid : ℕ
  pub ports : List ℕ
  pub deadline : ℕ

-- Where the sending of packets stands: the index of the next port, and what has come.
pub record Spray : Type 0 where
  pub st : Punching
  pub port_idx : ℕ
  pub found : Option (ℕ × Addr)

-- shuffledPorts[portIdx], after portIdx was brought into range. (The list is never empty.)
abbrev pub port_at : List ℕ → ℕ → ℕ
port_at ports idx = elim (get_elem? ports idx) [ none ↦ 0 | some p ↦ p ]

abbrev pub wrap_idx : List ℕ → ℕ → ℕ
wrap_idx ports idx = if ltb idx (length ports) then idx else 0

-- One packet, to the next port.
unfoldable pub send_packet : ConeSide → ℕ → Punching → Punching
unfolding pass write_to
send_packet c idx st = pass c.tid (c.socket ∷ []) (record st {
  net =
      write_to c.socket (make_punch_packet c.tid)
        (record { ip = c.client_ip; port = pos (port_at c.ports (wrap_idx c.ports idx)) }) st.net;
})

-- The packets of a round, from the i-th on; after each hundred the channel is looked at.
unfoldable pub send_packets : ConeSide → ℕ → ℕ → ℕ → Punching → Spray
unfolding send_packet
send_packets c zero i idx st = record { st = st; port_idx = idx; found = none }
send_packets c (suc left) i idx st = elim (ltb st.now c.deadline) [
  | false ↦ record { st = st; port_idx = idx; found = none }
  | true ↦
      let st' = send_packet c idx st in
      let idx' = wrap_idx c.ports idx + 1 in
      elim (if i % 100 == 99 then st'.pending else none) [
        | none ↦ send_packets c left (i + 1) idx' st'
        | some r ↦ record { st = st'; port_idx = idx'; found = some r }
      ]
]

unfoldable pub cone_rounds : ConeSide → (ℕ → ℕ) → ℕ → ℕ → Punching → Punching × LoopEnd
unfolding send_packets select random_int
cone_rounds c draws zero idx st = (st, time_over)
cone_rounds c draws (suc rounds) idx st = elim (ltb st.now c.deadline) [
  | false ↦ (st, time_over)
  | true ↦
      let spray =
        send_packets c (random_int birthday_min_packets birthday_max_packets (draws rounds)) 0 idx
          st in
      elim spray.found [
        | some (s, a) ↦ (spray.st, got s a)
        | none ↦
            let (st', r) = select c.tid 1000 (c.socket ∷ []) spray.st in
            elim r [
              | some (s, a) ↦ (st', got s a)
              | none ↦ cone_rounds c draws rounds spray.port_idx st'
            ]
      ]
]

-- confirmAndReturn's loop.
unfoldable pub confirm : ℕ → ℕ → ConeSide → Addr → Punching → Punching × LoopEnd
unfolding pass write_to
confirm zero end' c remote st = (st, out_of_fuel)
confirm (suc fuel) end' c remote st = elim (ltb st.now end') [
  | false ↦ (st, got c.socket remote)
  | true ↦
      let st' =
        pass c.tid (c.socket ∷ [])
          (record st { net = write_to c.socket (make_punch_packet c.tid) remote st.net }) in
      confirm fuel end' c remote (record st' { now = st'.now + punch_confirm_interval })
]

unfoldable pub confirm_and_return : ConeSide → Punching × LoopEnd → Punching × LoopEnd
unfolding confirm
confirm_and_return c (st, got s remote) = confirm 21 (st.now + punch_confirm_duration) c remote st
confirm_and_return c (st, time_over) = (st, time_over)
confirm_and_return c (st, out_of_fuel) = (st, out_of_fuel)

abbrev pub cone_side : Outside → ℕ → String → ℕ → ConeSide
cone_side o server_socket client_ip tid = record {
  socket = server_socket;
  client_ip = client_ip;
  tid = tid;
  ports = generate_shuffled_ports o.port_draws;
  deadline = o.start + punch_timeout;
}

unfoldable pub punch_cone_to_sym : Outside → ℕ → String → ℕ → Net → Net × PunchResult
unfolding cone_rounds confirm_and_return hand_back
punch_cone_to_sym o server_socket client_ip tid net =
    let c = cone_side o server_socket client_ip tid in
    hand_back (confirm_and_return c (cone_rounds c o.round_draws punch_max_rounds 0 (begin o net)))
