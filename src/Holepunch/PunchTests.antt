-- ===== src/Holepunch/PunchTests.antt =====
-- The theorems about punching and about the session token at concrete inputs.
use f2p.Prelude.{
  ℕ, ◌≡◌, ◌≢◌, ◌*◌, refl, ◌⊎◌, true, false, List, [], ◌∷◌, ◌++◌, none, some, arith, replicate,
}
use f2p.Prelude.Maps.{elem}
use f2p.Prelude.Int.{pos}
use f2p.Holepunch.{cone, symmetric_hard, NatInfo, cone_to_cone, sym_to_cone, make_punch_packet}
use f2p.Holepunch.Ports.{generate_shuffled_ports}
use f2p.Holepunch.Ports.Shuffled.{count, count-generate_shuffled_ports}
use f2p.Holepunch.Sockets.{Addr, Net, quiet, is_open}
use f2p.Holepunch.Sockets.Held.{IsFresh}
use f2p.Holepunch.Sockets.Hearing.{Arrives}
use f2p.Holepunch.Punch.{Outside, punched, fuel_exhausted}
use f2p.Holepunch.Execute.{execute_punch, peer_addr_of}
use f2p.Holepunch.Execute.Faithful.{stays_open}
use f2p.Holepunch.Execute.Outcome.{execute_punch_open, execute_punch-Arrives}
use f2p.Holepunch.Execute.Ends.{execute_punch-Finishes}
use f2p.Holepunch.Execute.Roles.{punch_cone_to_cone_hears}
use f2p.Holepunch.Direct.{
  DialOutside, AcceptOutside, direct_dial_quic, accept_and_auth_quic, authenticated,
}
use f2p.Holepunch.Direct.Token.{tokens_decide}

abbrev peer : NatInfo
peer = record { type = cone; public_ip = "192.0.2.1"; public_port = 5000 }

-- Two sockets are open.
abbrev free : Net
free = record { next = 3; opened = 2 ∷ 0 ∷ []; sent = []; refusals = [] }

abbrev answering : Addr
answering = record { ip = "192.0.2.1"; port = pos 5004 }

-- The peer's packet comes after 300 ms.
abbrev luck : Outside
luck = record {
  start = 0;
  waits =
      replicate 3 quiet
      ++ (record {
        arrivals = record { socket = 2; payload = make_punch_packet 77; from = answering } ∷ [];
        missed = false;
        elapsed = 40;
      }
          ∷ []);
  port_draws = λ i. i * 7;
  round_draws = λ i. 12;
}

free-IsFresh : IsFresh free
unfolding is_open elem
free-IsFresh x h = ground arith

two_open : is_open 2 free ≡ true
unfolding is_open elem
two_open = refl

-- A symmetric side opens 84 sockets, and the 30 seconds pass.
execute_punch_open_example :
    is_open 5 (execute_punch luck symmetric_hard peer sym_to_cone 77 none free).0
    ≡ stays_open (execute_punch luck symmetric_hard peer sym_to_cone 77 none free).1 free 5
execute_punch_open_example =
    execute_punch_open luck symmetric_hard peer sym_to_cone 77 none free free-IsFresh tt 5

heard_it :
    (execute_punch luck cone peer cone_to_cone 77 (some 2) free).1
    ≡ punched (record { conn = 2; remote_addr = answering })
unfolding execute_punch
heard_it =
    punch_cone_to_cone_hears luck 2 (peer_addr_of peer) 77 free 3 40 answering [] (omega arith)
      (omega arith) refl

execute_punch-Arrives_example : Arrives 77 (2 ∷ []) 2 answering luck.waits
execute_punch-Arrives_example =
    execute_punch-Arrives luck cone peer cone_to_cone 77 (some 2) free free-IsFresh two_open 2
      answering heard_it

execute_punch-Finishes_example :
    (execute_punch luck cone peer sym_to_cone 77 (some 2) free).1 ≢ fuel_exhausted
execute_punch-Finishes_example = execute_punch-Finishes luck 77 free cone peer sym_to_cone (some 2)

count-generate_shuffled_ports_example : count 80 (generate_shuffled_ports (λ i. i * 31)) ≡ 1
count-generate_shuffled_ports_example = count-generate_shuffled_ports (λ i. i * 31) 80

abbrev token : List ℕ
token = 1 ∷ 2 ∷ 3 ∷ 4 ∷ 5 ∷ 6 ∷ 7 ∷ 8 ∷ 9 ∷ 10 ∷ 11 ∷ 12 ∷ 13 ∷ 14 ∷ 15 ∷ 16 ∷ []

abbrev client_side : DialOutside
client_side = record {
  dialed = true;
  stream_opened = true;
  token_written = true;
  response = 1 ∷ [];
}

abbrev server_side : AcceptOutside
server_side = record { accepted = true; stream_accepted = true; incoming = token }

token_sent : token ≡ (direct_dial_quic client_side token).written
unfolding direct_dial_quic
token_sent = refl

token_accepted : (1 ∷ []) ≡ (accept_and_auth_quic server_side token).written
unfolding accept_and_auth_quic
token_accepted = refl

tokens_decide_example :
    ((token ≡ token)
      × ((direct_dial_quic client_side token).result ≡ authenticated)
      × ((direct_dial_quic client_side token).closed_with ≡ none)
      × ((accept_and_auth_quic server_side token).result ≡ authenticated)
      × ((accept_and_auth_quic server_side token).closed_with ≡ none))
    ⊎ ((token ≢ token)
        × ((direct_dial_quic client_side token).result ≢ authenticated)
        × ((direct_dial_quic client_side token).closed_with ≡ some 1)
        × ((accept_and_auth_quic server_side token).result ≢ authenticated)
        × ((accept_and_auth_quic server_side token).closed_with ≡ some 1))
tokens_decide_example =
    tokens_decide client_side server_side token token refl refl refl refl refl refl token_sent
      token_accepted
