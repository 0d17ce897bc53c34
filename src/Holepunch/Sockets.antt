-- ===== src/Holepunch/Sockets.antt =====
-- internal/holepunch/punch.go: the UDP sockets of a punch, what is sent through them, and what the
-- listeners hear. Sockets are numbers; an address keeps its IP as text. The results of ListenUDP are
-- part of the network's state; the result of a write is looked at nowhere but in a log line.
pub mod Held
pub mod Hearing
use f2p.Prelude.{
  ℕ, zero, suc, ◌+◌, Bool, true, false, ◌&&◌, not, List, [], ◌∷◌, ◌++◌, Option, none, some, String,
  if◌then◌else◌, ◌==◌, take,
}
use f2p.Prelude.Int.{ℤ}
use f2p.Prelude.Maps.{elem}
use f2p.Holepunch.{parse_punch_packet}

pub record Addr : Type 0 where
  pub ip : String
  pub port : ℤ

pub record Datagram : Type 0 where
  pub socket : ℕ
  pub payload : List ℕ
  pub to : Addr

-- `refusals` tells of each coming call of ListenUDP whether it fails; sockets are numbered from `next`.
pub record Net : Type 0 where
  pub next : ℕ
  pub opened : List ℕ
  pub sent : List Datagram
  pub refusals : List Bool

unfoldable pub is_open : ℕ → Net → Bool
unfolding elem
is_open s net = elem ◌==◌ s net.opened

abbrev open_next : List Bool → Net → Net × Option ℕ
open_next refusals net = (
  record {
    next = net.next + 1;
    opened = net.next ∷ net.opened;
    sent = net.sent;
    refusals = refusals;
  },
  some net.next,
)

unfoldable pub listen_udp : Net → Net × Option ℕ
listen_udp net = elim net.refusals [
  | [] ↦ open_next [] net
  | false ∷ refusals ↦ open_next refusals net
  | true ∷ refusals ↦ (record net { refusals = refusals }, none)
]

unfoldable pub without : ℕ → List ℕ → List ℕ
without s [] = []
without s (x ∷ xs) = let rest = without s xs in if x == s then rest else x ∷ rest

unfoldable pub close : ℕ → Net → Net
unfolding without
close s net = record net { opened = without s net.opened }

unfoldable pub close_all : List ℕ → Net → Net
unfolding close
close_all [] net = net
close_all (s ∷ socks) net = close_all socks (close s net)

-- closeSockets: all but the one that is kept.
unfoldable pub close_sockets : List ℕ → ℕ → Net → Net
unfolding close
close_sockets [] keep net = net
close_sockets (s ∷ socks) keep net =
    close_sockets socks keep (if s == keep then net else close s net)

-- NewUDPSocketArray: the sockets that are there, and how many are still to be created.
unfoldable pub create_sockets : ℕ → List ℕ → Net → Net × Option (List ℕ)
unfolding listen_udp close_all
create_sockets zero socks net = (net, some socks)
create_sockets (suc n) socks net =
    let (net', conn) = listen_udp net in
    elim conn [
      | none ↦ (close_all socks net', none)
      | some s ↦ create_sockets n (socks ++ (s ∷ [])) net'
    ]

unfoldable pub new_udp_socket_array : ℕ → Net → Net × Option (List ℕ)
unfolding create_sockets
new_udp_socket_array n net = create_sockets n [] net

unfoldable pub write_to : ℕ → List ℕ → Addr → Net → Net
write_to s payload to net = record net {
  sent = record { socket = s; payload = payload; to = to } ∷ net.sent;
}

unfoldable pub send_all : List ℕ → List ℕ → Addr → Net → Net
unfolding write_to
send_all [] payload to net = net
send_all (s ∷ socks) payload to net = send_all socks payload to (write_to s payload to net)

-- A datagram that a socket receives.
pub record Arrival : Type 0 where
  pub socket : ℕ
  pub payload : List ℕ
  pub from : Addr

-- The listeners read up to 256 bytes, and tell of a punch packet of this transaction.
unfoldable pub is_punch : ℕ → List ℕ → Bool
unfolding parse_punch_packet
is_punch tid payload = elim (parse_punch_packet (take 256 payload)) [
  | none ↦ false
  | some rx_tid ↦ rx_tid == tid
]

unfoldable pub heard : ℕ → List ℕ → List Arrival → Option (ℕ × Addr)
unfolding elem is_punch
heard tid socks [] = none
heard tid socks (a ∷ arrivals) =
    let later = heard tid socks arrivals in
    if elem ◌==◌ a.socket socks && is_punch tid a.payload then some (a.socket, a.from) else later

-- What happens while the code waits: what arrives, and how long it takes. `missed`: the select takes
-- the timer, though a result may be there.
pub record Wait : Type 0 where
  pub arrivals : List Arrival
  pub missed : Bool
  pub elapsed : ℕ

-- A punch in progress: the clock is in milliseconds; `pending` is the channel of capacity 1.
pub record Punching : Type 0 where
  pub net : Net
  pub waits : List Wait
  pub pending : Option (ℕ × Addr)
  pub now : ℕ

abbrev pub quiet : Wait
quiet = record { arrivals = []; missed = false; elapsed = 0 }

abbrev pub first_wait : List Wait → Wait
first_wait [] = quiet
first_wait (w ∷ ws) = w

abbrev pub later_waits : List Wait → List Wait
later_waits [] = []
later_waits (w ∷ ws) = ws

-- The listeners put a result into the channel unless it is full.
abbrev pub fill : Option (ℕ × Addr) → Option (ℕ × Addr) → Option (ℕ × Addr)
fill none r = r
fill (some p) r = some p

-- Time passes in which the code does not select.
unfoldable pub pass : ℕ → List ℕ → Punching → Punching
unfolding heard
pass tid socks st = record {
  net = st.net;
  waits = later_waits st.waits;
  pending = fill st.pending (heard tid socks (first_wait st.waits).arrivals);
  now = st.now + (first_wait st.waits).elapsed;
}

-- select between the channel and a timer of so many milliseconds.
unfoldable pub select : ℕ → ℕ → List ℕ → Punching → Punching × Option (ℕ × Addr)
unfolding pass
select tid timer socks st =
    let st' = pass tid socks st in
    if (first_wait st.waits).missed
    then (record st' { now = st'.now + timer }, none)
    else elim st'.pending [
      | none ↦ (record st' { now = st'.now + timer }, none)
      | some r ↦ (st', some r)
    ]
