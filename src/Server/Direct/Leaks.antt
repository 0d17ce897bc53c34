-- ===== src/Server/Direct/Leaks.antt =====
-- Which sockets the server's side of a hole punch leaves open.
use f2p.Prelude.{
  sym, ℕ, ◌≡◌, refl, ◌∙◌, Bool, true, false, ◌||◌, ◌&&◌, not, List, Option, none, some, arith, ◌==◌,
}
use f2p.Holepunch.Sockets.{Net, is_open}
use f2p.Holepunch.Sockets.Held.{IsFresh, is_open-close}
use f2p.Holepunch.Punch.{
  PunchedSocket, PunchResult, punched, no_socket_array, timed_out, no_punch_socket,
  unsupported_method, fuel_exhausted,
}
use f2p.Holepunch.Punch
use f2p.Holepunch.Execute.{execute_punch, close_given}
use f2p.Holepunch.Execute.Faithful.{stays_open}
use f2p.Holepunch.Execute.Kept.{IsOpenIn}
use f2p.Holepunch.Execute.Outcome.{execute_punch_open}
use f2p.Holepunch.Direct.{AcceptOutside, Authed, accept_and_auth_quic}
use f2p.Holepunch.Signaling.{Prepared}
use f2p.Server.Direct.{
  Direct, punch_failed, listen_failed, auth_failed, connected, after_auth, after_punch,
  handle_punch_and_quic,
}

abbrev pub is_given : ℕ → Option ℕ → Bool
is_given x none = false
is_given x (some s) = x == s

-- Is a socket open after the punch and the authentication, with this end?
abbrev pub left_open : Direct → Option ℕ → Net → ℕ → Bool
left_open (punch_failed r) sock net x = not (is_given x sock) && is_open x net
left_open (listen_failed p) sock net x = not (x == p.conn) && is_open x net
left_open (auth_failed p r) sock net x = x == p.conn || is_open x net
left_open (connected p) sock net x = x == p.conn || is_open x net

pub is_open-close_given :
    (x : ℕ) (sock : Option ℕ) (net : Net)
    → is_open x (close_given sock net) ≡ (not (is_given x sock) && is_open x net)
unfolding close_given
is_open-close_given x none net = refl
is_open-close_given x (some s) net = ground (arith, is_open-close x s net)

after_auth-left_open :
    (p : PunchedSocket) (r : Authed) (sock : Option ℕ) (net : Net) (x : ℕ)
    → left_open (after_auth p r) sock net x ≡ (x == p.conn || is_open x net)
after_auth-left_open p r sock net x = ground arith

after_punch-left_open :
    (listens : Bool) (a : AcceptOutside) (token : List ℕ) (sock : Option ℕ) (base : Net)
    (r : Net × PunchResult) (x : ℕ)
    → is_open x r.0 ≡ stays_open r.1 base x
    → is_open x (after_punch listens a token sock r).0
      ≡ left_open (after_punch listens a token sock r).1 sock base x
unfolding after_punch
after_punch-left_open true a token sock base (net, punched p) x h =
    h ∙ sym (after_auth-left_open p (accept_and_auth_quic a token).result sock base x)
after_punch-left_open false a token sock base (net, punched p) x h =
    ground (arith, is_open-close x p.conn net)
after_punch-left_open listens a token sock base (net, no_socket_array) x h =
    ground (arith, is_open-close_given x sock net)
after_punch-left_open listens a token sock base (net, timed_out) x h =
    ground (arith, is_open-close_given x sock net)
after_punch-left_open listens a token sock base (net, no_punch_socket) x h =
    ground (arith, is_open-close_given x sock net)
after_punch-left_open listens a token sock base (net, unsupported_method) x h =
    ground (arith, is_open-close_given x sock net)
after_punch-left_open listens a token sock base (net, fuel_exhausted) x h =
    ground (arith, is_open-close_given x sock net)

-- After the server's side of a punch with an open socket or none (new ones having numbers that are not
-- in use) the sockets are those that were open before, except that: a failed
-- punch has closed the punch socket, a failed QUIC listener has closed the punched one, and both an
-- authenticated connection and a failed authentication leave the punched socket open.
pub handle_punch_and_quic_open :
    (o : Punch.Outside) (listens : Bool) (a : AcceptOutside) (token : List ℕ) (p : Prepared)
    (sock : Option ℕ) (net : Net)
    → IsFresh net
    → IsOpenIn net sock
    → (x : ℕ)
    → is_open x (handle_punch_and_quic o listens a token p sock net).0
      ≡ left_open (handle_punch_and_quic o listens a token p sock net).1 sock net x
unfolding handle_punch_and_quic
handle_punch_and_quic_open o listens a token p sock net f g x =
    after_punch-left_open listens a token sock net
      (execute_punch o p.my_nat.type p.client_nat p.method p.tid sock net) x
      (execute_punch_open o p.my_nat.type p.client_nat p.method p.tid sock net f g x)
