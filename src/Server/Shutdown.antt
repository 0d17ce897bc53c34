-- ===== src/Server/Shutdown.antt =====
-- Stop of internal/server/server.go with notifyClientsServerShutdown of info.go. The goroutines of the
-- clients run in one of their orders; whether a notice arrives is up to the connection.
use f2p.Prelude.{ℕ, ◌≡◌, ◌≤◌, refl, Bool, false, List, [], ◌∷◌, some, All, arith, ltb, ap, ◌∙◌, map}
use f2p.Proto.{UnifiedMessage, is_shutdown_message}
use f2p.Message.{server_shutdown_notice}
use f2p.Server.Sessions.{ClientSession, Sessions, close_stream}
use f2p.Client.Connection.{Connection}
use f2p.Client.Monitor.{
  Incoming, message, server_shutdown, monitor_loop, handle_incoming, handle_message, after_monitor,
}

-- What a server has done when it has stopped.
pub record Stopped : Type 0 where
  pub notices : List (ℕ × UnifiedMessage)
  pub closed : List ℕ

unfoldable pub notify_clients : List (ℕ × ClientSession) → List ℕ → Stopped
notify_clients [] closed = record { notices = []; closed = closed }
notify_clients ((peer, cs) ∷ clients) closed =
    let rest = notify_clients clients (close_stream cs.control_stream closed) in
    record rest { notices = (peer, server_shutdown_notice) ∷ rest.notices }

unfoldable pub stop : Sessions → Stopped
unfolding notify_clients
stop s = notify_clients s.authenticated_clients s.closed

-- A client that gets this message in time, ends its monitor for the shutdown, leaves its connection as
-- it is, and starts again after ten seconds.
abbrev pub RestartsLater : UnifiedMessage → Type 0
RestartsLater m =
    (at deadline acks : ℕ) (ok : Bool) (rest : List (ℕ × Incoming)) (c : Connection)
    → at ≤ deadline
    → c.stopping ≡ false
    → after_monitor (monitor_loop ((at, message m ok) ∷ rest) deadline acks).end_of c
      ≡ (c, some 10000)

in_time : (at deadline : ℕ) → at ≤ deadline → ltb deadline at ≡ false
in_time at deadline h = ground arith

ends_shutdown :
    (at deadline acks : ℕ) (ok : Bool) (rest : List (ℕ × Incoming))
    → at ≤ deadline
    → (monitor_loop ((at, message server_shutdown_notice ok) ∷ rest) deadline acks).end_of
      ≡ server_shutdown
unfolding monitor_loop handle_incoming handle_message is_shutdown_message
ends_shutdown at deadline acks ok rest h = rw (in_time at deadline h, monitor_loop) refl

restarts : (c : Connection) → c.stopping ≡ false → after_monitor server_shutdown c ≡ (c, some 10000)
unfolding after_monitor
restarts c s = rw (s, after_monitor) refl

notice-RestartsLater : RestartsLater server_shutdown_notice
notice-RestartsLater at deadline acks ok rest c h s =
    ap (λ e. after_monitor e c) (ends_shutdown at deadline acks ok rest h) ∙ restarts c s

-- Every client gets its notice, and nobody else does.
abbrev pub IsNotified : List (ℕ × ClientSession) → Stopped → Type 0
IsNotified clients r =
    (map (λ n. n.0) r.notices ≡ map (λ e. e.0) clients) × All (λ n. RestartsLater n.1) r.notices

notify_clients-IsNotified :
    (clients : List (ℕ × ClientSession)) (closed : List ℕ)
    → IsNotified clients (notify_clients clients closed)
unfolding notify_clients
notify_clients-IsNotified [] closed = (refl, tt)
notify_clients-IsNotified ((peer, cs) ∷ clients) closed =
    let (peers, all) = notify_clients-IsNotified clients (close_stream cs.control_stream closed) in
    (ap (λ ps. peer ∷ ps) peers, (notice-RestartsLater, all))

-- A server that stops sends one notice to each client of its table, and a client that gets it in time
-- ends its monitor, leaves its connection as it is, and starts again after ten seconds, unless it is
-- stopping itself.
pub stop-IsNotified : (s : Sessions) → IsNotified s.authenticated_clients (stop s)
unfolding stop
stop-IsNotified s = notify_clients-IsNotified s.authenticated_clients s.closed
