-- ===== src/Client/Monitor.antt =====
-- The loop of monitorControlStream (internal/client/monitor.go), which answers the server's pings. Each
-- message comes with the time of its arrival in milliseconds; the timer goes off first if it is due
-- before the next message.
pub mod Answers
use f2p.Prelude.{
  ℕ, ◌+◌, Bool, true, false, ◌&&◌, ◌||◌, List, [], ◌∷◌, Option, none, some, if◌then◌else◌, String,
  str_eq, ltb,
}
use f2p.Proto.{UnifiedMessage, heartbeat, eq_type, is_shutdown_message}
use f2p.Client.Connection.{Connection, close_control_stream}

abbrev pub heartbeat_limit : ℕ
heartbeat_limit = 25000

-- What the select takes: a message (does a send of the answer succeed?), an error of the dispatcher,
-- the end of the context.
pub data Incoming : Type 0 where
  message : UnifiedMessage → Bool → Incoming
  reader_error ctx_done : Incoming

pub data MonitorEnd : Type 0 where
  ctx_ended heartbeat_timeout reader_failed server_shutdown ack_failed : MonitorEnd

-- The end, and how many answers have been sent.
pub record Monitored : Type 0 where
  pub acks : ℕ
  pub end_of : MonitorEnd

abbrev pub is_ping : UnifiedMessage → Bool
is_ping m = eq_type m.type heartbeat && str_eq m.message "ping"

-- A message: the loop's end, or the time of the new deadline and whether a ping was answered.
pub data Handled : Type 0 where
  ends : MonitorEnd → Handled
  goes_on : ℕ → Bool → Handled

unfoldable pub handle_message : ℕ → ℕ → UnifiedMessage → Bool → Handled
unfolding eq_type is_shutdown_message
handle_message at deadline m send_ok =
    if is_shutdown_message (some m)
    then ends server_shutdown
    else (if eq_type m.type heartbeat
        then (if str_eq m.message "ping"
            then (if send_ok then goes_on (at + heartbeat_limit) true else ends ack_failed)
            else goes_on (at + heartbeat_limit) false)
        else goes_on deadline false)

unfoldable pub handle_incoming : ℕ → ℕ → Incoming → Handled
unfolding handle_message
handle_incoming at deadline (message m send_ok) = handle_message at deadline m send_ok
handle_incoming at deadline reader_error = ends reader_failed
handle_incoming at deadline ctx_done = ends ctx_ended

-- When nothing more comes, the timer goes off.
unfoldable pub monitor_loop : List (ℕ × Incoming) → ℕ → ℕ → Monitored
unfolding handle_incoming
monitor_loop [] deadline acks = record { acks = acks; end_of = heartbeat_timeout }
monitor_loop ((at, i) ∷ rest) deadline acks = elim (ltb deadline at) [
  | true ↦ record { acks = acks; end_of = heartbeat_timeout }
  | false ↦ elim (handle_incoming at deadline i) [
    | ends e ↦ record { acks = acks; end_of = e }
    | goes_on deadline' answered ↦ monitor_loop rest deadline' (if answered then acks + 1 else acks)
  ]
]

-- What the end does to the connection, and after how many milliseconds the connection manager starts
-- again; none if the client is stopping.
abbrev pub closes_stream : MonitorEnd → Bool
closes_stream heartbeat_timeout = true
closes_stream reader_failed = true
closes_stream ack_failed = true
closes_stream ctx_ended = false
closes_stream server_shutdown = false

abbrev pub restart_delay : MonitorEnd → ℕ
restart_delay server_shutdown = 10000
restart_delay _ = 0

unfoldable pub after_monitor : MonitorEnd → Connection → Connection × Option ℕ
unfolding close_control_stream
after_monitor e c =
    let c' = if closes_stream e then close_control_stream c else c in
    (c', if c.stopping then none else some (restart_delay e))

-- Without a control stream, or without its dispatcher, the loop is not entered.
abbrev pub has_stream : Option ℕ → Option ℕ → Bool
has_stream none none = false
has_stream _ _ = true

abbrev pub has_both : Option ℕ → Option ℕ → Bool
has_both (some d) (some m) = true
has_both _ _ = false

unfoldable pub monitor_control_stream : List (ℕ × Incoming) → ℕ → Connection → Connection × Option ℕ
unfolding monitor_loop after_monitor
monitor_control_stream incoming now c =
    if has_stream c.control_stream c.quic_ctrl_close
      && has_both c.control_dispatcher c.control_messager
    then after_monitor (monitor_loop incoming (now + heartbeat_limit) 0).end_of c
    else (c, if c.stopping then none else some 0)
