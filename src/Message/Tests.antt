-- ===== src/Message/Tests.antt =====
-- Runs of the frames, the lifetimes and the dispatcher, and their theorems at concrete inputs.
use f2p.Prelude.{
  ℕ, ◌≡◌, refl, true, false, List, [], ◌∷◌, ◌++◌, Option, none, some, arith, String, str_eq, eq_iff,
  Bool-cases, inl, inr, length, ◌%◌, ◌^◌, ◌+◌,
}
use mathlib.Core.Logic.{ite, if_pos}
use mathlib.Core.List.{Sublistᴰ, Memᴰ}
use native.Mathlib.Decide.{ℕ_discrete}
use f2p.Wire.{put_u32}
use f2p.Proto.{UnifiedMessage, empty_message, heartbeat, server_shutdown, eq_type}
use f2p.Message.{Codec, IsFaithful, Conn, ping, pong, send_message, write_full, delivered, seconds}
use f2p.Message.Frame.Stream.{receive_all-send_all, send_all, receive_all}
use f2p.Message.Dispatcher.{
  Dispatcher, Entry, new_dispatcher, start, check, enqueue, prune, evict, is_expired, wait_turn,
  scan, take_from, scan_queue, close, message, effective_ttl,
}
use f2p.Message.Dispatcher.History.{
  Event, starts, checks, closes, receives, waits, run, step, delivered_of, accepted_of,
  kept_and_dropped,
}
use f2p.Message.Dispatcher.Queues.{IsSound}
use f2p.Message.Dispatcher.Invariant.{run-IsSound, run_ordered, run_counted}
use f2p.Message.Dispatcher.Delivery.{wait_turn-Answers, Answers}
use f2p.Message.Dispatcher.Wakeup.{enqueue_wakes}

String-discrete : Discrete String
String-discrete s t = elim (Bool-cases (str_eq s t)) [
  | inl e ↦ yes ((eq_iff s t).0 e)
  | inr e ↦ no (λ p. cc ((eq_iff s t).1 p))
]

UnifiedMessage-discrete : Discrete UnifiedMessage
UnifiedMessage-discrete = hlevel (String-discrete, ℕ_discrete)

-- A codec that knows two messages.
abbrev toy : Codec
toy = record {
  marshal = λ m.
      ite (UnifiedMessage-discrete m ping) (some (1 ∷ []))
        (ite (UnifiedMessage-discrete m empty_message) (some []) none);
  unmarshal = toy_unmarshal;
}
  where
    toy_unmarshal : List ℕ → Option UnifiedMessage
    toy_unmarshal [] = some empty_message
    toy_unmarshal (b ∷ bytes) = some ping

toy-IsFaithful : IsFaithful toy
toy-IsFaithful = record { reads_back = λ m bytes e. ground arith; empty_bytes = refl }

abbrev conn : Conn
conn = record {
  inbox = [];
  outbox = 9 ∷ [];
  writes =
      record { taken = 3; fails = false }
      ∷ record { taken = 9; fails = false }
      ∷ record { taken = 1; fails = false }
      ∷ [];
}

toy-ping : toy.marshal ping ≡ some (1 ∷ [])
toy-ping = if_pos (UnifiedMessage-discrete ping ping) refl _ _

abbrev brisk : Conn
brisk = record {
  inbox = [];
  outbox = [];
  writes = record { taken = 1; fails = false } ∷ record { taken = 4; fails = false } ∷ [];
}

send_ping :
    send_message toy conn ping
    ≡ (record { inbox = []; outbox = 9 ∷ 0 ∷ 0 ∷ 0 ∷ 1 ∷ 1 ∷ []; writes = [] }, delivered)
unfolding send_message write_full put_u32
send_ping = rw (toy-ping, send_message) refl

sent_ping : (send_message toy conn ping).1 ≡ delivered
sent_ping = rw send_ping refl

receive_all-send_all_example :
    (wire : List ℕ) × ((send_all toy conn (ping ∷ [])).outbox ≡ conn.outbox ++ wire)
    × (receive_all toy (length (ping ∷ [])) (wire ++ (5 ∷ [])) ≡ (ping ∷ [], 5 ∷ []))
receive_all-send_all_example =
    receive_all-send_all toy (ping ∷ []) conn (5 ∷ []) toy-IsFaithful (sent_ping, tt)

-- Two heartbeats, one of them expired when it is asked for.
abbrev history : List Event
history =
    starts
    ∷ checks
    ∷ receives 0 ping
    ∷ checks
    ∷ receives (seconds 5) pong
    ∷ waits (seconds 6) (heartbeat ∷ [])
    ∷ closes
    ∷ []

run-history :
    delivered_of heartbeat (run new_dispatcher history).1
    ≡ record { msg = pong; enqueue_at = seconds 5 } ∷ []
unfolding run step new_dispatcher start check enqueue prune evict is_expired wait_turn scan
    take_from scan_queue close eq_type
run-history = refl

run-IsSound_example : IsSound (run new_dispatcher history).0
run-IsSound_example = run-IsSound history

run_ordered_example :
    Sublistᴰ
      (delivered_of heartbeat (run new_dispatcher history).1
        ++ (run new_dispatcher history).0.queues heartbeat)
      (accepted_of heartbeat (run new_dispatcher history).1)
run_ordered_example = run_ordered heartbeat history

run_counted_example :
    (length (delivered_of heartbeat (run new_dispatcher history).1)
        + kept_and_dropped heartbeat (run new_dispatcher history).0)
      % 2 ^ 64
    ≡ length (accepted_of heartbeat (run new_dispatcher history).1) % 2 ^ 64
run_counted_example = run_counted heartbeat history

abbrev one_queued : Dispatcher
one_queued = enqueue (seconds 5) ping new_dispatcher

wait_turn-Answers_example :
    Answers
      (seconds 6)
      (heartbeat ∷ [])
      one_queued
      (wait_turn (seconds 6) (heartbeat ∷ []) one_queued).1
wait_turn-Answers_example = wait_turn-Answers (seconds 6) (heartbeat ∷ []) one_queued

abbrev queued_ping : Entry
queued_ping = record { msg = ping; enqueue_at = seconds 5 }

enqueue_wakes_example :
    ((enqueue (seconds 5) ping new_dispatcher).notify ≡ true)
    × ((e : Entry) × ((wait_turn
            (seconds 6)
            (heartbeat ∷ [])
            (record (enqueue (seconds 5) ping new_dispatcher) { notify = false })).1
          ≡ message e))
    × ((wait_turn
          (seconds 6)
          (server_shutdown ∷ [])
          (record (enqueue (seconds 5) ping new_dispatcher) { notify = false })).0.notify
        ≡ false)
unfolding effective_ttl
enqueue_wakes_example =
    enqueue_wakes (seconds 5) (seconds 6) ping (heartbeat ∷ []) (server_shutdown ∷ []) (seconds 6)
      new_dispatcher (Memᴰ.head refl) (omega arith)

-- Three callers wait, the dispatcher is closed, and two of them sleep on.
abbrev after_close : Dispatcher
after_close = (wait_turn 0 (heartbeat ∷ []) (record (close new_dispatcher) { notify = false })).0
