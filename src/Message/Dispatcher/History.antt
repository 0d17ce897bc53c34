-- ===== src/Message/Dispatcher/History.antt =====
-- Histories of a dispatcher: its reader's steps, `Close` and turns of `WaitFor`, in any order.
-- Each holds the mutex, so they do not overlap.
use f2p.Prelude.{ℕ, List, [], ◌∷◌, ◌++◌, if◌then◌else◌, ◌+◌, length}
use f2p.Proto.{MessageType, UnifiedMessage, eq_type}
use f2p.Message.{Error}
use f2p.Message.Dispatcher.{
  Dispatcher, Entry, Turn, message, receiving, Reader, start, check, enqueue, read_fails, close,
  wait_turn,
}

pub data Event : Type 0 where
  starts checks closes : Event
  receives : ℕ → UnifiedMessage → Event
  fails : Error → Event
  waits : ℕ → List MessageType → Event

pub data Output : Type 0 where
  quiet : Output
  accepted : Entry → Output
  answered : Turn → Output

-- A read ends only while the reader is inside `receiveMessage`; after it the reader is at its test.
abbrev pub at_receive : Reader → Dispatcher × Output → Dispatcher × Output → Dispatcher × Output
at_receive receiving reading other = reading
at_receive _ reading other = other

unfoldable pub step : Dispatcher → Event → Dispatcher × Output
step d starts = (start d, quiet)
step d checks = (check d, quiet)
step d closes = (close d, quiet)
step d (receives now msg) =
    at_receive d.reader
      (
        record (enqueue now msg d) { reader = Reader.at_check },
        accepted (record { msg = msg; enqueue_at = now }),
      )
      (d, quiet)
step d (fails e) = at_receive d.reader (read_fails e d, quiet) (d, quiet)
step d (waits now types) = let (d', turn) = wait_turn now types d in (d', answered turn)

unfoldable pub run : Dispatcher → List Event → Dispatcher × List Output
run d [] = (d, [])
run d (e ∷ es) = let (d', o) = step d e in let (d'', os) = run d' es in (d'', o ∷ os)

-- The entries of a type that an output accepts or delivers.
abbrev pub only : MessageType → Entry → List Entry
only t e = if eq_type e.msg.type t then e ∷ [] else []

abbrev pub accepted_by : MessageType → Output → List Entry
accepted_by t (accepted e) = only t e
accepted_by t _ = []

abbrev pub delivered_by : MessageType → Output → List Entry
delivered_by t (answered (message e)) = only t e
delivered_by t _ = []

abbrev pub accepted_of : MessageType → List Output → List Entry
accepted_of t [] = []
accepted_of t (o ∷ os) = accepted_by t o ++ accepted_of t os

abbrev pub delivered_of : MessageType → List Output → List Entry
delivered_of t [] = []
delivered_of t (o ∷ os) = delivered_by t o ++ delivered_of t os

-- The entries of a type that are queued or were counted as dropped.
abbrev pub kept_and_dropped : MessageType → Dispatcher → ℕ
kept_and_dropped t d = length (d.queues t) + d.dropped_expired t + d.dropped_overflow t
