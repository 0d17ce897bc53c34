-- ===== src/Message/Dispatcher/Invariant.antt =====
-- Every step keeps the dispatcher sound, loses no message unaccounted and keeps the order of each type.
use f2p.Prelude.{
  ℕ, ◌+◌, ◌%◌, ◌^◌, ◌≡◌, refl, Bool, true, false, List, [], ◌∷◌, ◌++◌, Option, none, some, length,
  arith, length-append, append_assoc, append-nil,
}
use f2p.Prelude.Sublists.{sublist_append, sublist_trans}
use mathlib.Core.List.{Sublistᴰ}
use mathlib.Core.List.Sublistᴰ
use f2p.Proto.{MessageType, UnifiedMessage}
use f2p.Message.{Error}
use f2p.Message.Dispatcher.{
  Dispatcher, Entry, scan, wait_turn, turn_of, turn_by, new_dispatcher, Reader, receiving, start,
  check, read_fails, close,
}
use f2p.Message.Dispatcher.Queues.{
  IsSound, Arrives, Scans, entry_of, picked, enqueue-Arrives, scan-Scans, Scans-IsSound,
  Arrives-IsSound, new_dispatcher-IsSound,
}
use f2p.Message.Dispatcher.History.{
  Event, starts, checks, closes, receives, fails, waits, Output, quiet, accepted, answered, step,
  run, accepted_of, delivered_of, accepted_by, delivered_by, at_receive, kept_and_dropped,
}

-- What one step does to the queue and the counters of a type.
pub record Moves (d d' : Dispatcher) (o : Output) (u : MessageType) : Type 0 where
  pub ordered : Sublistᴰ (delivered_by u o ++ d'.queues u) (d.queues u ++ accepted_by u o)
  pub counted :
      (kept_and_dropped u d' + length (delivered_by u o)) % 2 ^ 64
      ≡ (kept_and_dropped u d + length (accepted_by u o)) % 2 ^ 64

Arrives-Moves :
    (now : ℕ) (msg : UnifiedMessage) (d d' : Dispatcher) (u : MessageType)
    → Arrives now msg d d' u
    → Moves d d' (accepted (entry_of now msg)) u
Arrives-Moves now msg d d' u h = record { ordered = h.ordered; counted = omega (arith, h.counted) }

still :
    (d d' : Dispatcher) (u : MessageType)
    → d'.queues u ≡ d.queues u
    → kept_and_dropped u d' ≡ kept_and_dropped u d
    → Moves d d' quiet u
still d d' u e n = record {
  ordered = rw (append-nil, e) (Sublistᴰ.refl (d.queues u));
  counted = omega (arith, n);
}

-- A turn delivers what its scan picked.
delivered_turn :
    (u : MessageType) (err : Option Error) (closed : Bool) (found : Option Entry)
    → delivered_by u (answered (turn_by err closed found)) ≡ picked u found
delivered_turn u err closed (some e) = refl
delivered_turn u (some x) closed none = refl
delivered_turn u none true none = refl
delivered_turn u none false none = refl

Scans-Moves :
    (d d' : Dispatcher) (found : Option Entry) (u : MessageType)
    → Scans d d' found u
    → Moves d d' (answered (turn_of d' found)) u
Scans-Moves d d' found u h = record {
  ordered = rw (delivered_turn u d'.error d'.closed found, append-nil) h.ordered;
  counted = rw (delivered_turn u d'.error d'.closed found) (omega (arith, h.counted));
}

at_receive_cases {ℓ} :
    (P : Dispatcher × Output → Type ℓ) (r : Reader) (x y : Dispatcher × Output)
    → P x
    → P y
    → P (at_receive r x y)
at_receive_cases P receiving x y p q = p
at_receive_cases P _ x y p q = q

still_start : (d : Dispatcher) (u : MessageType) → Moves d (start d) quiet u
unfolding start
still_start d u = still d (start d) u (ground arith) (ground arith)

still_check : (d : Dispatcher) (u : MessageType) → Moves d (check d) quiet u
unfolding check
still_check d u = still d (check d) u (ground arith) (ground arith)

-- Where the reader stands is nothing to the queues.
reset :
    {now : ℕ} {msg : UnifiedMessage} {d d' : Dispatcher} {u : MessageType} {r : Reader}
    → Arrives now msg d d' u
    → Arrives now msg d (record d' { reader = r }) u
reset h = record { ordered = h.ordered; bounded = h.bounded; counted = h.counted }

-- Each step, at each type.
pub step-Moves :
    (d : Dispatcher) (e : Event)
    → IsSound d
    → (u : MessageType) → Moves d (step d e).0 (step d e).1 u
unfolding step
step-Moves d starts sound u = still_start d u
step-Moves d checks sound u = still_check d u
step-Moves d closes sound u = unfold close in still d (close d) u refl refl
step-Moves d (receives now msg) sound u =
    at_receive_cases (λ p. Moves d p.0 p.1 u) d.reader _ _
      (Arrives-Moves now msg d _ u (reset (enqueue-Arrives now msg d u))) (still d d u refl refl)
step-Moves d (fails e) sound u =
    at_receive_cases (λ p. Moves d p.0 p.1 u) d.reader _ _
      (unfold read_fails in still d (read_fails e d) u refl refl) (still d d u refl refl)
step-Moves d (waits now types) sound u =
    unfold wait_turn in
    Scans-Moves d (scan now types d).0 (scan now types d).1 u (scan-Scans now types d sound u)

same_queues :
    {d d' : Dispatcher} → IsSound d → ((u : MessageType) → d'.queues u ≡ d.queues u) → IsSound d'
same_queues {d} {d'} sound e = record {
  typed = λ u. rw (e u) (sound.typed u);
  bounded = λ u. rw (e u) (sound.bounded u);
}

step-IsSound : (d : Dispatcher) (e : Event) → IsSound d → IsSound (step d e).0
unfolding step
step-IsSound d starts sound = unfold start in same_queues sound (λ u. ground arith)
step-IsSound d checks sound = unfold check in same_queues sound (λ u. ground arith)
step-IsSound d closes sound = unfold close in same_queues sound (λ u. refl)
step-IsSound d (receives now msg) sound =
    at_receive_cases (λ p. IsSound p.0) d.reader _ _
      (Arrives-IsSound now msg d _ (λ u. reset (enqueue-Arrives now msg d u)) sound) sound
step-IsSound d (fails e) sound =
    at_receive_cases (λ p. IsSound p.0) d.reader _ _
      (unfold read_fails in same_queues sound (λ u. refl)) sound
step-IsSound d (waits now types) sound =
    unfold wait_turn in Scans-IsSound d _ (scan now types d).1 (scan-Scans now types d sound) sound

run-IsSound_from : (d : Dispatcher) (es : List Event) → IsSound d → IsSound (run d es).0
unfolding run
run-IsSound_from d [] sound = sound
run-IsSound_from d (e ∷ es) sound = run-IsSound_from (step d e).0 es (step-IsSound d e sound)

-- After any history of a new dispatcher every queue holds at most ten messages, all of its type.
pub run-IsSound : (es : List Event) → IsSound (run new_dispatcher es).0
run-IsSound es = run-IsSound_from new_dispatcher es new_dispatcher-IsSound

-- Two histories in a row.
chain :
    (acc1 acc2 del1 del2 q q1 q2 : List Entry)
    → Sublistᴰ (del1 ++ q1) (q ++ acc1)
    → Sublistᴰ (del2 ++ q2) (q1 ++ acc2)
    → Sublistᴰ ((del1 ++ del2) ++ q2) (q ++ (acc1 ++ acc2))
chain acc1 acc2 del1 del2 q q1 q2 h k =
    rw (append_assoc del1 del2 q2, ← append_assoc q acc1 acc2)
      (sublist_trans (sublist_append (Sublistᴰ.refl del1) k)
        (rw (← append_assoc del1 q1 acc2) (sublist_append h (Sublistᴰ.refl acc2))))

run_ordered_from :
    (t : MessageType) (d : Dispatcher) (es : List Event)
    → IsSound d
    → Sublistᴰ
        (delivered_of t (run d es).1 ++ (run d es).0.queues t)
        (d.queues t ++ accepted_of t (run d es).1)
unfolding run
run_ordered_from t d [] sound = rw append-nil (Sublistᴰ.refl (d.queues t))
run_ordered_from t d (e ∷ es) sound =
    chain (accepted_by t (step d e).1) (accepted_of t (run (step d e).0 es).1)
      (delivered_by t (step d e).1) (delivered_of t (run (step d e).0 es).1) (d.queues t)
      ((step d e).0.queues t) ((run (step d e).0 es).0.queues t) (step-Moves d e sound t).ordered
      (run_ordered_from t (step d e).0 es (step-IsSound d e sound))

-- In any history of a new dispatcher, for each type, what WaitFor handed out and then what is still
-- queued are a sublist of what the reader accepted: nothing is made up, doubled or reordered.
pub run_ordered :
    (t : MessageType) (es : List Event)
    → Sublistᴰ
        (delivered_of t (run new_dispatcher es).1 ++ (run new_dispatcher es).0.queues t)
        (accepted_of t (run new_dispatcher es).1)
unfolding new_dispatcher
run_ordered t es = run_ordered_from t new_dispatcher es new_dispatcher-IsSound

run_counted_from :
    (t : MessageType) (d : Dispatcher) (es : List Event)
    → IsSound d
    → (length (delivered_of t (run d es).1) + kept_and_dropped t (run d es).0) % 2 ^ 64
      ≡ (length (accepted_of t (run d es).1) + kept_and_dropped t d) % 2 ^ 64
unfolding run
run_counted_from t d [] sound = refl
run_counted_from t d (e ∷ es) sound = omega (
  arith,
  (step-Moves d e sound t).counted,
  run_counted_from t (step d e).0 es (step-IsSound d e sound),
  length-append (accepted_by t (step d e).1) (accepted_of t (run (step d e).0 es).1),
  length-append (delivered_by t (step d e).1) (delivered_of t (run (step d e).0 es).1),
)

-- In any history of a new dispatcher, for each type, the messages delivered, the messages queued and
-- the two drop counters add up to the messages accepted (modulo 2 ^ 64, where the counters wrap).
pub run_counted :
    (t : MessageType) (es : List Event)
    → (length (delivered_of t (run new_dispatcher es).1)
          + kept_and_dropped t (run new_dispatcher es).0)
        % 2 ^ 64
      ≡ length (accepted_of t (run new_dispatcher es).1) % 2 ^ 64
unfolding new_dispatcher
run_counted t es = omega (arith, run_counted_from t new_dispatcher es new_dispatcher-IsSound)
