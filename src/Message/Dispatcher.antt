-- ===== src/Message/Dispatcher.antt =====
-- internal/message/dispatcher.go: a queue for each message type between the one reader of a stream and
-- the callers of `WaitFor`. Time is an argument, in nanoseconds; a map is a function from its keys.
mod Parts
pub mod Queues
pub mod History
pub mod Invariant
pub mod Wakeup
pub mod Delivery
use f2p.Prelude.{
  ℕ, zero, suc, ◌+◌, ◌-◌, ◌%◌, ◌^◌, Bool, true, false, List, [], ◌∷◌, ◌++◌, Option, none, some,
  length, drop, ltb, leb, if◌then◌else◌, not,
}
use f2p.Proto.{MessageType, UnifiedMessage, eq_type}
use f2p.Message.{Error, milliseconds, seconds}

pub record Entry : Type 0 where
  pub msg : UnifiedMessage
  pub enqueue_at : ℕ

-- Where the goroutine of `Start` stands: not started, before its test of `IsClosed`, inside
-- `receiveMessage`, or returned.
pub data Reader : Type 0 where
  idle at_check receiving ended : Reader

-- `notify` is the channel of capacity 1: whether it holds a token.
pub record Dispatcher : Type 0 where
  pub queues : MessageType → List Entry
  pub closed : Bool
  pub error : Option Error
  pub started : Bool
  pub dropped_expired : MessageType → ℕ  -- uint64
  pub dropped_overflow : MessageType → ℕ  -- uint64
  pub notify : Bool
  pub reader : Reader

abbrev pub per_type_limit : ℕ
per_type_limit = 10

-- Assignment to a key of a Go map.
abbrev pub update {ℓ} : {A : Type ℓ} → (MessageType → A) → MessageType → A → MessageType → A
update f t v u = if eq_type t u then v else f u

unfoldable pub new_dispatcher : Dispatcher
new_dispatcher = record {
  queues = λ t. [];
  closed = false;
  error = none;
  started = false;
  dropped_expired = λ t. 0;
  dropped_overflow = λ t. 0;
  notify = false;
  reader = idle;
}

-- The lifetime that counts: never below one second.
unfoldable pub effective_ttl : ℕ → ℕ
effective_ttl ttl_ms =
    let ttl = milliseconds ttl_ms in if ltb ttl (seconds 1) then seconds 1 else ttl

unfoldable pub is_expired : ℕ → Entry → Bool
unfolding effective_ttl
is_expired now e = ltb (effective_ttl e.msg.ttl_ms) (now - e.enqueue_at)

-- The first loop of the reader: expired entries go from the head, and are counted.
unfoldable pub prune : ℕ → List Entry → List Entry × ℕ
prune now [] = ([], 0)
prune now (e ∷ q) =
    let rest = prune now q in if is_expired now e then (rest.0, suc rest.1) else (e ∷ q, 0)

-- A counter that wraps, after n increments.
abbrev pub add64 : ℕ → ℕ → ℕ
add64 a n = (a + n) % 2 ^ 64

-- The queue of the message's type after the prune, with the oldest entry evicted when it is full.
unfoldable pub evict : List Entry → List Entry × ℕ
evict q = if leb per_type_limit (length q) then (drop 1 q, 1) else (q, 0)

-- `broadcast`: a non-blocking send.
abbrev pub broadcast : Dispatcher → Dispatcher
broadcast d = record d { notify = true }

-- What the reader does with a message that it has read.
unfoldable pub enqueue : ℕ → UnifiedMessage → Dispatcher → Dispatcher
enqueue now msg d =
    let t = msg.type in
    let (live, expired) = prune now (d.queues t) in
    let (kept, evicted) = evict live in
    broadcast (record d {
      queues = update d.queues t (kept ++ (record { msg = msg; enqueue_at = now } ∷ []));
      dropped_expired = update d.dropped_expired t (add64 (d.dropped_expired t) expired);
      dropped_overflow = update d.dropped_overflow t (add64 (d.dropped_overflow t) evicted);
    })

unfoldable pub start : Dispatcher → Dispatcher
start d = if d.started then d else record d { started = true; reader = at_check }

-- The test at the top of the reader's loop.
unfoldable pub check : Dispatcher → Dispatcher
check d = elim d.reader [
  | at_check ↦ record d { reader = if d.closed then ended else receiving }
  | _ ↦ d
]

-- `receiveMessage` returned an error.
unfoldable pub read_fails : Error → Dispatcher → Dispatcher
read_fails e d =
    broadcast (record d { error = if d.closed then d.error else some e; reader = ended })

unfoldable pub close : Dispatcher → Dispatcher
close d = broadcast (record d { closed = true })

-- The inner loop of WaitFor: the first entry that has not expired, what stays queued behind it, and
-- the number of expired entries passed over.
unfoldable pub scan_queue : ℕ → List Entry → Option Entry × List Entry × ℕ
scan_queue now [] = (none, [], 0)
scan_queue now (e ∷ q) =
    let rest = scan_queue now q in
    if is_expired now e then (rest.0, rest.1, suc rest.2) else (some e, q, 0)

-- The assignments of one type's turn.
unfoldable pub take_from : ℕ → MessageType → Dispatcher → Dispatcher × Option Entry
take_from now t d =
    let (found, q, expired) = scan_queue now (d.queues t) in
    (
      record d {
        queues = update d.queues t q;
        dropped_expired = update d.dropped_expired t (add64 (d.dropped_expired t) expired);
      },
      found,
    )

-- An entry that was found ends the loop over the types; otherwise it goes on.
abbrev pub or_next :
    Dispatcher → Dispatcher × Option Entry → Option Entry → Dispatcher × Option Entry
or_next d rest (some e) = (d, some e)
or_next d rest none = rest

-- The loop over the requested types: it stops at the first entry found.
unfoldable pub scan : ℕ → List MessageType → Dispatcher → Dispatcher × Option Entry
scan now [] d = (d, none)
scan now (t ∷ types) d =
    let (d', found) = take_from now t d in let rest = scan now types d' in or_next d' rest found

pub data WaitError : Type 0 where
  read_error : Error → WaitError
  dispatcher_closed context_done : WaitError

-- One turn of WaitFor's loop ends with a message, with an error, or in the `select`.
pub data Turn : Type 0 where
  message : Entry → Turn
  failure : WaitError → Turn
  blocks : Turn

-- After the loop over the types: a message, then the reader's error, then the closing flag.
abbrev pub turn_by : Option Error → Bool → Option Entry → Turn
turn_by err closed (some e) = message e
turn_by (some x) closed none = failure (read_error x)
turn_by none true none = failure dispatcher_closed
turn_by none false none = blocks

abbrev pub turn_of : Dispatcher → Option Entry → Turn
turn_of d found = turn_by d.error d.closed found

unfoldable pub wait_turn : ℕ → List MessageType → Dispatcher → Dispatcher × Turn
wait_turn now types d = let (d', found) = scan now types d in (d', turn_of d' found)

-- What a turn that blocks in the `select` is woken by: the token, which it takes, or its context.
pub data Wake : Type 0 where
  notified : ℕ → Wake
  cancelled : Wake

-- WaitFor when nobody else touches the dispatcher: each wake-up is the next one of the list, and
-- `none` means that the call still waits. The list ends the recursion.
unfoldable pub wait_for : ℕ → List MessageType → List Wake → Dispatcher → Dispatcher × Turn
wait_for now types [] d = wait_turn now types d
wait_for now types (w ∷ ws) d =
    let (d', turn) = wait_turn now types d in
    let again = λ (later : ℕ). wait_for later types ws (record d' { notify = false }) in
    elim turn [
      | blocks ↦ elim w [ notified later ↦ again later | cancelled ↦ (d', failure context_done) ]
      | other ↦ (d', other)
    ]
