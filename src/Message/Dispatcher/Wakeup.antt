-- ===== src/Message/Dispatcher/Wakeup.antt =====
-- The token of the dispatcher's `notify` channel, and the callers of `WaitFor` that it wakes.
use f2p.Prelude.{ℕ, suc, ◌-◌, ◌≤◌, ◌≡◌, refl, true, false, List, [], arith}
use mathlib.Core.List.{Memᴰ}
use f2p.Proto.{MessageType, UnifiedMessage}
use f2p.Proto.Equality.{eq_type_self}
use f2p.Message.Dispatcher.{
  Dispatcher, Entry, Turn, message, blocks, enqueue, wait_turn, is_expired, effective_ttl, prune,
  evict,
}
use f2p.Message.Dispatcher.Delivery.{scan-Keeps, wait_turn_live, mem_middle}

abbrev taken : Dispatcher → Dispatcher
taken d = record d { notify = false }

entry_queued :
    (now : ℕ) (msg : UnifiedMessage) (d : Dispatcher)
    → Memᴰ (record { msg = msg; enqueue_at = now }) ((taken (enqueue now msg d)).queues msg.type)
unfolding enqueue
entry_queued now msg d =
    rw (eq_type_self msg.type) (mem_middle (evict (prune now (d.queues msg.type)).0).0 [] _)

still_live :
    (now later : ℕ) (msg : UnifiedMessage)
    → later - now ≤ effective_ttl msg.ttl_ms
    → is_expired later (record { msg = msg; enqueue_at = now }) ≡ false
unfolding is_expired
still_live now later msg h = ground arith

turn_keeps_token :
    (now : ℕ) (types : List MessageType) (d : Dispatcher)
    → (wait_turn now types d).0.notify ≡ d.notify
unfolding wait_turn
turn_keeps_token now types d = (scan-Keeps now types d).2

-- An arrival leaves a token. The caller that takes it makes one turn: if it waits for the message's
-- type and the turn is within the message's lifetime, with nothing in between, it gets a message.
-- And whichever caller takes it, at any time and also one that waits for other types, no token is
-- left after its turn.
pub enqueue_wakes :
    (now later : ℕ) (msg : UnifiedMessage) (types others : List MessageType) (time : ℕ)
    (d : Dispatcher)
    → Memᴰ msg.type types
    → later - now ≤ effective_ttl msg.ttl_ms
    → ((enqueue now msg d).notify ≡ true)
      × ((e : Entry) × ((wait_turn later types (record (enqueue now msg d) { notify = false })).1
            ≡ message e))
      × ((wait_turn time others (record (enqueue now msg d) { notify = false })).0.notify ≡ false)
enqueue_wakes now later msg types others time d m h = (
  unfold enqueue in refl,
  wait_turn_live later types (taken (enqueue now msg d)) msg.type
      (record { msg = msg; enqueue_at = now }) m (entry_queued now msg d)
      (still_live now later msg h),
  turn_keeps_token time others (taken (enqueue now msg d)),
)

-- Callers of WaitFor that sleep in the `select`: the one that gets the token makes its next turn, and
-- sleeps again if that blocks. The index is the dispatcher and the number of sleepers.
abbrev pub sleepers_after : Turn → ℕ → ℕ
sleepers_after blocks n = suc n
sleepers_after _ n = n

pub data Wakes (types : List MessageType) : Dispatcher → ℕ → Dispatcher → ℕ → Type 0 where
  stay : {d : Dispatcher} {n : ℕ} → Wakes types d n d n
  wake :
      {d d' : Dispatcher} {n n' : ℕ} (now : ℕ)
      → d.notify ≡ true
      → Wakes types
          (wait_turn now types (record d { notify = false })).0
          (sleepers_after (wait_turn now types (record d { notify = false })).1 n)
          d'
          n'
      → Wakes types d (suc n) d' n'
