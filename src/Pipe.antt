-- ===== src/Pipe.antt =====
-- internal/pipe/pipe.go: BothWithIdle. The two copy loops and the idle watcher run side by side, so the
-- state changes by events in the order in which they happen: a round of a copy loop, a tick of the
-- watcher. What a read gives, whether a write fails and the clock are the events' arguments. A round is
-- one event, with its last touch: the watcher looks before or after it.
pub mod Copied
pub mod Closed
mod Tests
use f2p.Prelude.{
  ℕ, ◌+◌, ◌-◌, Bool, true, false, not, ◌&&◌, ◌||◌, List, [], ◌∷◌, ◌++◌, Option, none, some, take,
  ltb, if◌then◌else◌,
}

-- A copy loop: what it has read from its source and written to its destination.
pub record Copy : Type 0 where
  pub running : Bool
  pub got : List ℕ
  pub put : List ℕ

pub record Pipe : Type 0 where
  pub b_to_a : Copy
  pub a_to_b : Copy
  pub last_seen : ℕ
  pub watching : Bool
  pub a_closed : Bool
  pub b_closed : Bool

-- A round: the bytes of the read and whether it also gave an error; if the write fails, how many bytes
-- it has written; the times after the read and after the write.
pub record Round : Type 0 where
  pub bytes : List ℕ
  pub read_fails : Bool
  pub write_fails_at : Option ℕ
  pub at : ℕ
  pub written_at : ℕ

pub data Event : Type 0 where
  copies_a_to_b copies_b_to_a : Round → Event
  ticks : ℕ → Event

abbrev pub is_empty : List ℕ → Bool
is_empty [] = true
is_empty (x ∷ xs) = false

unfoldable pub copy_round : Round → Copy → Copy
copy_round r c =
    if is_empty r.bytes then record c { running = not r.read_fails } else elim r.write_fails_at [
      | some k ↦ record { running = false; got = c.got ++ r.bytes; put = c.put ++ take k r.bytes }
      | none ↦ record { running = not r.read_fails; got = c.got ++ r.bytes; put = c.put ++ r.bytes }
    ]

-- The touches of a round that reads something: after the read, and after a write that succeeds.
abbrev touched : Round → ℕ → ℕ
touched r last =
    if is_empty r.bytes then last else elim r.write_fails_at [ some k ↦ r.at | none ↦ r.written_at ]

-- When a loop has finished, the watcher is stopped and both sides are closed.
unfoldable pub finish : Copy → Pipe → Pipe
finish c p =
    if c.running then p else record p { watching = false; a_closed = true; b_closed = true }

unfoldable pub tick : ℕ → ℕ → Pipe → Pipe
tick idle at p =
    if p.watching && ltb idle (at - p.last_seen)
    then record p { watching = false; a_closed = true; b_closed = true }
    else p

unfoldable pub step : ℕ → Event → Pipe → Pipe
unfolding copy_round finish tick
step idle (copies_a_to_b r) p =
    let c = copy_round r p.a_to_b in
    if p.a_to_b.running
    then finish c (record p { a_to_b = c; last_seen = touched r p.last_seen })
    else p
step idle (copies_b_to_a r) p =
    let c = copy_round r p.b_to_a in
    if p.b_to_a.running
    then finish c (record p { b_to_a = c; last_seen = touched r p.last_seen })
    else p
step idle (ticks at) p = tick idle at p

abbrev pub new_copy : Copy
new_copy = record { running = true; got = []; put = [] }

-- No watcher without an idle time.
unfoldable pub start : ℕ → ℕ → Pipe
start idle now = record {
  b_to_a = new_copy;
  a_to_b = new_copy;
  last_seen = now;
  watching = ltb 0 idle;
  a_closed = false;
  b_closed = false;
}

unfoldable pub run : ℕ → List Event → Pipe → Pipe
unfolding step
run idle [] p = p
run idle (e ∷ es) p = run idle es (step idle e p)

-- BothWithIdle from its call on.
unfoldable pub both_with_idle : ℕ → ℕ → List Event → Pipe
unfolding run start
both_with_idle idle now events = run idle events (start idle now)
