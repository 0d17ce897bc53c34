-- ===== src/Pipe/Closed.antt =====
-- When a pipe closes its two sides.
use f2p.Prelude.{ℕ, ◌<◌, ◌-◌, ◌≡◌, refl, ◌↔◌, true, false, not, ◌&&◌, List, [], ◌∷◌, arith, ltb}
use f2p.Pipe.{
  Pipe, Event, copies_a_to_b, copies_b_to_a, ticks, finish, tick, step, run, start, both_with_idle,
}

-- Both sides are closed or neither, and they are closed when a loop has ended; the watcher is off only
-- when they are closed or there is no idle time.
pub record IsConsistent (idle : ℕ) (p : Pipe) : Type 0 where
  pub together : p.a_closed ≡ p.b_closed
  pub ended : (p.a_to_b.running && p.b_to_a.running) ≡ false → p.a_closed ≡ true
  pub watched : p.watching ≡ (not p.a_closed && ltb 0 idle)

step-IsConsistent :
    (idle : ℕ) (e : Event) (p : Pipe) → IsConsistent idle p → IsConsistent idle (step idle e p)
unfolding step finish tick
step-IsConsistent idle (copies_a_to_b r) p h = ground arith
step-IsConsistent idle (copies_b_to_a r) p h = ground arith
step-IsConsistent idle (ticks at) p h = ground arith

run-IsConsistent :
    (idle : ℕ) (es : List Event) (p : Pipe)
    → IsConsistent idle p
    → IsConsistent idle (run idle es p)
unfolding run
run-IsConsistent idle [] p h = h
run-IsConsistent idle (e ∷ es) p h = run-IsConsistent idle es _ (step-IsConsistent idle e p h)

-- In every state of a pipe both sides are closed or neither, and they are closed once either direction
-- has finished.
pub both_with_idle-IsConsistent :
    (idle now : ℕ) (es : List Event) → IsConsistent idle (both_with_idle idle now es)
unfolding both_with_idle start
both_with_idle-IsConsistent idle now es =
    run-IsConsistent idle es (start idle now)
      (record { together = refl; ended = λ e. ground arith; watched = ground arith })

-- While both directions run, a tick of the watcher closes an open pipe exactly when there is an idle
-- time and more than it has passed since the last touch of a read or a write.
pub idle_closes :
    (idle now at : ℕ) (es : List Event)
    → (both_with_idle idle now es).a_closed ≡ false
    → ((step idle (ticks at) (both_with_idle idle now es)).a_closed ≡ true)
      ↔ ((0 < idle) × (idle < at - (both_with_idle idle now es).last_seen))
unfolding step tick
idle_closes idle now at es h = ground (arith, (both_with_idle-IsConsistent idle now es).watched)
