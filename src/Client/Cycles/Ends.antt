-- ===== src/Client/Cycles/Ends.antt =====
-- The wait for a direct connection ends within its rounds, so a cycle never fails for want of them.
use f2p.Prelude.{
  ℕ, zero, suc, ◌+◌, ◌*◌, ◌≤◌, ◌≡◌, ◌≢◌, refl, Bool, true, false, List, Option, none, some, arith,
  ltb, Bool-cases, inl, inr,
}
use f2p.Config.{LocalServiceConfig}
use f2p.Client.HolePunch.{World, Attempt, attempt_hole_punch}
use f2p.Client.Streams.{is_relay_connection}
use f2p.Client.Connecting.{Link, SetupWorld, SetupEnd, setup_quic_protocol, setup_libp2p_protocol}
use f2p.Client.Cycles.{
  Poll, first_poll, later_polls, sees, context_ends, Waited, became_direct, gave_up, fuel_ran_out,
  wait_for_direct_connection, Cycle, CycleEnd, waiting_failed, with_setup, punching, take_punched,
  try_hole_punches, after_connect, connect_to_server, dcutr_wait_timeout, max_hole_punch_attempts,
}
use f2p.Client.Cycles.Branches.{on_bool, on_attempt}

by_relay :
    (relay : Bool) (rest : Waited)
    → rest ≢ fuel_ran_out
    → (elim relay [ false ↦ became_direct | true ↦ rest ]) ≢ fuel_ran_out
by_relay true rest h = h
by_relay false rest h = λ e. ground arith

by_poll :
    (p : Poll) (rest : ℕ → Waited)
    → ((late : ℕ) → rest late ≢ fuel_ran_out)
    → (elim p [
      | context_ends ↦ gave_up
      | sees late conns ↦ elim (is_relay_connection conns) [
        | false ↦ became_direct
        | true ↦ rest late
      ]
    ])
      ≢ fuel_ran_out
by_poll context_ends rest h = λ e. ground arith
by_poll (sees late conns) rest h = by_relay (is_relay_connection conns) (rest late) (h late)

not_before : (a b : ℕ) → b ≤ a → ltb a b ≡ false
not_before a b h = ground arith

-- Half a second passes in each round.
wait_for_direct_connection-ends :
    (fuel deadline now : ℕ) (polls : List Poll)
    → deadline ≤ now + 500 * fuel
    → wait_for_direct_connection (suc fuel) deadline now polls ≢ fuel_ran_out
unfolding wait_for_direct_connection
wait_for_direct_connection-ends zero deadline now polls h =
    rw (not_before now deadline (omega arith), wait_for_direct_connection) (λ e. ground arith)
wait_for_direct_connection-ends (suc fuel) deadline now polls h =
    elim (Bool-cases (ltb now deadline)) [
      | inr f ↦ rw (f, wait_for_direct_connection) (λ e. ground arith)
      | inl t ↦
          rw (t, wait_for_direct_connection)
            (by_poll (first_poll polls)
              (λ late.
                wait_for_direct_connection (suc fuel) deadline (now + (500 + late))
                  (later_polls polls))
              (λ late.
                wait_for_direct_connection-ends fuel deadline (now + (500 + late))
                  (later_polls polls) (omega arith)))
    ]

abbrev HasEnd : Link × CycleEnd → Type 0
HasEnd r = r.1 ≢ waiting_failed

with_setup-HasEnd : (r : Link × SetupEnd) → HasEnd (with_setup r)
with_setup-HasEnd (l, e) = λ h. ground arith

try_hole_punches-HasEnd :
    (left : ℕ) (last : Option Attempt) (ws : ℕ → World) (setup : SetupWorld)
    (services : List LocalServiceConfig) (l : Link)
    → HasEnd (try_hole_punches left last ws setup services l)
unfolding try_hole_punches
try_hole_punches-HasEnd zero last ws setup services l = λ h. ground arith
try_hole_punches-HasEnd (suc left) last ws setup services l =
    let r = attempt_hole_punch (ws left) (punching l) in
    let l' = take_punched l r.0 in
    on_attempt HasEnd r.1 _ (λ f. try_hole_punches left (some f) ws setup services l')
      (with_setup-HasEnd (setup_quic_protocol setup services l'))
      (λ f. try_hole_punches-HasEnd left (some f) ws setup services l')

by_wait :
    (x : Waited) (a b : Link × CycleEnd) (l : Link)
    → x ≢ fuel_ran_out
    → HasEnd a
    → HasEnd b
    → HasEnd (elim x [ became_direct ↦ a | gave_up ↦ b | fuel_ran_out ↦ (l, waiting_failed) ])
by_wait became_direct a b l n ha hb = ha
by_wait gave_up a b l n ha hb = hb
by_wait fuel_ran_out a b l n ha hb = absurd (n refl)

after_connect-HasEnd :
    (w : Cycle) (services : List LocalServiceConfig) (l : Link)
    → HasEnd (after_connect w services l)
unfolding after_connect
after_connect-HasEnd w services l =
    let direct = with_setup-HasEnd (setup_libp2p_protocol w.setup services l) in
    on_bool HasEnd (is_relay_connection w.conns) _ _
      (by_wait (wait_for_direct_connection 31 (w.now + dcutr_wait_timeout) w.now w.polls) _ _ l
        (wait_for_direct_connection-ends 30 (w.now + dcutr_wait_timeout) w.now w.polls
          (omega arith))
        direct (try_hole_punches-HasEnd max_hole_punch_attempts none w.attempts w.setup services l))
      direct

-- A cycle of the client always ends in one of the ways of the code: the rounds that the model gives to
-- the wait for a direct connection are enough, whenever and however the connections change.
pub connect_to_server-HasEnd :
    (w : Cycle) (services : List LocalServiceConfig) (l : Link)
    → (connect_to_server w services l).1 ≢ waiting_failed
unfolding connect_to_server
connect_to_server-HasEnd w services l =
    on_bool HasEnd w.found _ _
      (on_bool HasEnd w.connects _ _ (after_connect-HasEnd w services _) (λ e. ground arith))
      (λ e. ground arith)
