-- ===== src/Client/Cycles/Intervals.antt =====
-- How long the connection manager waits between its attempts.
use f2p.Prelude.{
  ℕ, zero, suc, ◌+◌, ◌*◌, ◌/◌, ◌≤◌, ◌≡◌, refl, ◌∙◌, subst, Bool, true, false, ◌&&◌, ◌||◌, List, [],
  ◌∷◌, Option, none, some, arith, if◌then◌else◌, ltb, All,
}
use f2p.Config.{LocalServiceConfig}
use f2p.Message.{seconds}
use f2p.Client.{
  Client, AuthOutcome, logged_in, user_left, no_requirement, password_unread, request_not_sent,
  no_answer, wrong_answer, rejected, Verification, verified, not_verified, reset_backoff,
  increase_backoff,
}
use f2p.Client.Connecting.{
  Link, SetupWorld, SetupEnd, after_verification, finish_setup, setup_quic_protocol,
  setup_libp2p_protocol, verify_service_configuration, auth_of,
}
use f2p.Client.Cycles.{
  Cycle, CycleEnd, connect_to_server, Round, Managed, start_connection_manager, is_connected,
  set_client, after_connect, try_hole_punches,
}
use f2p.Client.Cycles.Handshakes.{
  SameBackoff, KeepsBackoff, auth_of-backoff, verify_service_configuration-backoff,
}
use f2p.Client.Connecting.{on_quic, on_libp2p}
use f2p.Client.HolePunch.{World, Attempt, attempt_hole_punch}
use f2p.Client.Cycles.{
  with_setup, punching, take_punched, wait_for_direct_connection, dcutr_wait_timeout,
  max_hole_punch_attempts,
}
use f2p.Client.Cycles.Branches.{on_option, on_bool, on_wait, on_attempt}
use f2p.Client.Streams.{is_relay_connection}

trans : (a b c : Client) → SameBackoff a b → SameBackoff b c → SameBackoff a c
trans a b c h g = (g.0 ∙ h.0, g.1 ∙ h.1)

after_verification-SameBackoff :
    (s : ℕ) (l : Link) (c : Client) (v : Verification)
    → SameBackoff l.client c
    → KeepsBackoff c v
    → SameBackoff l.client (after_verification s l c v).0.client
unfolding after_verification
after_verification-SameBackoff s l c (verified c') h k = trans l.client c c' h k
after_verification-SameBackoff s l c (not_verified f) h k = h

finish_setup-SameBackoff :
    (w : SetupWorld) (services : List LocalServiceConfig) (s : ℕ) (l : Link) (c : Client)
    (o : AuthOutcome)
    → SameBackoff l.client c
    → SameBackoff l.client (finish_setup w services s l (c, o)).0.client
unfolding finish_setup
finish_setup-SameBackoff w services s l c logged_in h =
    after_verification-SameBackoff s l c (verify_service_configuration w.answers services c) h
      (verify_service_configuration-backoff w.answers services c)
finish_setup-SameBackoff w services s l c user_left h = h
finish_setup-SameBackoff w services s l c no_requirement h = h
finish_setup-SameBackoff w services s l c password_unread h = h
finish_setup-SameBackoff w services s l c request_not_sent h = h
finish_setup-SameBackoff w services s l c no_answer h = h
finish_setup-SameBackoff w services s l c wrong_answer h = h
finish_setup-SameBackoff w services s l c rejected h = h

abbrev OnSetup : Client → Link × SetupEnd → Type 0
OnSetup c r = SameBackoff c r.0.client

abbrev OnCycle : Client → Link × CycleEnd → Type 0
OnCycle c r = SameBackoff c r.0.client

setup_libp2p-SameBackoff :
    (w : SetupWorld) (services : List LocalServiceConfig) (l : Link)
    → SameBackoff l.client (setup_libp2p_protocol w services l).0.client
unfolding setup_libp2p_protocol
setup_libp2p-SameBackoff w services l =
    let (c, o) = auth_of w l.client in
    on_option (OnSetup l.client) w.stream _ _ (refl, refl)
      (λ s e.
        finish_setup-SameBackoff w services s (record l { conn = on_libp2p s l.conn }) c o
          (auth_of-backoff w l.client))

setup_quic-SameBackoff :
    (w : SetupWorld) (services : List LocalServiceConfig) (l : Link)
    → SameBackoff l.client (setup_quic_protocol w services l).0.client
unfolding setup_quic_protocol
setup_quic-SameBackoff w services l =
    let (c, o) = auth_of w l.client in
    on_option (OnSetup l.client) l.conn.direct_conn _ _ (refl, refl)
      (λ q d.
        on_option (OnSetup l.client) w.stream _ _ (refl, refl)
          (λ s e.
            on_bool (OnSetup l.client) w.type_written _ _
              (finish_setup-SameBackoff w services s (record l { conn = on_quic s l.conn }) c o
                (auth_of-backoff w l.client))
              (refl, refl)))

try_hole_punches-SameBackoff :
    (left : ℕ) (last : Option Attempt) (ws : ℕ → World) (setup : SetupWorld)
    (services : List LocalServiceConfig) (l : Link)
    → SameBackoff l.client (try_hole_punches left last ws setup services l).0.client
unfolding try_hole_punches
try_hole_punches-SameBackoff zero last ws setup services l = (refl, refl)
try_hole_punches-SameBackoff (suc left) last ws setup services l =
    let r = attempt_hole_punch (ws left) (punching l) in
    let l' = take_punched l r.0 in
    on_attempt (OnCycle l.client) r.1 _ (λ f. try_hole_punches left (some f) ws setup services l')
      (setup_quic-SameBackoff setup services l')
      (λ f. try_hole_punches-SameBackoff left (some f) ws setup services l')

after_connect-SameBackoff :
    (w : Cycle) (services : List LocalServiceConfig) (l : Link)
    → SameBackoff l.client (after_connect w services l).0.client
unfolding after_connect
after_connect-SameBackoff w services l =
    let c = l.client in
    let plain = with_setup (setup_libp2p_protocol w.setup services l) in
    let direct : SameBackoff c plain.0.client = setup_libp2p-SameBackoff w.setup services l in
    on_bool (OnCycle c) (is_relay_connection w.conns) _ plain
      (on_wait (OnCycle c)
        (wait_for_direct_connection 31 (w.now + dcutr_wait_timeout) w.now w.polls) plain _ _ direct
        (try_hole_punches-SameBackoff max_hole_punch_attempts none w.attempts w.setup services l)
        (refl, refl))
      direct

-- The back-off after a cycle: a second once the server was reached, and as before otherwise.
abbrev pub cycle_backoff : Cycle → ℕ → ℕ
cycle_backoff w b = if w.found && w.connects then seconds 1 else b

by_reach :
    (f g : Bool) (x y z : Link × CycleEnd) (c : Client)
    → OnCycle (reset_backoff c) x
    → OnCycle c y
    → OnCycle c z
    → ((if f then (if g then x else y) else z).0.client.backoff
        ≡ (if f && g then seconds 1 else c.backoff))
      × ((if f then (if g then x else y) else z).0.client.backoff_max ≡ c.backoff_max)
unfolding reset_backoff
by_reach true true x y z c hx hy hz = hx
by_reach true false x y z c hx hy hz = hy
by_reach false g x y z c hx hy hz = hz

connect_to_server-backoff :
    (w : Cycle) (services : List LocalServiceConfig) (l : Link)
    → ((connect_to_server w services l).0.client.backoff ≡ cycle_backoff w l.client.backoff)
      × ((connect_to_server w services l).0.client.backoff_max ≡ l.client.backoff_max)
unfolding connect_to_server
connect_to_server-backoff w services l =
    by_reach w.found w.connects _ _ _ l.client (after_connect-SameBackoff w services _) (refl, refl)
      (refl, refl)

-- Half as much again, but no more than the maximum.
abbrev pub grown : ℕ → ℕ → ℕ
grown max b = if ltb max (b * 3 / 2) then max else b * 3 / 2

-- The intervals of the rounds: a second if the round reached the server, and otherwise half as much again
-- as the interval before, up to the maximum.
abbrev pub Follows : ℕ → ℕ → List ℕ → List Round → Type 0
Follows b max [] rounds = Unit
Follows b max (i ∷ is) [] = ⊥
Follows b max (i ∷ is) (r ∷ rs) = (i ≡ cycle_backoff r.cycle b) × Follows (grown max i) max is rs

abbrev FollowsFrom : ℕ → ℕ → List Round → Managed → Type 0
FollowsFrom b max rs m = Follows b max m.intervals rs

-- Each interval that the connection manager waits is a second if its round has reached the server, and
-- otherwise the interval before it, grown by half up to the maximum (at the start, the back-off it has):
-- nothing else that a round does has a part in it.
pub start_connection_manager-Follows :
    (rs : List Round) (services : List LocalServiceConfig) (l : Link)
    → Follows l.client.backoff l.client.backoff_max
        (start_connection_manager rs services l).intervals
        rs
unfolding start_connection_manager increase_backoff
start_connection_manager-Follows [] services l = tt
start_connection_manager-Follows (r ∷ rs) services l =
    let (l', e) = connect_to_server r.cycle services l in
    let (b, m) = connect_to_server-backoff r.cycle services l in
    let P : Managed → Type 0 = FollowsFrom l.client.backoff l.client.backoff_max (r ∷ rs) in
    let rest = start_connection_manager-Follows rs services (set_client increase_backoff l') in
    on_bool P (r.done_at_start || l.conn.cancelled) _ _ tt (
      on_bool P (is_connected e) _ _ tt (
        on_bool P (r.done_after || l'.conn.cancelled) _ _ tt (
          on_bool P r.done_in_wait _ _ (b, tt)
            (
              b,
              subst
                  (λ (max : ℕ).
                    Follows (grown max l'.client.backoff) max
                      (start_connection_manager rs services
                        (set_client increase_backoff l')).intervals
                      rs)
                  m rest,
            ))))

Follows-bounded :
    (b max : ℕ) (is : List ℕ) (rs : List Round)
    → Follows b max is rs
    → seconds 1 ≤ b
    → b ≤ max
    → seconds 1 ≤ max
    → All (λ i. (seconds 1 ≤ i) × (i ≤ max)) is
Follows-bounded b max [] rs h lo hi one = tt
Follows-bounded b max (i ∷ is) [] h lo hi one = elim h [ ]
Follows-bounded b max (i ∷ is) (r ∷ rs) (e, h) lo hi one =
    let fits : (seconds 1 ≤ i) × (i ≤ max) = ground (arith, e) in
    (
      fits,
      Follows-bounded (grown max i) max is rs h (ground (arith, fits)) (ground (arith, fits)) one,
    )

-- From a back-off between a second and its maximum, every interval that the connection manager waits is
-- between a second and the maximum, whatever the rounds bring.
pub intervals_bounded :
    (rs : List Round) (services : List LocalServiceConfig) (l : Link)
    → seconds 1 ≤ l.client.backoff
    → l.client.backoff ≤ l.client.backoff_max
    → All
        (λ i. (seconds 1 ≤ i) × (i ≤ l.client.backoff_max))
        (start_connection_manager rs services l).intervals
intervals_bounded rs services l lo hi =
    Follows-bounded l.client.backoff l.client.backoff_max
      (start_connection_manager rs services l).intervals rs
      (start_connection_manager-Follows rs services l) lo hi (omega arith)
