-- ===== src/Client/Monitor/Answers.antt =====
-- The client answers every ping of a server that pings in time, and gives up a silent server.
use f2p.Prelude.{
  ap, ◌∙◌, ◌*◌, ℕ, ◌+◌, ◌≤◌, ◌<◌, ◌≡◌, refl, true, false, List, [], ◌∷◌, arith, ltb, length, zero,
  suc, ◌++◌,
}
use f2p.Proto.{eq_type, is_shutdown_message}
use f2p.Message.{ping}
use f2p.Client.Monitor.{
  Incoming, message, heartbeat_timeout, Monitored, heartbeat_limit, handle_message, handle_incoming,
  monitor_loop,
}

-- Pings at these times, whose answers can be sent.
abbrev pub pings : List ℕ → List (ℕ × Incoming)
pings [] = []
pings (t ∷ ts) = (t, message ping true) ∷ pings ts

-- No gap is longer than the limit.
abbrev pub IsTimely : ℕ → List ℕ → Type 0
IsTimely deadline [] = Unit
IsTimely deadline (t ∷ ts) = (t ≤ deadline) × IsTimely (t + heartbeat_limit) ts

abbrev pub last_deadline : ℕ → List ℕ → ℕ
last_deadline deadline [] = deadline
last_deadline deadline (t ∷ ts) = last_deadline (t + heartbeat_limit) ts

-- As long as the server's pings come within 25 seconds of each other, each is answered, and the loop
-- goes on with what comes after them, under a deadline 25 seconds after the last.
pub monitor_loop-pings :
    (ts : List ℕ) (rest : List (ℕ × Incoming)) (deadline acks : ℕ)
    → IsTimely deadline ts
    → monitor_loop (pings ts ++ rest) deadline acks
      ≡ monitor_loop rest (last_deadline deadline ts) (acks + length ts)
unfolding monitor_loop handle_incoming handle_message eq_type is_shutdown_message
monitor_loop-pings [] rest deadline acks h =
    ap (λ (k : ℕ). monitor_loop rest deadline k) (omega arith)
monitor_loop-pings (t ∷ ts) rest deadline acks h =
    let late : ltb deadline t ≡ false = ground (arith, h.0) in
    rw (late, monitor_loop)
      (monitor_loop-pings ts rest (t + heartbeat_limit) (acks + 1) h.1
        ∙ ap (λ (k : ℕ). monitor_loop rest (last_deadline (t + heartbeat_limit) ts) k)
            (omega arith))

-- The server's ticks: one ping every ten seconds.
abbrev pub every_ten_seconds : ℕ → ℕ → List ℕ
every_ten_seconds now zero = []
every_ten_seconds now (suc n) = (now + 10000) ∷ every_ten_seconds (now + 10000) n

every_ten_seconds-IsTimely :
    (n now deadline : ℕ) → now + 10000 ≤ deadline → IsTimely deadline (every_ten_seconds now n)
every_ten_seconds-IsTimely zero now deadline h = tt
every_ten_seconds-IsTimely (suc n) now deadline h =
    (h, every_ten_seconds-IsTimely n (now + 10000) (now + 10000 + heartbeat_limit) (omega arith))

last_deadline-every_ten_seconds :
    (n now : ℕ)
    → last_deadline (now + heartbeat_limit) (every_ten_seconds now n)
      ≡ now + 10000 * n + heartbeat_limit
last_deadline-every_ten_seconds zero now = omega arith
last_deadline-every_ten_seconds (suc n) now =
    last_deadline-every_ten_seconds n (now + 10000) ∙ omega arith

length-every_ten_seconds : (n now : ℕ) → length (every_ten_seconds now n) ≡ n
length-every_ten_seconds zero now = refl
length-every_ten_seconds (suc n) now = ap suc (length-every_ten_seconds n (now + 10000))

given_up :
    (deadline acks at : ℕ) (i : Incoming) (rest : List (ℕ × Incoming))
    → deadline < at
    → monitor_loop ((at, i) ∷ rest) deadline acks
      ≡ record { acks = acks; end_of = heartbeat_timeout }
unfolding monitor_loop
given_up deadline acks at i rest h = ground arith

abbrev timed_out : ℕ → Monitored
timed_out acks = record { acks = acks; end_of = heartbeat_timeout }

-- A client whose server pings every ten seconds, n times, and then falls silent, answers every ping, and
-- gives the connection up by its timer if the next message comes more than 25 seconds after the last
-- ping. (Its answers can be sent.)
pub silent_server_given_up :
    (n now at : ℕ) (i : Incoming) (rest : List (ℕ × Incoming))
    → now + 10000 * n + heartbeat_limit < at
    → monitor_loop (pings (every_ten_seconds now n) ++ ((at, i) ∷ rest)) (now + heartbeat_limit) 0
      ≡ record { acks = n; end_of = heartbeat_timeout }
silent_server_given_up n now at i rest h =
    monitor_loop-pings (every_ten_seconds now n) ((at, i) ∷ rest) (now + heartbeat_limit) 0
      (every_ten_seconds-IsTimely n now (now + heartbeat_limit) (omega arith))
    ∙ given_up (last_deadline (now + heartbeat_limit) (every_ten_seconds now n))
        (0 + length (every_ten_seconds now n)) at i rest
        (omega (arith, last_deadline-every_ten_seconds n now))
    ∙ ap timed_out (omega (arith, length-every_ten_seconds n now))
