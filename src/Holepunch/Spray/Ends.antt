-- ===== src/Holepunch/Spray/Ends.antt =====
-- The rounds and the confirmations end by their own tests.
use f2p.Prelude.{ltb→lt, ℕ, zero, suc, ◌+◌, ◌-◌, ◌*◌, ◌≤◌, ◌≢◌, [], ◌∷◌, arith, ltb}
use f2p.Holepunch.{make_punch_packet}
use f2p.Holepunch.Ports.{random_int}
use f2p.Holepunch.Sockets.{Addr, Punching, select, write_to}
use f2p.Holepunch.Punch.{
  LoopEnd, got, time_over, out_of_fuel, birthday_min_packets, birthday_max_packets,
  punch_confirm_duration,
}
use f2p.Holepunch.Punch.Ends.{now-pass, branch-Ends}
use f2p.Holepunch.Spray.{ConeSide, send_packets, cone_rounds, confirm, confirm_and_return}

pub cone_rounds-Ends :
    (c : ConeSide) (draws : ℕ → ℕ) (rounds idx : ℕ) (st : Punching)
    → (cone_rounds c draws rounds idx st).1 ≢ out_of_fuel
unfolding cone_rounds
cone_rounds-Ends c draws zero idx st = ground arith
cone_rounds-Ends c draws (suc rounds) idx st =
    let packets = random_int birthday_min_packets birthday_max_packets (draws rounds) in
    let spray = send_packets c packets 0 idx st in
    ground (
      arith,
      cone_rounds-Ends c draws rounds spray.port_idx (select c.tid 1000 (c.socket ∷ []) spray.st).0,
    )

confirm-Ends :
    (fuel end' : ℕ) (c : ConeSide) (a : Addr) (st : Punching)
    → end' - st.now + 50 ≤ 50 * fuel
    → (confirm fuel end' c a st).1 ≢ out_of_fuel
unfolding confirm
confirm-Ends zero end' c a st h = absurd (omega arith)
confirm-Ends (suc fuel) end' c a st h =
    let n = record st { net = write_to c.socket (make_punch_packet c.tid) a st.net } in
    branch-Ends (ltb st.now end') _ _ (λ e. ground arith)
      (λ t.
        confirm-Ends fuel end' c a _
          (omega (arith, now-pass c.tid (c.socket ∷ []) n, ltb→lt st.now end' t)))

pub confirm_and_return-Ends :
    (c : ConeSide) (r : Punching × LoopEnd)
    → r.1 ≢ out_of_fuel
    → (confirm_and_return c r).1 ≢ out_of_fuel
unfolding confirm_and_return
confirm_and_return-Ends c (st, got s a) h =
    confirm-Ends 21 (st.now + punch_confirm_duration) c a st (omega arith)
confirm_and_return-Ends c (st, time_over) h = h
confirm_and_return-Ends c (st, out_of_fuel) h = h
