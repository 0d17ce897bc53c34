-- ===== src/Holepunch/Punch/Ends.antt =====
-- The loops end by their own tests: the fuel is enough.
use f2p.Prelude.{
  Bool, ℕ, zero, suc, ◌+◌, ◌-◌, ◌*◌, ◌≤◌, ◌≡◌, ◌≢◌, refl, true, false, List, Option, none, some,
  arith, ltb, min, ltb→lt,
}
use f2p.Holepunch.Sockets.{Addr, Net, Punching, pass, select}
use f2p.Holepunch.Punch.{
  LoopEnd, got, time_over, out_of_fuel, send_until, sym_rounds, punch_send_interval,
  punch_round_duration, fuel_exhausted, keep_one, hand_back,
}

pub now-pass : (tid : ℕ) (socks : List ℕ) (st : Punching) → st.now ≤ (pass tid socks st).now
unfolding pass
now-pass tid socks st = omega arith

-- A select that finds nothing has waited for its timer.
pub now-select :
    (tid timer : ℕ) (socks : List ℕ) (st : Punching)
    → (select tid timer socks st).1 ≡ none
    → st.now + timer ≤ (select tid timer socks st).0.now
unfolding select
now-select tid timer socks st h = ground (arith, now-pass tid socks st)

abbrev pub Ends : Punching × LoopEnd → Type 0
Ends r = r.1 ≢ out_of_fuel

pub branch-Ends :
    (b : Bool) (x y : Punching × LoopEnd)
    → Ends x
    → (b ≡ true → Ends y)
    → Ends (elim b [ false ↦ x | true ↦ y ])
branch-Ends false x y hx hy = hx
branch-Ends true x y hx hy = hy refl

found-Ends :
    (st : Punching) (r : Option (ℕ × Addr)) (other : Punching × LoopEnd)
    → (r ≡ none → Ends other)
    → Ends (elim r [ none ↦ other | some (s, a) ↦ (st, got s a) ])
found-Ends st none other h = h refl
found-Ends st (some (s, a)) other h = λ e. ground arith

resumed-Ends :
    (r other : Punching × LoopEnd)
    → Ends r
    → Ends other
    → Ends (elim r.1 [
      | time_over ↦ other
      | got s a ↦ (r.0, got s a)
      | out_of_fuel ↦ (r.0, out_of_fuel)
    ])
resumed-Ends (st, time_over) other hr h = h
resumed-Ends (st, got s a) other hr h = hr
resumed-Ends (st, out_of_fuel) other hr h = hr

pub time_over-Ends : (st : Punching) → Ends (st, time_over)
time_over-Ends st e = ground arith

module _ (send : Net → Net) (tid : ℕ) (socks : List ℕ) where
  -- The fuel is enough when it gives 100 ms of the time that is left to each unit but the last.
  pub send_until-Ends :
      (fuel end' : ℕ) (st : Punching)
      → end' - st.now + 100 ≤ 100 * fuel
      → Ends (send_until fuel end' send tid socks st)
  unfolding send_until
  send_until-Ends zero end' st h = absurd (omega arith)
  send_until-Ends (suc fuel) end' st h =
      let n = record st { net = send st.net } in
      let next = (select tid punch_send_interval socks n).0 in
      branch-Ends (ltb st.now end') _ _ (time_over-Ends st) (λ t.
        found-Ends _ _ _ (λ (e : (select tid punch_send_interval socks n).1 ≡ none).
          send_until-Ends fuel end' next
            (omega (arith, now-select tid punch_send_interval socks n e, ltb→lt st.now end' t))))

  pub sym_rounds-Ends :
      (rounds deadline : ℕ) (st : Punching) → Ends (sym_rounds rounds deadline send tid socks st)
  unfolding sym_rounds
  sym_rounds-Ends zero deadline st = time_over-Ends st
  sym_rounds-Ends (suc rounds) deadline st =
      let end' = min (st.now + punch_round_duration) deadline in
      branch-Ends (ltb st.now deadline) _ _ (time_over-Ends st) (λ t.
        resumed-Ends _ _ (send_until-Ends 51 end' st (omega arith))
          (sym_rounds-Ends rounds deadline _))

pub keep_one-Ends :
    (socks : List ℕ) (r : Punching × LoopEnd)
    → r.1 ≢ out_of_fuel
    → (keep_one socks r).1 ≢ fuel_exhausted
unfolding keep_one
keep_one-Ends socks (st, got s a) h = ground arith
keep_one-Ends socks (st, time_over) h = ground arith
keep_one-Ends socks (st, out_of_fuel) h = absurd (h refl)

pub hand_back-Ends : (r : Punching × LoopEnd) → r.1 ≢ out_of_fuel → (hand_back r).1 ≢ fuel_exhausted
unfolding hand_back
hand_back-Ends (st, got s a) h = ground arith
hand_back-Ends (st, time_over) h = ground arith
hand_back-Ends (st, out_of_fuel) h = absurd (h refl)
