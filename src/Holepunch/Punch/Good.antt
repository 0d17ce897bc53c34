-- ===== src/Holepunch/Punch/Good.antt =====
-- What the loops of the punches with many sockets and between two cones keep.
use f2p.Prelude.{
  subst, Bool, Option, ℕ, zero, suc, ◌+◌, ◌≡◌, refl, ◌⊎◌, inl, inr, true, false, List, some, none,
  arith, ltb, min,
}
use f2p.Holepunch.Sockets.{Addr, Net, Punching}
use f2p.Holepunch.Sockets.Hearing.{IsGood, select-IsGood}
use f2p.Holepunch.Punch.{
  LoopEnd, got, time_over, out_of_fuel, send_until, sym_rounds, punch_send_interval,
  punch_round_duration,
}

module _ (tid : ℕ) (socks : List ℕ) (P : Net → Type 0) (Q : ℕ → Addr → Type 0) where
  -- A loop's end: the network has P, and what was got has Q.
  pub record IsGoodEnd (r : Punching × LoopEnd) : Type 0 where
    pub good : IsGood tid socks P Q r.0
    pub heard : (s : ℕ) (a : Addr) → r.1 ≡ got s a → Q s a

  pub stops-IsGoodEnd :
      (st : Punching) (e : LoopEnd)
      → IsGood tid socks P Q st
      → (e ≡ time_over) ⊎ (e ≡ out_of_fuel)
      → IsGoodEnd (st, e)
  stops-IsGoodEnd st e g h = record { good = g; heard = λ s a k. ground arith }

  pub got-IsGoodEnd :
      (st : Punching) (s : ℕ) (a : Addr) → IsGood tid socks P Q st → Q s a → IsGoodEnd (st, got s a)
  got-IsGoodEnd st s a g q = record {
    good = g;
    heard = λ s' a' k.
        let e : s ≡ s' = ground arith in
        let e' : a ≡ a' = cc in subst (λ (x : ℕ). Q x a') e (subst (λ (x : Addr). Q s x) e' q);
  }

  pub branch-IsGoodEnd :
      (b : Bool) (x y : Punching × LoopEnd)
      → IsGoodEnd x
      → IsGoodEnd y
      → IsGoodEnd (elim b [ false ↦ x | true ↦ y ])
  branch-IsGoodEnd false x y gx gy = gx
  branch-IsGoodEnd true x y gx gy = gy

  pub found-IsGoodEnd :
      (st : Punching) (r : Option (ℕ × Addr)) (other : Punching × LoopEnd)
      → IsGood tid socks P Q st
      → ((s : ℕ) (a : Addr) → r ≡ some (s, a) → Q s a)
      → IsGoodEnd other
      → IsGoodEnd (elim r [ none ↦ other | some (s, a) ↦ (st, got s a) ])
  found-IsGoodEnd st none other g q h = h
  found-IsGoodEnd st (some (s, a)) other g q h = got-IsGoodEnd st s a g (q s a refl)

  module _ (send : Net → Net) (keep : (n : Net) → P n → P (send n)) where
    sent-IsGood :
        (st : Punching)
        → IsGood tid socks P Q st
        → IsGood tid socks P Q (record st { net = send st.net })
    sent-IsGood st g = record { net = keep st.net g.net; pending = g.pending; waits = g.waits }

    pub send_until-IsGoodEnd :
        (fuel end' : ℕ) (st : Punching)
        → IsGood tid socks P Q st
        → IsGoodEnd (send_until fuel end' send tid socks st)
    unfolding send_until
    send_until-IsGoodEnd zero end' st g = stops-IsGoodEnd st out_of_fuel g (inr refl)
    send_until-IsGoodEnd (suc fuel) end' st g =
        let n = record st { net = send st.net } in
        let (sel, q) = select-IsGood tid socks P Q punch_send_interval n (sent-IsGood st g) in
        branch-IsGoodEnd (ltb st.now end') _ _ (stops-IsGoodEnd st time_over g (inl refl))
          (found-IsGoodEnd _ _ _ sel q (send_until-IsGoodEnd fuel end' _ sel))

    resumed-IsGoodEnd :
        (r other : Punching × LoopEnd)
        → IsGoodEnd r
        → IsGoodEnd other
        → IsGoodEnd (elim r.1 [
          | time_over ↦ other
          | got s a ↦ (r.0, got s a)
          | out_of_fuel ↦ (r.0, out_of_fuel)
        ])
    resumed-IsGoodEnd (st, time_over) other gr h = h
    resumed-IsGoodEnd (st, got s a) other gr h = gr
    resumed-IsGoodEnd (st, out_of_fuel) other gr h = gr

    pub sym_rounds-IsGoodEnd :
        (rounds deadline : ℕ) (st : Punching)
        → IsGood tid socks P Q st
        → IsGoodEnd (sym_rounds rounds deadline send tid socks st)
    unfolding sym_rounds
    sym_rounds-IsGoodEnd zero deadline st g = stops-IsGoodEnd st time_over g (inl refl)
    sym_rounds-IsGoodEnd (suc rounds) deadline st g =
        let r = send_until-IsGoodEnd 51 (min (st.now + punch_round_duration) deadline) st g in
        branch-IsGoodEnd (ltb st.now deadline) _ _ (stops-IsGoodEnd st time_over g (inl refl))
          (resumed-IsGoodEnd _ _ r (sym_rounds-IsGoodEnd rounds deadline _ r.good))
