-- ===== src/Holepunch/Spray/Good.antt =====
-- What the loops of the cone's side against a symmetric NAT keep.
use f2p.Prelude.{
  subst, ℕ, zero, suc, ◌+◌, ◌%◌, ◌≡◌, refl, inl, inr, Bool, true, false, [], ◌∷◌, Option, some,
  none, arith, ltb, ◌==◌, if◌then◌else◌,
}
use f2p.Prelude.Int.{pos}
use f2p.Holepunch.{make_punch_packet}
use f2p.Holepunch.Ports.{random_int}
use f2p.Holepunch.Sockets.{Addr, Net, Punching, write_to}
use f2p.Holepunch.Sockets.Hearing.{IsGood, pass-IsGood, select-IsGood}
use f2p.Holepunch.Punch.{
  LoopEnd, got, time_over, out_of_fuel, birthday_min_packets, birthday_max_packets,
  punch_confirm_duration,
}
use f2p.Holepunch.Punch.Good.{
  IsGoodEnd, stops-IsGoodEnd, got-IsGoodEnd, found-IsGoodEnd, branch-IsGoodEnd,
}
use f2p.Holepunch.Spray.{
  ConeSide, Spray, port_at, wrap_idx, send_packet, send_packets, cone_rounds, confirm,
  confirm_and_return,
}

-- Writing to an address with T keeps P; the addresses that the spray goes to have T.
module _ (c : ConeSide) (P : Net → Type 0) (Q : ℕ → Addr → Type 0) (T : Addr → Type 0)
    (keep : (n : Net) (a : Addr) → T a → P n → P (write_to c.socket (make_punch_packet c.tid) a n))
    (spray_T : (idx : ℕ)
      → T (record { ip = c.client_ip; port = pos (port_at c.ports (wrap_idx c.ports idx)) })) where
  abbrev Good : Punching → Type 0
  Good = IsGood c.tid (c.socket ∷ []) P Q

  abbrev GoodEnd : Punching × LoopEnd → Type 0
  GoodEnd = IsGoodEnd c.tid (c.socket ∷ []) P Q

  written-IsGood :
      (st : Punching) (a : Addr)
      → T a
      → Good st
      → Good (record st { net = write_to c.socket (make_punch_packet c.tid) a st.net })
  written-IsGood st a t g = record {
    net = keep st.net a t g.net;
    pending = g.pending;
    waits = g.waits;
  }

  send_packet-IsGood : (idx : ℕ) (st : Punching) → Good st → Good (send_packet c idx st)
  unfolding send_packet
  send_packet-IsGood idx st g =
      pass-IsGood c.tid (c.socket ∷ []) P Q _ (written-IsGood st _ (spray_T idx) g)

  record IsGoodSpray (r : Spray) : Type 0 where
    good : Good r.st
    found : (s : ℕ) (a : Addr) → r.found ≡ some (s, a) → Q s a

  branch-IsGoodSpray :
      (b : Bool) (x y : Spray)
      → IsGoodSpray x
      → IsGoodSpray y
      → IsGoodSpray (elim b [ false ↦ x | true ↦ y ])
  branch-IsGoodSpray false x y gx gy = gx
  branch-IsGoodSpray true x y gx gy = gy

  polled-IsGoodSpray :
      (b : Bool) (p : Option (ℕ × Addr)) (st : Punching) (idx : ℕ) (other : Spray)
      → Good st
      → ((s : ℕ) (a : Addr) → p ≡ some (s, a) → Q s a)
      → IsGoodSpray other
      → IsGoodSpray (elim (if b then p else none) [
        | none ↦ other
        | some r ↦ record { st = st; port_idx = idx; found = some r }
      ])
  polled-IsGoodSpray false p st idx other g q h = h
  polled-IsGoodSpray true none st idx other g q h = h
  polled-IsGoodSpray true (some r) st idx other g q h = record { good = g; found = q }

  send_packets-IsGoodSpray :
      (left i idx : ℕ) (st : Punching) → Good st → IsGoodSpray (send_packets c left i idx st)
  unfolding send_packets
  send_packets-IsGoodSpray zero i idx st g = record { good = g; found = λ s a h. ground arith }
  send_packets-IsGoodSpray (suc left) i idx st g =
      let n = send_packet-IsGood idx st g in
      branch-IsGoodSpray (ltb st.now c.deadline) _ _
        (record { good = g; found = λ s a h. ground arith })
        (polled-IsGoodSpray (i % 100 == 99) _ _ _ _ n n.pending
          (send_packets-IsGoodSpray left (i + 1) (wrap_idx c.ports idx + 1) _ n))

  pub cone_rounds-IsGoodEnd :
      (draws : ℕ → ℕ) (rounds idx : ℕ) (st : Punching)
      → Good st
      → GoodEnd (cone_rounds c draws rounds idx st)
  unfolding cone_rounds
  cone_rounds-IsGoodEnd draws zero idx st g = stops-IsGoodEnd _ _ P Q st time_over g (inl refl)
  cone_rounds-IsGoodEnd draws (suc rounds) idx st g =
      let packets = random_int birthday_min_packets birthday_max_packets (draws rounds) in
      let spray = send_packets-IsGoodSpray packets 0 idx st g in
      let (sel, q) = select-IsGood c.tid (c.socket ∷ []) P Q 1000 _ spray.good in
      branch-IsGoodEnd _ _ P Q (ltb st.now c.deadline) _ _
        (stops-IsGoodEnd _ _ P Q st time_over g (inl refl))
        (found-IsGoodEnd _ _ P Q _ _ _ spray.good spray.found
          (found-IsGoodEnd _ _ P Q _ _ _ sel q (cone_rounds-IsGoodEnd draws rounds _ _ sel)))

  module _ (remote_T : (s : ℕ) (a : Addr) → Q s a → T a)
      (own : (s : ℕ) (a : Addr) → Q s a → s ≡ c.socket) where
    confirm-IsGoodEnd :
        (fuel end' : ℕ) (a : Addr) (st : Punching)
        → Q c.socket a
        → Good st
        → GoodEnd (confirm fuel end' c a st)
    unfolding confirm
    confirm-IsGoodEnd zero end' a st q g = stops-IsGoodEnd _ _ P Q st out_of_fuel g (inr refl)
    confirm-IsGoodEnd (suc fuel) end' a st q g =
        let n = pass-IsGood c.tid (c.socket ∷ []) P Q _ (written-IsGood st a (remote_T _ a q) g) in
        branch-IsGoodEnd _ _ P Q (ltb st.now end') _ _ (got-IsGoodEnd _ _ P Q st c.socket a g q) (
          confirm-IsGoodEnd fuel end' a _ q
            (record { net = n.net; pending = n.pending; waits = n.waits }))

    pub confirm_and_return-IsGoodEnd :
        (r : Punching × LoopEnd) → GoodEnd r → GoodEnd (confirm_and_return c r)
    unfolding confirm_and_return
    confirm_and_return-IsGoodEnd (st, got s a) g =
        confirm-IsGoodEnd 21 (st.now + punch_confirm_duration) a st
          (subst (λ (x : ℕ). Q x a) (own s a (g.heard s a refl)) (g.heard s a refl)) g.good
    confirm_and_return-IsGoodEnd (st, time_over) g = g
    confirm_and_return-IsGoodEnd (st, out_of_fuel) g = g
