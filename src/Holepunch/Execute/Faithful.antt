-- ===== src/Holepunch/Execute/Faithful.antt =====
-- What every punch keeps: which sockets are open, whose packets are answered, what is sent and where.
use f2p.Prelude.{
  ℕ, ◌≡◌, refl, ◌∙◌, Bool, true, false, ◌||◌, List, [], ◌∷◌, arith, ◌==◌, ◌≢◌, subst, sym, All,
}
use f2p.Prelude.Maps.{elem}
use f2p.Holepunch.{make_punch_packet}
use f2p.Holepunch.Sockets.{
  close_sockets, Addr, Net, Datagram, Punching, Wait, is_open, write_to, send_all,
}
use f2p.Holepunch.Sockets.Held.{
  has, IsHeld, is_open-close_all, is_open-close_sockets, sent-close_all, sent-close_sockets,
}
use f2p.Holepunch.Sockets.Hearing.{Arrives, Arrives-member, Arrives-one, IsGood}
use f2p.Holepunch.Punch.{
  LoopEnd, got, time_over, out_of_fuel, PunchResult, PunchedSocket, punched, timed_out,
  fuel_exhausted, Outside, begin, keep_one, hand_back,
}
use f2p.Holepunch.Punch.Good.{IsGoodEnd}

-- Is a socket open after a punch with this result, that began with this network?
abbrev pub stays_open : PunchResult → Net → ℕ → Bool
stays_open (punched p) net x = x == p.conn || is_open x net
stays_open _ net x = is_open x net

module _ (tid : ℕ) (T : Addr → Type 0) where
  -- A packet of the transaction, to an address with T.
  abbrev pub IsAimed : Datagram → Type 0
  IsAimed d = (d.payload ≡ make_punch_packet tid) × T d.to

  pub record IsFaithful (waits : List Wait) (O : ℕ → Type 0) (net : Net) (r : Net × PunchResult)
      : Type 0 where
    pub owned : r.1 ≢ fuel_exhausted → (x : ℕ) → is_open x r.0 ≡ stays_open r.1 net x
    pub replied :
        (s : ℕ) (a : Addr)
        → r.1 ≡ punched (record { conn = s; remote_addr = a })
        → Arrives tid (s ∷ []) s a waits
    pub own : (s : ℕ) (a : Addr) → r.1 ≡ punched (record { conn = s; remote_addr = a }) → O s
    pub aimed : All IsAimed net.sent → All IsAimed r.0.sent

  -- What a loop keeps, from this network on.
  abbrev pub Keeps : Net → Net → Type 0
  Keeps n1 n = ((x : ℕ) → is_open x n ≡ is_open x n1) × (All IsAimed n1.sent → All IsAimed n.sent)

  abbrev pub IsReply : List Wait → List ℕ → ℕ → Addr → Type 0
  IsReply waits socks s a = (has s socks ≡ true) × Arrives tid (s ∷ []) s a waits

  pub Keeps-write_to :
      (n1 n : Net) (s : ℕ) (a : Addr)
      → T a
      → Keeps n1 n
      → Keeps n1 (write_to s (make_punch_packet tid) a n)
  unfolding write_to is_open
  Keeps-write_to n1 n s a t k = (k.0, λ h. ((refl, t), k.1 h))

  pub Keeps-send_all :
      (n1 : Net) (a : Addr)
      → T a
      → (socks : List ℕ) (n : Net) → Keeps n1 n
      → Keeps n1 (send_all socks (make_punch_packet tid) a n)
  unfolding send_all
  Keeps-send_all n1 a t [] n k = k
  Keeps-send_all n1 a t (s ∷ socks) n k =
      Keeps-send_all n1 a t socks (write_to s (make_punch_packet tid) a n)
        (Keeps-write_to n1 n s a t k)

  pub begin-IsGood :
      (socks : List ℕ) (o : Outside) (n1 : Net)
      → IsGood tid socks (Keeps n1) (IsReply o.waits socks) (begin o n1)
  begin-IsGood socks o n1 = record {
    net = (λ x. refl, λ h. h);
    pending = λ s a h. ground arith;
    waits = λ s a h. (Arrives-member tid socks s a o.waits h, Arrives-one tid socks s a o.waits h);
  }

  replied_alike :
      (waits : List Wait) (s s' : ℕ) (a a' : Addr)
      → Arrives tid (s ∷ []) s a waits
      → punched (record { conn = s; remote_addr = a })
        ≡ punched (record { conn = s'; remote_addr = a' })
      → Arrives tid (s' ∷ []) s' a' waits
  replied_alike waits s s' a a' h e =
      let es : s ≡ s' = ground arith in
      let ea : a ≡ a' = cc in
      subst (λ (x : ℕ). Arrives tid (x ∷ []) x a' waits) es
        (subst (λ (x : Addr). Arrives tid (s ∷ []) s x waits) ea h)

  pub nothing-IsFaithful :
      (waits : List Wait) (O : ℕ → Type 0) (net n : Net) (r : PunchResult)
      → Keeps net n
      → ((x : ℕ) → stays_open r net x ≡ is_open x net)
      → ((p : PunchedSocket) → r ≢ punched p)
      → IsFaithful waits O net (n, r)
  nothing-IsFaithful waits O net n r k q ne = record {
    owned = λ e x. k.0 x ∙ sym (q x);
    replied = λ s a e. absurd (ne (record { conn = s; remote_addr = a }) e);
    own = λ s a e. absurd (ne (record { conn = s; remote_addr = a }) e);
    aimed = k.1;
  }

  pub keep_one-IsFaithful :
      (waits : List Wait) (base n1 : Net) (socks : List ℕ) (r : Punching × LoopEnd)
      → IsHeld base socks n1
      → n1.sent ≡ base.sent
      → IsGoodEnd tid socks (Keeps n1) (IsReply waits socks) r
      → IsFaithful waits (λ s. is_open s base ≡ false) base (keep_one socks r)
  unfolding keep_one
  keep_one-IsFaithful waits base n1 socks (st, got s a) h e g = record {
    owned = λ k x. ground (
      arith,
      h.opened x,
      h.own x,
      g.good.net.0 x,
      (g.heard s a refl).0,
      is_open-close_sockets x s socks st.net,
    );
    replied = λ x b k. replied_alike waits s x a b (g.heard s a refl).1 k;
    own = λ x b k.
        let e' : s ≡ x = ground arith in
        subst (λ (y : ℕ). is_open y base ≡ false) e' (h.own s (g.heard s a refl).0);
    aimed = λ k. alike (close_sockets socks s st.net) (sent-close_sockets s socks st.net) k;
  }
    where
      alike : (n : Net) → n.sent ≡ st.net.sent → All IsAimed base.sent → All IsAimed n.sent
      alike n f k = subst (All IsAimed) (sym f) (g.good.net.1 (subst (All IsAimed) (sym e) k))
  keep_one-IsFaithful waits base n1 socks (st, time_over) h e g = record {
    owned = λ k x.
        ground (arith, h.opened x, h.own x, g.good.net.0 x, is_open-close_all x socks st.net);
    replied = λ x b k. ground arith;
    own = λ x b k. absurd (ground arith);
    aimed = λ k.
        subst (All IsAimed) (sym (sent-close_all socks st.net))
          (g.good.net.1 (subst (All IsAimed) (sym e) k));
  }
  keep_one-IsFaithful waits base n1 socks (st, out_of_fuel) h e g = record {
    owned = λ k x. absurd (k refl);
    replied = λ x b k. ground arith;
    own = λ x b k. absurd (ground arith);
    aimed = λ k. g.good.net.1 (subst (All IsAimed) (sym e) k);
  }

  pub hand_back-IsFaithful :
      (waits : List Wait) (net : Net) (s : ℕ) (r : Punching × LoopEnd)
      → is_open s net ≡ true
      → IsGoodEnd tid (s ∷ []) (Keeps net) (IsReply waits (s ∷ [])) r
      → IsFaithful waits (λ x. x ≡ s) net (hand_back r)
  unfolding hand_back elem
  hand_back-IsFaithful waits net s (st, got s' a) h g = record {
    owned = λ e x. ground (arith, g.good.net.0 x, (g.heard s' a refl).0);
    replied = λ x b e. replied_alike waits s' x a b (g.heard s' a refl).1 e;
    own = λ x b e. ground (arith, (g.heard s' a refl).0);
    aimed = g.good.net.1;
  }
  hand_back-IsFaithful waits net s (st, time_over) h g =
      nothing-IsFaithful waits (λ x. x ≡ s) net st.net timed_out g.good.net (λ x. refl)
        (λ p e. ground arith)
  hand_back-IsFaithful waits net s (st, out_of_fuel) h g =
      nothing-IsFaithful waits (λ x. x ≡ s) net st.net fuel_exhausted g.good.net (λ x. refl)
        (λ p e. ground arith)
