-- ===== src/Holepunch/Sockets/Hearing.antt =====
-- What the listeners tell of has arrived: a predicate on a punch in progress that waiting keeps.
use f2p.Prelude.{ℕ, ◌≡◌, ◌⊎◌, inl, inr, true, List, [], ◌∷◌, some, arith, ◌==◌}
use f2p.Prelude.Maps.{elem}
use f2p.Holepunch.Sockets.{
  Addr, Net, Arrival, is_punch, heard, Wait, Punching, first_wait, later_waits, pass, select,
}

-- A punch packet of the transaction has come to this one of the sockets, from this address.
abbrev pub Hears : ℕ → List ℕ → ℕ → Addr → List Arrival → Type 0
Hears tid socks s a [] = ⊥
Hears tid socks s a (x ∷ xs) =
    ((x.socket ≡ s) × (x.from ≡ a) × (elem ◌==◌ s socks ≡ true) × (is_punch tid x.payload ≡ true))
    ⊎ Hears tid socks s a xs

abbrev pub Arrives : ℕ → List ℕ → ℕ → Addr → List Wait → Type 0
Arrives tid socks s a [] = ⊥
Arrives tid socks s a (w ∷ ws) = Hears tid socks s a w.arrivals ⊎ Arrives tid socks s a ws

heard-Hears :
    (tid : ℕ) (socks : List ℕ) (s : ℕ) (a : Addr) (l : List Arrival)
    → heard tid socks l ≡ some (s, a)
    → Hears tid socks s a l
unfolding heard
heard-Hears tid socks s a [] h = ground arith
heard-Hears tid socks s a (x ∷ xs) h = ground (arith, heard-Hears tid socks s a xs)

Arrives-first :
    (tid : ℕ) (socks : List ℕ) (s : ℕ) (a : Addr) (ws : List Wait)
    → heard tid socks (first_wait ws).arrivals ≡ some (s, a)
    → Arrives tid socks s a ws
unfolding heard
Arrives-first tid socks s a [] h = ground arith
Arrives-first tid socks s a (w ∷ ws) h = inl (heard-Hears tid socks s a w.arrivals h)

Arrives-later :
    (tid : ℕ) (socks : List ℕ) (s : ℕ) (a : Addr) (ws : List Wait)
    → Arrives tid socks s a (later_waits ws)
    → Arrives tid socks s a ws
Arrives-later tid socks s a [] h = h
Arrives-later tid socks s a (w ∷ ws) h = inr h

Hears-member :
    (tid : ℕ) (socks : List ℕ) (s : ℕ) (a : Addr) (l : List Arrival)
    → Hears tid socks s a l
    → elem ◌==◌ s socks ≡ true
Hears-member tid socks s a [] h = elim h [ ]
Hears-member tid socks s a (x ∷ l) (inl h) = h.2
Hears-member tid socks s a (x ∷ l) (inr h) = Hears-member tid socks s a l h

-- Packets arrive at the sockets that are listened to.
pub Arrives-member :
    (tid : ℕ) (socks : List ℕ) (s : ℕ) (a : Addr) (ws : List Wait)
    → Arrives tid socks s a ws
    → elem ◌==◌ s socks ≡ true
Arrives-member tid socks s a [] h = elim h [ ]
Arrives-member tid socks s a (w ∷ ws) (inl h) = Hears-member tid socks s a w.arrivals h
Arrives-member tid socks s a (w ∷ ws) (inr h) = Arrives-member tid socks s a ws h

Hears-one :
    (tid : ℕ) (socks : List ℕ) (s : ℕ) (a : Addr) (l : List Arrival)
    → Hears tid socks s a l
    → Hears tid (s ∷ []) s a l
unfolding elem
Hears-one tid socks s a [] h = elim h [ ]
Hears-one tid socks s a (x ∷ l) (inl h) = inl (h.0, h.1, ground arith, h.3)
Hears-one tid socks s a (x ∷ l) (inr h) = inr (Hears-one tid socks s a l h)

-- The other sockets do not matter to an arrival.
pub Arrives-one :
    (tid : ℕ) (socks : List ℕ) (s : ℕ) (a : Addr) (ws : List Wait)
    → Arrives tid socks s a ws
    → Arrives tid (s ∷ []) s a ws
Arrives-one tid socks s a [] h = elim h [ ]
Arrives-one tid socks s a (w ∷ ws) (inl h) = inl (Hears-one tid socks s a w.arrivals h)
Arrives-one tid socks s a (w ∷ ws) (inr h) = inr (Arrives-one tid socks s a ws h)

module _ (tid : ℕ) (socks : List ℕ) (P : Net → Type 0) (Q : ℕ → Addr → Type 0) where
  -- The network has P, and whatever is heard now or later has Q.
  pub record IsGood (st : Punching) : Type 0 where
    pub net : P st.net
    pub pending : (s : ℕ) (a : Addr) → st.pending ≡ some (s, a) → Q s a
    pub waits : (s : ℕ) (a : Addr) → Arrives tid socks s a st.waits → Q s a

  waits-heard :
      (st : Punching)
      → IsGood st
      → (s : ℕ) (a : Addr) → heard tid socks (first_wait st.waits).arrivals ≡ some (s, a)
      → Q s a
  waits-heard st g s a h = g.waits s a (Arrives-first tid socks s a st.waits h)

  pub pass-IsGood : (st : Punching) → IsGood st → IsGood (pass tid socks st)
  unfolding pass
  pass-IsGood st g = record {
    net = g.net;
    pending = λ s a h. ground (arith, g.pending s a, waits-heard st g s a);
    waits = λ s a h. g.waits s a (Arrives-later tid socks s a st.waits h);
  }

  pub select-IsGood :
      (timer : ℕ) (st : Punching)
      → IsGood st
      → IsGood (select tid timer socks st).0
        × ((s : ℕ) (a : Addr) → (select tid timer socks st).1 ≡ some (s, a) → Q s a)
  unfolding select
  select-IsGood timer st g = ground (arith, pass-IsGood st g, (pass-IsGood st g).pending)
