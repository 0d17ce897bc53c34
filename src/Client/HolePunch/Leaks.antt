-- ===== src/Client/HolePunch/Leaks.antt =====
-- A failed attempt leaves no socket behind.
use f2p.Prelude.{
  ap, ℕ, ◌≡◌, refl, sym, ◌∙◌, inl, inr, Bool, true, false, ◌||◌, List, Option, none, some, arith,
  ◌==◌, ==_iff, Bool-cases,
}
use f2p.Holepunch.Sockets.{Addr}
use f2p.Holepunch.{
  is_symmetric, PunchMethod, punch_none, cone_to_cone, sym_to_cone, easy_sym_to_easy_sym,
  other_method, NatType,
}
use f2p.Holepunch.Sockets.{Net, is_open, close}
use f2p.Holepunch.Sockets.Held.{IsFresh, is_open-close}
use f2p.Holepunch.Signaling.{Signaled}
use f2p.Holepunch.Punch.{
  PunchedSocket, PunchResult, punched, no_socket_array, timed_out, no_punch_socket,
  unsupported_method, fuel_exhausted,
}
use f2p.Holepunch.Execute.{execute_punch}
use f2p.Holepunch.Execute.Faithful.{stays_open}
use f2p.Holepunch.Execute.Kept.{IsOpenIn, IsOwner}
use f2p.Holepunch.Execute.Outcome.{execute_punch_open, execute_punch-IsOwner}
use f2p.Holepunch.Direct.{
  direct_dial_quic, Authed, authenticated, no_connection, no_stream, token_not_written,
  response_unread, auth_rejected, token_unread, token_mismatch,
}
use f2p.Server.Direct.Leaks.{is_given, is_open-close_given}
use f2p.Client.HolePunch.{World, Attempt, established, Punched, end_dialed, dial, punch}

-- The sockets after an attempt, by its end.
abbrev pub remains : Attempt → Net → ℕ → Bool
remains (established p) net x = x == p.conn || is_open x net
remains _ net x = is_open x net

-- The socket of a result: the one that was made, if one was made, and not open before.
abbrev IsOurs : Option ℕ → Net → PunchResult → ℕ → Type 0
IsOurs sock base (punched p) x =
    (is_given x sock ≡ true → x ≡ p.conn) × (is_open p.conn base ≡ false)
IsOurs sock base _ x = Unit

closed_again :
    (x conn : ℕ) (net base : Net)
    → is_open x net ≡ (x == conn || is_open x base)
    → is_open conn base ≡ false
    → is_open x (close conn net) ≡ is_open x base
closed_again x conn net base h n = elim (Bool-cases (x == conn)) [
  | inl e ↦
      let same : x ≡ conn = (==_iff x conn).0 e in
      is_open-close x conn net ∙ (rw e (sym n) ∙ ap (λ (y : ℕ). is_open y base) (sym same))
  | inr e ↦ is_open-close x conn net ∙ (rw e (h ∙ rw e refl))
]

end_dialed-remains :
    (w : World) (s : Punched) (p : PunchedSocket) (r : Authed) (base : Net) (x : ℕ)
    → is_open x s.net ≡ (x == p.conn || is_open x base)
    → is_open p.conn base ≡ false
    → is_open x (end_dialed w s p r).0.net ≡ remains (end_dialed w s p r).1 base x
end_dialed-remains w s p authenticated base x h n = h
end_dialed-remains w s p no_connection base x h n = closed_again x p.conn s.net base h n
end_dialed-remains w s p no_stream base x h n = closed_again x p.conn s.net base h n
end_dialed-remains w s p token_not_written base x h n = closed_again x p.conn s.net base h n
end_dialed-remains w s p response_unread base x h n = closed_again x p.conn s.net base h n
end_dialed-remains w s p auth_rejected base x h n = closed_again x p.conn s.net base h n
end_dialed-remains w s p token_unread base x h n = closed_again x p.conn s.net base h n
end_dialed-remains w s p token_mismatch base x h n = closed_again x p.conn s.net base h n

module _ (w : World) (token : List ℕ) (sock : Option ℕ) (s : Punched) (base before : Net) (x : ℕ)
    (made : is_open x before ≡ (is_given x sock || is_open x base))
    (new : is_given x sock ≡ true → is_open x base ≡ false) where
  dial-remains :
      (r : PunchResult)
      → is_open x s.net ≡ stays_open r before x
      → IsOurs sock base r x
      → is_open x (dial w token sock s r).0.net ≡ remains (dial w token sock s r).1 base x
  unfolding dial
  dial-remains (punched p) h own =
      end_dialed-remains w s p (direct_dial_quic w.dial token).result base x (ground (arith, own.0))
        own.1
  dial-remains no_socket_array h own = ground (arith, is_open-close_given x sock s.net)
  dial-remains timed_out h own = ground (arith, is_open-close_given x sock s.net)
  dial-remains no_punch_socket h own = ground (arith, is_open-close_given x sock s.net)
  dial-remains unsupported_method h own = ground (arith, is_open-close_given x sock s.net)
  dial-remains fuel_exhausted h own = ground (arith, is_open-close_given x sock s.net)

-- A socket that is passed is used by the method.
abbrev pub Fits : Bool → PunchMethod → Option ℕ → Type 0
Fits symmetric m none = Unit
Fits symmetric cone_to_cone (some s) = Unit
Fits symmetric sym_to_cone (some s) = symmetric ≡ false
Fits symmetric easy_sym_to_easy_sym (some s) = ⊥
Fits symmetric punch_none (some s) = Unit
Fits symmetric (other_method m) (some s) = Unit

-- The sockets before a punch are those of the base and the one that was made.
pub record IsMade (sock : Option ℕ) (base before : Net) : Type 0 where
  pub made : (x : ℕ) → is_open x before ≡ (is_given x sock || is_open x base)
  pub new : (x : ℕ) → is_given x sock ≡ true → is_open x base ≡ false
  pub fresh : IsFresh before
  pub given : IsOpenIn before sock

module _ (base before : Net) (conn : ℕ) where
  unused :
      (sock : Option ℕ)
      → IsMade sock base before
      → is_open conn before ≡ false
      → is_open conn base ≡ false
  unused sock h e = ground (arith, h.made conn)

  owner_is_ours :
      (symmetric : Bool) (m : PunchMethod) (sock : Option ℕ)
      → IsMade sock base before
      → IsOwner before symmetric m sock conn
      → Fits symmetric m sock
      → (x : ℕ) → (is_given x sock ≡ true → x ≡ conn) × (is_open conn base ≡ false)
  owner_is_ours symmetric cone_to_cone none h o f x = absurd (ground arith)
  owner_is_ours true sym_to_cone none h o f x = ((λ e. ground arith), unused none h o)
  owner_is_ours false sym_to_cone none h o f x = absurd (ground arith)
  owner_is_ours symmetric easy_sym_to_easy_sym none h o f x = ((λ e. ground arith), unused none h o)
  owner_is_ours symmetric punch_none sock h o f x = elim o [ ]
  owner_is_ours symmetric (other_method m) sock h o f x = elim o [ ]
  owner_is_ours symmetric cone_to_cone (some s) h o f x = ground (arith, h.new conn)
  owner_is_ours false sym_to_cone (some s) h o f x = ground (arith, h.new conn)
  owner_is_ours true sym_to_cone (some s) h o f x = absurd (ground arith)
  owner_is_ours symmetric easy_sym_to_easy_sym (some s) h o f x = elim f [ ]

IsOurs-of :
    (sock : Option ℕ) (base : Net) (r : PunchResult) (x : ℕ)
    → ((s : ℕ) (a : Addr)
        → r ≡ punched (record { conn = s; remote_addr = a })
        → (is_given x sock ≡ true → x ≡ s) × (is_open s base ≡ false))
    → IsOurs sock base r x
IsOurs-of sock base (punched p) x h = h p.conn p.remote_addr refl
IsOurs-of sock base no_socket_array x h = tt
IsOurs-of sock base timed_out x h = tt
IsOurs-of sock base no_punch_socket x h = tt
IsOurs-of sock base unsupported_method x h = tt
IsOurs-of sock base fuel_exhausted x h = tt

pub punch-remains :
    (w : World) (mine : NatType) (found : Signaled) (sock : Option ℕ) (s : Punched) (base : Net)
    → IsMade sock base s.net
    → Fits (is_symmetric mine) found.method sock
    → (x : ℕ)
    → is_open x (punch w mine found sock s).0.net ≡ remains (punch w mine found sock s).1 base x
unfolding punch
punch-remains w mine found sock s base h f x =
    let r = execute_punch w.punch mine found.nat found.method found.tid sock s.net in
    let o = w.punch in
    dial-remains w found.token sock (record s { net = r.0 }) base s.net x (h.made x) (h.new x) r.1
      (execute_punch_open o mine found.nat found.method found.tid sock s.net h.fresh h.given x)
      (IsOurs-of sock base r.1 x (λ c a e.
        owner_is_ours base s.net c (is_symmetric mine) found.method sock h
          (execute_punch-IsOwner o mine found.nat found.method found.tid sock s.net h.fresh h.given
            c a e)
          f x))
