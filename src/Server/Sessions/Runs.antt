-- ===== src/Server/Sessions/Runs.antt =====
-- Which clients are served, over all histories of the table.
use mathlib.Core.List.{Memᴰ}
use f2p.Prelude.{
  subst, if◌then◌else◌, ℕ, ◌≡◌, ◌≢◌, refl, sym, ◌∙◌, ◌⊎◌, inl, inr, Bool, true, false, List, [],
  ◌∷◌, Option, none, some, arith, ◌==◌, ==_iff, Bool-cases, Option-cases,
}
use f2p.Prelude.Maps.{lookup, delete, lookup-insert, lookup-delete}
use f2p.Server.Sessions.{
  replace, enter, libp2p_session, quic_session, handle_quic_control_stream,
  finish_quic_authentication, ClientSession, Sessions, no_sessions, session_of,
  handle_control_stream, finish_authentication, end_monitor, resets, serves, handle_data_stream,
}

-- The events of the table: a control stream is opened, an exchange ends, a monitor ends.
pub data Change : Type 0 where
  opened : ℕ → ℕ → Change
  finished : ℕ → ℕ → Bool → Change
  quic_opened : ℕ → ℕ → Change
  quic_finished : ℕ → ℕ → Bool → Change
  ended : ClientSession → Change

unfoldable pub apply : Change → Sessions → Sessions
unfolding handle_control_stream finish_authentication handle_quic_control_stream
    finish_quic_authentication end_monitor
apply (opened peer stream) s = handle_control_stream peer stream s
apply (finished peer stream ok) s = finish_authentication peer stream ok s
apply (quic_opened peer stream) s = handle_quic_control_stream peer stream s
apply (quic_finished peer stream ok) s = finish_quic_authentication peer stream ok s
apply (ended session) s = end_monitor session s

-- A history, the newest change first.
unfoldable pub after : List Change → Sessions
unfolding apply
after [] = no_sessions
after (e ∷ es) = apply e (after es)

-- A successful authentication of the peer, on a libp2p stream or a QUIC stream.
abbrev pub IsLogin : ℕ → Change → Type 0
IsLogin peer e =
    (stream : ℕ) × ((finished peer stream true ≡ e) ⊎ (quic_finished peer stream true ≡ e))

-- A peer's authentication has succeeded.
pub record Authenticated (peer : ℕ) (es : List Change) : Type 0 where
  pub change : Change
  pub login : IsLogin peer change
  pub event : Memᴰ change es

session_of-replace :
    (p q : ℕ) (old new : ClientSession) (s : Sessions)
    → (p == q) ≡ false
    → session_of p (replace q old new s) ≡ session_of p s
unfolding replace
session_of-replace p q old new s f =
    lookup-insert ◌==◌ ==_iff p q new (delete ◌==◌ q s.authenticated_clients)
    ∙ rw f (lookup-delete ◌==◌ ==_iff p q s.authenticated_clients ∙ rw f refl)

session_of-enter :
    (p q : ℕ) (new : ClientSession) (s : Sessions)
    → (p == q) ≡ false
    → session_of p (enter q new s) ≡ session_of p s
unfolding enter
session_of-enter p q new s f = lookup-insert ◌==◌ ==_iff p q new s.authenticated_clients ∙ rw f refl

none_or_some : (o : Option ClientSession) (c : ClientSession) → o ≡ none → o ≢ some c
none_or_some o c e f = ground (arith, sym e ∙ f)

-- A client that is not in the table is not entered by a replacement.
replaced-out :
    (p q : ℕ) (new : ClientSession) (s : Sessions)
    → session_of p s ≡ none
    → session_of p (elim (session_of q s) [ none ↦ s | some old ↦ replace q old new s ]) ≡ none
replaced-out p q new s h = elim (Option-cases (session_of q s)) [
  | inl e ↦
      subst
        (λ (o : Option ClientSession).
          session_of p (elim o [ none ↦ s | some old ↦ replace q old new s ]) ≡ none)
        (sym e) h
  | inr (old, e) ↦ elim (Bool-cases (p == q)) [
    | inl f ↦ absurd (none_or_some (session_of p s) old h (rw ((==_iff p q).0 f) e))
    | inr f ↦
        subst
          (λ (o : Option ClientSession).
            session_of p (elim o [ none ↦ s | some old ↦ replace q old new s ]) ≡ none)
          (sym e) (session_of-replace p q old new s f ∙ h)
  ]
]

entered-out :
    (p q : ℕ) (new : ClientSession) (ok : Bool) (s other : Sessions)
    → session_of p s ≡ none
    → other.authenticated_clients ≡ s.authenticated_clients
    → (session_of p (if ok then enter q new s else other) ≡ none) ⊎ ((p ≡ q) × (ok ≡ true))
entered-out p q new false s other h e = inl (rw e h)
entered-out p q new true s other h e = elim (Bool-cases (p == q)) [
  | inl f ↦ inr ((==_iff p q).0 f, refl)
  | inr f ↦ inl (session_of-enter p q new s f ∙ h)
]

ended-out :
    (p : ℕ) (session : ClientSession) (s : Sessions)
    → session_of p s ≡ none
    → session_of p (end_monitor session s) ≡ none
unfolding end_monitor
ended-out p session s h =
    ground (arith, lookup-delete ◌==◌ ==_iff p session.peer_id s.authenticated_clients)

-- A change keeps a client out, unless it is a successful authentication of this client.
stays_out :
    (p : ℕ) (e : Change) (s : Sessions)
    → session_of p s ≡ none
    → (session_of p (apply e s) ≡ none) ⊎ IsLogin p e
unfolding apply handle_control_stream handle_quic_control_stream finish_authentication
    finish_quic_authentication
stays_out p (opened q stream) s h = inl (replaced-out p q (libp2p_session q stream) s h)
stays_out p (quic_opened q stream) s h = inl (replaced-out p q (quic_session q stream) s h)
stays_out p (finished q stream ok) s h =
    elim (entered-out p q (libp2p_session q stream) ok s _ h refl) [
      | inl e ↦ inl e
      | inr (e, f) ↦ inr (stream, inl (rw (e, f) refl))
    ]
stays_out p (quic_finished q stream ok) s h =
    elim (entered-out p q (quic_session q stream) ok s _ h refl) [
      | inl e ↦ inl e
      | inr (e, f) ↦ inr (stream, inr (rw (e, f) refl))
    ]
stays_out p (ended session) s h = inl (ended-out p session s h)

out_or_Authenticated :
    (p : ℕ) (es : List Change) → (session_of p (after es) ≡ none) ⊎ Authenticated p es
unfolding after lookup
out_or_Authenticated p [] = inl refl
out_or_Authenticated p (e ∷ es) = elim (out_or_Authenticated p es) [
  | inr a ↦ inr (record { change = a.change; login = a.login; event = Memᴰ.tail a.event })
  | inl n ↦ elim (stays_out p e (after es) n) [
    | inl m ↦ inl m
    | inr l ↦ inr (record { change = e; login = l; event = Memᴰ.head refl })
  ]
]

-- In every history of the table, a data stream is served only if an authentication of its peer has
-- succeeded before; the stream of any other peer is reset.
pub handle_data_stream-Authenticated :
    (p : ℕ) (compressed : Bool) (es : List Change)
    → (handle_data_stream p compressed (after es) ≡ resets)
      ⊎ ((handle_data_stream p compressed (after es) ≡ serves compressed) × Authenticated p es)
unfolding handle_data_stream
handle_data_stream-Authenticated p compressed es = elim (Option-cases (session_of p (after es))) [
  | inl e ↦ inl (rw (e, handle_data_stream) refl)
  | inr (c, e) ↦ elim (out_or_Authenticated p es) [
    | inl n ↦ absurd (none_or_some (session_of p (after es)) c n e)
    | inr a ↦ inr (rw (e, handle_data_stream) refl, a)
  ]
]
