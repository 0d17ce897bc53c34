-- ===== src/Server/Sessions/Ended.antt =====
-- What the end of a monitor does to the session that is in the table then.
use f2p.Prelude.{
  ℕ, ◌≡◌, ◌≢◌, refl, sym, subst, ◌∙◌, inl, inr, Bool, true, false, List, ◌∷◌, Option, none, some,
  arith, ◌==◌, ==_iff, if◌then◌else◌, Bool-cases,
}
use f2p.Prelude.Maps.{lookup, delete, lookup-insert, lookup-delete}
use f2p.Server.Sessions.{
  ClientSession, Sessions, session_of, replace, quic_session, handle_quic_control_stream,
  same_stream, end_monitor, resets, handle_quic_data_stream,
}

same_stream_iff : (a b : Option ℕ) → same_stream a b ≡ true → a ≡ b
same_stream_iff none none h = refl
same_stream_iff none (some b) h = ground arith
same_stream_iff (some a) none h = ground arith
same_stream_iff (some a) (some b) h = ground arith

lookup-deleted : (p : ℕ) (m : List (ℕ × ClientSession)) → lookup ◌==◌ p (delete ◌==◌ p m) ≡ none
lookup-deleted p m = ground (arith, lookup-delete ◌==◌ ==_iff p p m)

kept_or_gone :
    (p : ℕ) (same : Bool) (current : ClientSession) (m : List (ℕ × ClientSession))
    → lookup ◌==◌ p m ≡ some current
    → lookup ◌==◌ p (if same then delete ◌==◌ p m else m) ≡ (if same then none else some current)
kept_or_gone p true current m h = lookup-deleted p m
kept_or_gone p false current m h = h

-- When the monitor of a session ends, the entry of its peer goes exactly if the two control streams are
-- equal, whichever session it is of; two sessions without a libp2p stream count as equal.
pub session_of-end_monitor :
    (session current : ClientSession) (s : Sessions)
    → session_of session.peer_id s ≡ some current
    → session_of session.peer_id (end_monitor session s)
      ≡ (if same_stream current.control_stream session.control_stream then none else some current)
unfolding end_monitor
session_of-end_monitor session current s h =
    subst
      (λ (o : Option ClientSession).
        lookup ◌==◌ session.peer_id (elim o [
          | none ↦ s.authenticated_clients
          | some c ↦
              if same_stream c.control_stream session.control_stream
              then delete ◌==◌ session.peer_id s.authenticated_clients
              else s.authenticated_clients
        ])
        ≡ (if same_stream current.control_stream session.control_stream
            then none
            else some current))
      (sym h)
      (kept_or_gone session.peer_id (same_stream current.control_stream session.control_stream)
        current s.authenticated_clients h)

-- When a client's control stream has been replaced by a stream of another number, the monitor of the
-- old session leaves the new one in the table when it ends; but it closes the connections of the peer,
-- which are also the new session's.
pub end_monitor-replaced :
    (old current : ClientSession) (s : Sessions)
    → session_of old.peer_id s ≡ some current
    → current.control_stream ≢ old.control_stream
    → (session_of old.peer_id (end_monitor old s) ≡ some current)
      × ((end_monitor old s).closed_peers ≡ old.peer_id ∷ s.closed_peers)
end_monitor-replaced old current s e h = (
  elim (Bool-cases (same_stream current.control_stream old.control_stream)) [
    | inl f ↦ absurd (h (same_stream_iff current.control_stream old.control_stream f))
    | inr f ↦ session_of-end_monitor old current s e ∙ rw f refl
  ],
  unfold end_monitor in refl,
)

quic_replaced :
    (old : ClientSession) (stream : ℕ) (s : Sessions)
    → session_of old.peer_id s ≡ some old
    → session_of old.peer_id (handle_quic_control_stream old.peer_id stream s)
      ≡ some (quic_session old.peer_id stream)
unfolding handle_quic_control_stream replace
quic_replaced old stream s h =
    let p = old.peer_id in
    let self : (p == p) ≡ true = ground arith in
    rw (h, handle_quic_control_stream)
      (lookup-insert ◌==◌ ==_iff p p (quic_session p stream) (delete ◌==◌ p s.authenticated_clients)
        ∙ rw self refl)

-- A direct connection that replaces another one of the same client loses its session: the monitor of the
-- old session, which ends because its dispatcher was closed, takes the new session out of the table,
-- and the data streams of the client are closed from then on.
pub quic_session_lost :
    (old : ClientSession) (stream : ℕ) (compressed : Bool) (s : Sessions)
    → session_of old.peer_id s ≡ some old
    → old.control_stream ≡ none
    → handle_quic_data_stream old.peer_id compressed
        (end_monitor old (handle_quic_control_stream old.peer_id stream s))
      ≡ resets
unfolding handle_quic_data_stream
quic_session_lost old stream compressed s h e =
    let s' = handle_quic_control_stream old.peer_id stream s in
    let new = quic_session old.peer_id stream in
    let gone : session_of old.peer_id (end_monitor old s') ≡ none =
      session_of-end_monitor old new s' (quic_replaced old stream s h)
      ∙ subst (λ (x : Option ℕ). (if same_stream none x then none else some new) ≡ none) (sym e)
          refl in
    rw (gone, handle_quic_data_stream) refl
