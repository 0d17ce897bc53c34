-- ===== src/Holepunch/Execute/Kept.antt =====
-- Each of the four punches, and ExecutePunch, keep what Faithful says.
use f2p.Prelude.{
  ap, ℕ, ◌≤◌, ◌≡◌, refl, sym, ◌⊎◌, inl, inr, Bool, true, false, List, [], ◌∷◌, Option, none, some,
  arith, if◌then◌else◌,
}
use f2p.Prelude.Int.{pos}
use f2p.Holepunch.{
  NatType, NatInfo, PunchMethod, punch_none, cone_to_cone, sym_to_cone, easy_sym_to_easy_sym,
  other_method, is_symmetric,
}
use f2p.Holepunch.Sockets.{Addr, Net, Wait, is_open}
use f2p.Holepunch.Sockets.Held.{IsFresh}
use f2p.Holepunch.Sockets.Hearing.{Arrives}
use f2p.Holepunch.Punch.{
  PunchResult, no_punch_socket, unsupported_method, Outside, punch_sym_to_cone, predicted_addr,
}
use f2p.Holepunch.Spray.{punch_cone_to_sym}
use f2p.Holepunch.Execute.{execute_punch, peer_addr_of, is_easy_inc}
use f2p.Holepunch.Execute.Faithful.{IsFaithful, nothing-IsFaithful}
use f2p.Holepunch.Execute.Ways.{
  punch_sym_to_cone-IsFaithful, punch_cone_to_cone-IsFaithful, punch_both_easy_sym-IsFaithful,
  punch_cone_to_sym-IsFaithful,
}

abbrev pub IsPort : ℕ → Type 0
IsPort p = (1 ≤ p) × (p ≤ 65535)

-- Where a side's packets go: to the peer's address; or, from the cone's side, to the peer's IP at a
-- port from 1 to 65535, or to an address from which a packet of the transaction has come; or to the
-- peer's address with the predicted port.
abbrev pub IsTarget : NatType → NatInfo → PunchMethod → ℕ → List Wait → Addr → Type 0
IsTarget mine peer cone_to_cone tid waits a = a ≡ peer_addr_of peer
IsTarget mine peer sym_to_cone tid waits a =
    if is_symmetric mine
    then a ≡ peer_addr_of peer
    else ((p : ℕ) × IsPort p × (a ≡ record { ip = peer.public_ip; port = pos p }))
    ⊎ ((s : ℕ) × Arrives tid (s ∷ []) s a waits)
IsTarget mine peer easy_sym_to_easy_sym tid waits a =
    a ≡ predicted_addr (is_easy_inc peer.type) (peer_addr_of peer)
IsTarget mine peer punch_none tid waits a = ⊥
IsTarget mine peer (other_method m) tid waits a = ⊥

-- The socket that is passed is open.
abbrev pub IsOpenIn : Net → Option ℕ → Type 0
IsOpenIn net none = Unit
IsOpenIn net (some s) = is_open s net ≡ true

-- Which socket a successful punch may return: the one that is passed, or one that was not open.
abbrev pub IsOwner : Net → Bool → PunchMethod → Option ℕ → ℕ → Type 0
IsOwner net symmetric cone_to_cone sock s = sock ≡ some s
IsOwner net symmetric sym_to_cone sock s =
    if symmetric then is_open s net ≡ false else sock ≡ some s
IsOwner net symmetric easy_sym_to_easy_sym sock s = is_open s net ≡ false
IsOwner net symmetric punch_none sock s = ⊥
IsOwner net symmetric (other_method m) sock s = ⊥

module _ (o : Outside) (mine : NatType) (peer : NatInfo) (tid : ℕ) (net : Net) where
  abbrev Faithful : PunchMethod → Option ℕ → Net × PunchResult → Type 0
  Faithful method sock =
      IsFaithful tid (IsTarget mine peer method tid o.waits) o.waits
        (IsOwner net (is_symmetric mine) method sock) net

  owned_by :
      {T : Addr → Type 0} (s : ℕ) {r : Net × PunchResult}
      → IsFaithful tid T o.waits (λ x. x ≡ s) net r
      → IsFaithful tid T o.waits (λ x. some s ≡ some x) net r
  owned_by s f = record {
    owned = f.owned;
    replied = f.replied;
    own = λ x a e. ap some (sym (f.own x a e));
    aimed = f.aimed;
  }

  refused-Faithful :
      (m : PunchMethod) (sock : Option ℕ) (r : PunchResult)
      → (r ≡ no_punch_socket) ⊎ (r ≡ unsupported_method)
      → Faithful m sock (net, r)
  refused-Faithful m sock r h =
      nothing-IsFaithful tid (IsTarget mine peer m tid o.waits) o.waits
        (IsOwner net (is_symmetric mine) m sock) net net r ((λ x. refl), (λ k. k))
        (λ x. ground arith) (λ p e. ground arith)

  abbrev SymTarget : Bool → Addr → Type 0
  SymTarget symmetric a =
      if symmetric
      then a ≡ peer_addr_of peer
      else ((p : ℕ) × IsPort p × (a ≡ record { ip = peer.public_ip; port = pos p }))
      ⊎ ((s : ℕ) × Arrives tid (s ∷ []) s a o.waits)

  sym_to_cone-Faithful :
      (symmetric : Bool) (sock : Option ℕ)
      → IsFresh net
      → IsOpenIn net sock
      → IsFaithful tid (SymTarget symmetric) o.waits (IsOwner net symmetric sym_to_cone sock) net (
          if symmetric then punch_sym_to_cone o (peer_addr_of peer) tid net else elim sock [
            | none ↦ (net, no_punch_socket)
            | some s ↦ punch_cone_to_sym o s peer.public_ip tid net
          ])
  sym_to_cone-Faithful true sock f h =
      punch_sym_to_cone-IsFaithful tid _ o net (peer_addr_of peer) refl f
  sym_to_cone-Faithful false none f h =
      nothing-IsFaithful tid _ o.waits _ net net no_punch_socket ((λ x. refl), (λ k. k)) (λ x. refl)
        (λ p e. ground arith)
  sym_to_cone-Faithful false (some s) f h = owned_by s (
      punch_cone_to_sym-IsFaithful tid _ o net s peer.public_ip (λ p lo hi. inl (p, (lo, hi), refl))
        (λ a r. inr (s, r)) h)

  pub execute_punch-Faithful :
      (method : PunchMethod) (sock : Option ℕ)
      → IsFresh net
      → IsOpenIn net sock
      → Faithful method sock (execute_punch o mine peer method tid sock net)
  unfolding execute_punch
  execute_punch-Faithful cone_to_cone none f h =
      refused-Faithful cone_to_cone none no_punch_socket (inl refl)
  execute_punch-Faithful cone_to_cone (some s) f h =
      owned_by s (punch_cone_to_cone-IsFaithful tid _ o net (peer_addr_of peer) refl s h)
  execute_punch-Faithful sym_to_cone sock f h = sym_to_cone-Faithful (is_symmetric mine) sock f h
  execute_punch-Faithful easy_sym_to_easy_sym sock f h =
      punch_both_easy_sym-IsFaithful tid _ o net (peer_addr_of peer) (is_easy_inc peer.type) refl f
  execute_punch-Faithful punch_none sock f h =
      refused-Faithful punch_none sock unsupported_method (inr refl)
  execute_punch-Faithful (other_method m) sock f h =
      refused-Faithful (other_method m) sock unsupported_method (inr refl)
