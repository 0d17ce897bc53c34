-- ===== src/Client/HolePunch/Attempts.antt =====
-- An attempt to punch, on each of its paths.
use f2p.Prelude.{
  ℕ, ◌≡◌, refl, inl, inr, true, [], ◌∷◌, Option, none, some, arith, if◌then◌else◌, Bool-cases,
}
use f2p.Prelude.Maps.{elem}
use f2p.Holepunch.{
  unknown, is_easy_symmetric, is_symmetric, PunchMethod, punch_none, cone_to_cone, sym_to_cone,
  easy_sym_to_easy_sym, other_method, determine_punch_method, NatInfo, NatType, is_cone,
}
use f2p.Holepunch.Sockets.{Net, is_open, close, listen_udp}
use f2p.Holepunch.Sockets.Held.{IsHeld, Listened, listen_udp-Listened, IsFresh, is_open-close}
use f2p.Holepunch.Detection.{Mapped}
use f2p.Holepunch.Signaling.{
  ClientResult, response_unread, no_nat_info, no_token, ready_unread, server_error, not_ready,
  Signaled, signaled,
}
use f2p.Holepunch.Execute.{create_punch_socket}
use f2p.Holepunch.Direct.{response_unread}
use f2p.Client.HolePunch.{
  World, Attempt, not_detected, not_signaled, no_socket, Punched, punch, with_socket, signal,
  attempt_hole_punch, is_sym_to_cone,
}
use f2p.Client.HolePunch.Leaks.{remains, Fits, IsMade, punch-remains}
use f2p.Client.HolePunch.{cached_info}
use f2p.Server.Direct.{NatState}

-- What creating a punch socket leaves: nothing new, or the socket, whose data have no kind.
abbrev Socketed : Net → Net × Option (ℕ × NatInfo) → Type 0
Socketed net (net', none) = (x : ℕ) → is_open x net' ≡ is_open x net
Socketed net (net', some (s, own)) = IsMade (some s) net net' × (own.type ≡ unknown)

held_alone : (net net' : Net) (s : ℕ) → IsHeld net (s ∷ []) net' → IsMade (some s) net net'
unfolding elem
held_alone net net' s h = record {
  made = λ x. ground (arith, h.opened x);
  new = λ x e. ground (arith, h.own x);
  fresh = h.fresh;
  given = ground (arith, h.opened s);
}

socket_made :
    (mapped : Option Mapped) (net : Net) (r : Net × Option ℕ)
    → Listened net [] r
    → Socketed net (elim r.1 [
      | none ↦ (r.0, none)
      | some s ↦ elim mapped [
        | none ↦ (close s r.0, none)
        | some m ↦
            (r.0, some (s, record { type = unknown; public_ip = m.ip; public_port = m.port }))
      ]
    ])
unfolding elem
socket_made mapped net (net', none) h = λ x. h.opened x
socket_made none net (net', some s) h =
    λ x. ground (arith, h.opened x, h.own x, is_open-close x s net')
socket_made (some m) net (net', some s) h = (held_alone net net' s h, refl)

create_punch_socket-Socketed :
    (mapped : Option Mapped) (net : Net)
    → IsFresh net
    → Socketed net (create_punch_socket mapped net)
unfolding create_punch_socket elem
create_punch_socket-Socketed mapped net f = socket_made mapped net (listen_udp net) (
    listen_udp-Listened net [] net
      (record { opened = λ x. refl; own = λ x e. ground arith; fresh = f }))

unmade : (net : Net) → IsFresh net → IsMade none net net
unmade net f = record { made = λ x. refl; new = λ x e. ground arith; fresh = f; given = tt }

cone-Fits :
    (mine theirs own : NatType) (m : PunchMethod) (s : ℕ)
    → is_cone mine ≡ true
    → own ≡ unknown
    → m ≡ determine_punch_method mine theirs
    → Fits (is_symmetric (if is_sym_to_cone m then mine else own)) m (some s)
unfolding determine_punch_method is_cone is_symmetric is_easy_symmetric
cone-Fits mine theirs own cone_to_cone s h e f = tt
cone-Fits mine theirs own sym_to_cone s h e f = ground arith
cone-Fits mine theirs own easy_sym_to_easy_sym s h e f = absurd (ground arith)
cone-Fits mine theirs own punch_none s h e f = tt
cone-Fits mine theirs own (other_method m) s h e f = tt

abbrev by_socket :
    World → NatInfo → Signaled → Punched → Net × Option (ℕ × NatInfo) → Punched × Attempt
by_socket w info found s r = elim r.1 [
  | none ↦ (record s { net = r.0 }, no_socket)
  | some (sock, own) ↦
      punch w (if is_sym_to_cone found.method then info.type else own.type) found (some sock)
        (record s { net = r.0 })
]

by_socket-remains :
    (w : World) (info : NatInfo) (found : Signaled) (s : Punched) (r : Net × Option (ℕ × NatInfo))
    → Socketed s.net r
    → is_cone info.type ≡ true
    → found.method ≡ determine_punch_method info.type found.nat.type
    → (x : ℕ)
    → is_open x (by_socket w info found s r).0.net ≡ remains (by_socket w info found s r).1 s.net x
by_socket-remains w info found s (net, none) h c m x = h x
by_socket-remains w info found s (net, some (sock, own)) h c m x =
    punch-remains w (if is_sym_to_cone found.method then info.type else own.type) found (some sock)
      (record s { net = net }) s.net h.0
      (cone-Fits info.type found.nat.type own.type found.method sock c h.1 m) x

with_socket-remains :
    (w : World) (info : NatInfo) (found : Signaled) (s : Punched)
    → IsFresh s.net
    → found.method ≡ determine_punch_method info.type found.nat.type
    → (x : ℕ)
    → is_open x (with_socket w info found s).0.net ≡ remains (with_socket w info found s).1 s.net x
unfolding with_socket
with_socket-remains w info found s f m x = elim (Bool-cases (is_cone info.type)) [
  | inl c ↦
      rw (c, with_socket)
        (by_socket-remains w info found s (create_punch_socket w.stun s.net)
          (create_punch_socket-Socketed w.stun s.net f) c m x)
  | inr c ↦ rw (c, with_socket) (punch-remains w info.type found none s s.net (unmade s.net f) tt x)
]

abbrev by_result : World → NatInfo → Punched → ClientResult → Punched × Attempt
by_result w info s r = elim r [
  | signaled found ↦ with_socket w info found s
  | failure ↦ (s, not_signaled failure)
]

by_result-remains :
    (w : World) (info : NatInfo) (s : Punched) (r : ClientResult)
    → IsFresh s.net
    → ((found : Signaled)
        → r ≡ signaled found
        → found.method ≡ determine_punch_method info.type found.nat.type)
    → (x : ℕ) → is_open x (by_result w info s r).0.net ≡ remains (by_result w info s r).1 s.net x
by_result-remains w info s (signaled found) f m x =
    with_socket-remains w info found s f (m found refl) x
by_result-remains w info s response_unread f m x = refl
by_result-remains w info s no_nat_info f m x = refl
by_result-remains w info s no_token f m x = refl
by_result-remains w info s ready_unread f m x = refl
by_result-remains w info s (server_error t) f m x = refl
by_result-remains w info s (not_ready t) f m x = refl

signal-remains :
    (w : World) (info : NatInfo) (s : Punched)
    → IsFresh s.net
    → ((found : Signaled)
        → w.signaling ≡ signaled found
        → found.method ≡ determine_punch_method info.type found.nat.type)
    → (x : ℕ) → is_open x (signal w info s).0.net ≡ remains (signal w info s).1 s.net x
unfolding signal
signal-remains w info s f m x = by_result-remains w info s w.signaling f m x

abbrev pub either_info : Option NatInfo → Option NatInfo → Option NatInfo
either_info cached detected = elim cached [ some info ↦ some info | none ↦ detected ]

-- The NAT data that an attempt uses: those that are kept, or those that it detects.
abbrev pub used_info : World → NatState → Option NatInfo
used_info w nat = either_info (cached_info nat) w.detected

abbrev by_info : World → Punched → Option NatInfo → Option NatInfo → Punched × Attempt
by_info w s cached detected = elim cached [
  | some info ↦ signal w info s
  | none ↦ elim detected [
    | none ↦ (s, not_detected)
    | some info ↦
        signal w info (record s { nat = record { nat_info = some info; nat_detected = true } })
  ]
]

by_info-remains :
    (w : World) (s : Punched) (cached detected : Option NatInfo)
    → IsFresh s.net
    → ((info : NatInfo) (found : Signaled)
        → either_info cached detected ≡ some info
        → w.signaling ≡ signaled found
        → found.method ≡ determine_punch_method info.type found.nat.type)
    → (x : ℕ)
    → is_open x (by_info w s cached detected).0.net
      ≡ remains (by_info w s cached detected).1 s.net x
by_info-remains w s (some info) detected f m x =
    signal-remains w info s f (λ found e. m info found refl e) x
by_info-remains w s none none f m x = refl
by_info-remains w s none (some info) f m x =
    signal-remains w info (record s { nat = record { nat_info = some info; nat_detected = true } })
      f (λ found e. m info found refl e) x

-- When the server has chosen the method for the two kinds of NAT, a failed attempt to punch leaves the
-- sockets as they were, wherever it fails; a successful one leaves open one more, its own. (A new socket
-- has a number that is not in use.)
pub attempt_hole_punch-remains :
    (w : World) (s : Punched)
    → IsFresh s.net
    → ((info : NatInfo) (found : Signaled)
        → used_info w s.nat ≡ some info
        → w.signaling ≡ signaled found
        → found.method ≡ determine_punch_method info.type found.nat.type)
    → (x : ℕ)
    → is_open x (attempt_hole_punch w s).0.net ≡ remains (attempt_hole_punch w s).1 s.net x
unfolding attempt_hole_punch
attempt_hole_punch-remains w s f m x = by_info-remains w s (cached_info s.nat) w.detected f m x
