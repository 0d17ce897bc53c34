-- ===== src/Holepunch/Execute/Roles.antt =====
-- The two sides of a punch: they play the two parts, and each understands the other's packets.
use f2p.Prelude.{
  not, subst, ℕ, zero, suc, ◌+◌, ◌*◌, ◌^◌, ◌<◌, ◌≡◌, refl, ap, sym, ◌∙◌, ◌⊎◌, inl, inr, true, false,
  List, [], ◌∷◌, ◌++◌, Option, none, some, arith, ◌==◌, replicate, Bool-cases, lt→ltb,
}
use f2p.Prelude.Maps.{elem}
use f2p.Wire.RoundTrip.{get_u32-put_u32}
use f2p.Wire.{put_u32}
use f2p.Holepunch.{
  NatType, NatInfo, is_cone, is_easy_symmetric, sym_to_cone, is_symmetric, determine_punch_method,
  make_punch_packet, parse_punch_packet,
}
use f2p.Holepunch.Sockets.{
  Addr, Net, Wait, Arrival, Punching, quiet, is_punch, heard, pass, select, write_to,
}
use f2p.Holepunch.Punch.{
  LoopEnd, got, punched, Outside, begin, send_until, hand_back, punch_sym_to_cone,
  punch_cone_to_cone, punch_timeout,
}
use f2p.Holepunch.Spray.{punch_cone_to_sym}
use f2p.Holepunch.Execute.{execute_punch, peer_addr_of}

==_refl : (n : ℕ) → (n == n) ≡ true
==_refl n = ground arith

-- A listener takes a packet of this package for its own exactly when the transactions are the same.
pub is_punch-make_punch_packet :
    (tid other : ℕ) → other < 2 ^ 32 → is_punch tid (make_punch_packet other) ≡ (other == tid)
unfolding is_punch make_punch_packet parse_punch_packet put_u32
is_punch-make_punch_packet tid other h = ap (λ (x : ℕ). x == tid) (get_u32-put_u32 other h)

module _ (send : Net → Net) (tid : ℕ) (s : ℕ) (x : Arrival) (elapsed : ℕ) (at : x.socket ≡ s)
    (good : is_punch tid x.payload ≡ true) where
  abbrev arrival_wait : Wait
  arrival_wait = record { arrivals = x ∷ []; missed = false; elapsed = elapsed }

  -- After so many quiet waits a packet comes, while there is time.
  send_until_hears :
      (n fuel end' : ℕ) (net : Net) (now : ℕ) (rest : List Wait)
      → n < fuel
      → now + 100 * n < end'
      → (send_until fuel end' send tid (s ∷ []) (record {
        net = net;
        waits = replicate n quiet ++ (arrival_wait ∷ rest);
        pending = none;
        now = now;
      })).1
        ≡ got s x.from
  unfolding send_until select pass heard elem
  send_until_hears n zero end' net now rest h t = absurd (omega arith)
  send_until_hears zero (suc fuel) end' net now rest h t = ground arith
  send_until_hears (suc n) (suc fuel) end' net now rest h t =
      rw (lt→ltb now end' (omega arith), send_until)
        (send_until_hears n fuel end' (send net) (now + 0 + 100) rest (omega arith) (omega arith))

hand_back-got :
    (r : Punching × LoopEnd) (s : ℕ) (a : Addr)
    → r.1 ≡ got s a
    → (hand_back r).1 ≡ punched (record { conn = s; remote_addr = a })
unfolding hand_back
hand_back-got (st, e) s a h = rw h (refl)

-- Two cones: a packet of the transaction that comes while there is time, after any number of silent
-- intervals, ends the punch with the socket and the sender's address.
pub punch_cone_to_cone_hears :
    (o : Outside) (s : ℕ) (peer : Addr) (tid : ℕ) (net : Net) (n elapsed : ℕ) (from : Addr)
    (rest : List Wait)
    → tid < 2 ^ 32
    → n < 300
    → o.waits
      ≡ replicate n quiet
        ++ (record {
          arrivals = record { socket = s; payload = make_punch_packet tid; from = from } ∷ [];
          missed = false;
          elapsed = elapsed;
        }
            ∷ rest)
    → (punch_cone_to_cone o s peer tid net).1 ≡ punched (record { conn = s; remote_addr = from })
unfolding punch_cone_to_cone
punch_cone_to_cone_hears o s peer tid net n elapsed from rest small early e =
    let send = write_to s (make_punch_packet tid) peer in
    let x : Arrival = record { socket = s; payload = make_punch_packet tid; from = from } in
    hand_back-got (send_until 301 (o.start + punch_timeout) send tid (s ∷ []) (begin o net)) s from
      (subst
        (λ (ws : List Wait).
          (send_until 301 (o.start + punch_timeout) send tid (s ∷ [])
            (record { net = net; waits = ws; pending = none; now = o.start })).1
          ≡ got s from)
        (sym e)
        (send_until_hears send tid s x elapsed refl
          (is_punch-make_punch_packet tid tid small ∙ ==_refl tid) n 301 (o.start + punch_timeout)
          net o.start rest (omega arith) (omega arith)))

attacks :
    (o : Outside) (mine : NatType) (peer : NatInfo) (tid : ℕ) (sock : Option ℕ) (net : Net)
    → is_symmetric mine ≡ true
    → execute_punch o mine peer sym_to_cone tid sock net
      ≡ punch_sym_to_cone o (peer_addr_of peer) tid net
unfolding execute_punch
attacks o mine peer tid sock net h = rw (h, execute_punch) refl

sprays :
    (o : Outside) (mine : NatType) (peer : NatInfo) (tid s : ℕ) (net : Net)
    → is_symmetric mine ≡ false
    → execute_punch o mine peer sym_to_cone tid (some s) net
      ≡ punch_cone_to_sym o s peer.public_ip tid net
unfolding execute_punch
sprays o mine peer tid s net h = rw (h, execute_punch) refl

one_symmetric :
    (a b : NatType)
    → determine_punch_method a b ≡ sym_to_cone
    → is_symmetric b ≡ not (is_symmetric a)
unfolding determine_punch_method is_symmetric is_cone is_easy_symmetric
one_symmetric a b h = ground arith

-- Where one side is behind a cone and the other behind a symmetric NAT, the chosen method makes the
-- symmetric side attack with many sockets and the other one spray ports, whichever of them is the client.
pub execute_punch_roles :
    (o p : Outside) (mine theirs : NatInfo) (tid s : ℕ) (net far : Net)
    → determine_punch_method mine.type theirs.type ≡ sym_to_cone
    → ((execute_punch o mine.type theirs sym_to_cone tid none net
          ≡ punch_sym_to_cone o (peer_addr_of theirs) tid net)
        × (execute_punch p theirs.type mine sym_to_cone tid (some s) far
            ≡ punch_cone_to_sym p s mine.public_ip tid far))
      ⊎ ((execute_punch o mine.type theirs sym_to_cone tid (some s) net
            ≡ punch_cone_to_sym o s theirs.public_ip tid net)
          × (execute_punch p theirs.type mine sym_to_cone tid none far
              ≡ punch_sym_to_cone p (peer_addr_of mine) tid far))
execute_punch_roles o p mine theirs tid s net far h = elim (Bool-cases (is_symmetric mine.type)) [
  | inl e ↦
      let f : is_symmetric theirs.type ≡ false = one_symmetric mine.type theirs.type h ∙ ap not e in
      inl (attacks o mine.type theirs tid none net e, sprays p theirs.type mine tid s far f)
  | inr e ↦
      let f : is_symmetric theirs.type ≡ true = one_symmetric mine.type theirs.type h ∙ ap not e in
      inr (sprays o mine.type theirs tid s net e, attacks p theirs.type mine tid none far f)
]
