-- ===== src/Holepunch/Execute/Ways.antt =====
-- Each way to punch keeps the sockets, hears what it returns and aims its packets.
use f2p.Prelude.{
  get_elem?, All, ℕ, ◌+◌, ◌≤◌, ◌<◌, ◌≡◌, refl, sym, subst, Bool, true, false, List, [], ◌∷◌, Option,
  none, some, arith, String, length,
}
use f2p.Prelude.Int.{pos}
use f2p.Prelude.Maps.{elem}
use f2p.Holepunch.{make_punch_packet}
use f2p.Holepunch.Ports.{generate_shuffled_ports}
use f2p.Holepunch.Ports.Shuffled.{length-generate_shuffled_ports, port_in_range, some_elem}
use f2p.Holepunch.Sockets.{Addr, Net, Punching, is_open, write_to, send_all, new_udp_socket_array}
use f2p.Holepunch.Sockets.Held.{
  IsFresh, Created, new_udp_socket_array-Created, sent-new_udp_socket_array,
}
use f2p.Holepunch.Sockets.Hearing.{Arrives}
use f2p.Holepunch.Punch.{
  LoopEnd, no_socket_array, Outside, begin, keep_one, punch_sym_to_cone, punch_both_easy_sym,
  punch_cone_to_cone, punch_max_rounds, punch_timeout, predicted_addr, sym_to_cone_socket_count,
  both_easy_sym_socket_count,
}
use f2p.Holepunch.Punch.Good.{IsGoodEnd, send_until-IsGoodEnd, sym_rounds-IsGoodEnd}
use f2p.Holepunch.Spray.{cone_side, port_at, wrap_idx, punch_cone_to_sym}
use f2p.Holepunch.Spray.Good.{cone_rounds-IsGoodEnd, confirm_and_return-IsGoodEnd}
use f2p.Holepunch.Execute.Faithful.{
  IsAimed, IsFaithful, Keeps, IsReply, Keeps-write_to, Keeps-send_all, begin-IsGood,
  nothing-IsFaithful, keep_one-IsFaithful, hand_back-IsFaithful,
}

wrap_idx-lt : (l : List ℕ) (idx : ℕ) → 0 < length l → wrap_idx l idx < length l
wrap_idx-lt l idx h = ground arith

port_at_found : (l : List ℕ) (i p : ℕ) → get_elem? l i ≡ some p → p ≡ port_at l i
port_at_found l i p h = ground arith

port_at_range :
    (draws : ℕ → ℕ) (i : ℕ)
    → i < length (generate_shuffled_ports draws)
    → (1 ≤ port_at (generate_shuffled_ports draws) i)
      × (port_at (generate_shuffled_ports draws) i ≤ 65535)
port_at_range draws i h =
    let (p, e) = some_elem i (generate_shuffled_ports draws) h in
    subst (λ (x : ℕ). (1 ≤ x) × (x ≤ 65535)) (port_at_found _ i p e) (port_in_range draws i p e)

module _ (tid : ℕ) (T : Addr → Type 0) (o : Outside) (net : Net) where
  array-IsFaithful :
      (r : Net × Option (List ℕ)) (run : List ℕ → Net → Punching × LoopEnd)
      → Created net r
      → r.0.sent ≡ net.sent
      → ((socks : List ℕ) (n : Net)
          → IsGoodEnd tid socks (Keeps tid T n) (IsReply tid T o.waits socks) (run socks n))
      → IsFaithful tid T o.waits
          (λ s. is_open s net ≡ false)
          net
          (elim r.1 [ none ↦ (r.0, no_socket_array) | some socks ↦ keep_one socks (run socks r.0) ])
  array-IsFaithful (n, none) run c e g =
      nothing-IsFaithful tid T o.waits (λ s. is_open s net ≡ false) net n no_socket_array
        (c, λ h. subst (All (IsAimed tid T)) (sym e) h) (λ x. refl) (λ p k. ground arith)
  array-IsFaithful (n, some socks) run c e g =
      keep_one-IsFaithful tid T o.waits net n socks (run socks n) c e (g socks n)

  module _ (addr : Addr) (aim : T addr) where
    pub punch_sym_to_cone-IsFaithful :
        IsFresh net
        → IsFaithful tid T o.waits
            (λ s. is_open s net ≡ false)
            net
            (punch_sym_to_cone o addr tid net)
    unfolding punch_sym_to_cone
    punch_sym_to_cone-IsFaithful h =
        array-IsFaithful (new_udp_socket_array sym_to_cone_socket_count net)
          (λ (socks : List ℕ) (n : Net). _)
          (new_udp_socket_array-Created sym_to_cone_socket_count net h)
          (sent-new_udp_socket_array sym_to_cone_socket_count net)
          (λ socks n.
            sym_rounds-IsGoodEnd tid socks (Keeps tid T n) (IsReply tid T o.waits socks)
              (send_all socks (make_punch_packet tid) addr) (Keeps-send_all tid T n addr aim socks)
              punch_max_rounds (o.start + punch_timeout) (begin o n) (begin-IsGood tid T socks o n))

    pub punch_cone_to_cone-IsFaithful :
        (s : ℕ)
        → is_open s net ≡ true
        → IsFaithful tid T o.waits (λ x. x ≡ s) net (punch_cone_to_cone o s addr tid net)
    unfolding punch_cone_to_cone
    punch_cone_to_cone-IsFaithful s h = hand_back-IsFaithful tid T o.waits net s _ h (
        send_until-IsGoodEnd tid (s ∷ []) (Keeps tid T net) (IsReply tid T o.waits (s ∷ []))
          (write_to s (make_punch_packet tid) addr) (λ n k. Keeps-write_to tid T net n s addr aim k)
          301 (o.start + punch_timeout) (begin o net) (begin-IsGood tid T (s ∷ []) o net))

  pub punch_both_easy_sym-IsFaithful :
      (addr : Addr) (inc : Bool)
      → T (predicted_addr inc addr)
      → IsFresh net
      → IsFaithful tid T o.waits
          (λ s. is_open s net ≡ false)
          net
          (punch_both_easy_sym o addr inc tid net)
  unfolding punch_both_easy_sym
  punch_both_easy_sym-IsFaithful addr inc aim h =
      array-IsFaithful (new_udp_socket_array both_easy_sym_socket_count net)
        (λ (socks : List ℕ) (n : Net). _)
        (new_udp_socket_array-Created both_easy_sym_socket_count net h)
        (sent-new_udp_socket_array both_easy_sym_socket_count net)
        (λ socks n.
          send_until-IsGoodEnd tid socks (Keeps tid T n) (IsReply tid T o.waits socks)
            (send_all socks (make_punch_packet tid) (predicted_addr inc addr))
            (Keeps-send_all tid T n (predicted_addr inc addr) aim socks) 301
            (o.start + punch_timeout) (begin o n) (begin-IsGood tid T socks o n))

  module _ (s : ℕ) (ip : String)
      (spray : (p : ℕ) → 1 ≤ p → p ≤ 65535 → T (record { ip = ip; port = pos p }))
      (reply : (a : Addr) → Arrives tid (s ∷ []) s a o.waits → T a) where
    port_at-T :
        (idx : ℕ)
        → T (record {
          ip = ip;
          port = pos (
              port_at
                (generate_shuffled_ports o.port_draws)
                (wrap_idx (generate_shuffled_ports o.port_draws) idx));
        })
    port_at-T idx =
        let l = generate_shuffled_ports o.port_draws in
        let full = length-generate_shuffled_ports o.port_draws in
        let (lo, hi) =
          port_at_range o.port_draws (wrap_idx l idx) (wrap_idx-lt l idx (omega (arith, full))) in
        spray (port_at l (wrap_idx l idx)) lo hi

    pub punch_cone_to_sym-IsFaithful :
        is_open s net ≡ true
        → IsFaithful tid T o.waits (λ x. x ≡ s) net (punch_cone_to_sym o s ip tid net)
    unfolding punch_cone_to_sym elem
    punch_cone_to_sym-IsFaithful h =
        let c = cone_side o s ip tid in
        let q = IsReply tid T o.waits (s ∷ []) in
        hand_back-IsFaithful tid T o.waits net s _ h (
          confirm_and_return-IsGoodEnd c (Keeps tid T net) q T
            (λ n a t k. Keeps-write_to tid T net n s a t k) port_at-T
            (λ x a r.
              let e : x ≡ s = ground (arith, r.0) in
              reply a (subst (λ (y : ℕ). Arrives tid (y ∷ []) y a o.waits) e r.1))
            (λ x a r. ground (arith, r.0)) _
            (cone_rounds-IsGoodEnd c (Keeps tid T net) q T
              (λ n a t k. Keeps-write_to tid T net n s a t k) port_at-T o.round_draws
              punch_max_rounds 0 (begin o net) (begin-IsGood tid T (s ∷ []) o net)))
