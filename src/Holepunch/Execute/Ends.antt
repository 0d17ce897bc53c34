-- ===== src/Holepunch/Execute/Ends.antt =====
-- Every punch ends: no fuel runs out.
use f2p.Prelude.{
  String, ℕ, ◌+◌, ◌≢◌, Bool, true, false, List, [], ◌∷◌, Option, none, some, arith, if◌then◌else◌,
}
use f2p.Holepunch.{
  NatType, NatInfo, PunchMethod, punch_none, cone_to_cone, sym_to_cone, easy_sym_to_easy_sym,
  other_method, is_symmetric, make_punch_packet,
}
use f2p.Holepunch.Sockets.{Addr, Net, Punching, write_to, send_all, new_udp_socket_array}
use f2p.Holepunch.Punch.{
  sym_rounds, send_until, LoopEnd, PunchResult, fuel_exhausted, no_socket_array, no_punch_socket,
  Outside, begin, keep_one, punch_sym_to_cone, punch_both_easy_sym, punch_cone_to_cone,
  punch_max_rounds, punch_timeout, predicted_addr, sym_to_cone_socket_count,
  both_easy_sym_socket_count,
}
use f2p.Holepunch.Punch.Ends.{Ends, send_until-Ends, sym_rounds-Ends, keep_one-Ends, hand_back-Ends}
use f2p.Holepunch.Spray.{cone_rounds, confirm_and_return, punch_cone_to_sym, cone_side}
use f2p.Holepunch.Spray.Ends.{cone_rounds-Ends, confirm_and_return-Ends}
use f2p.Holepunch.Execute.{execute_punch, peer_addr_of, is_easy_inc}

abbrev Finishes : Net × PunchResult → Type 0
Finishes r = r.1 ≢ fuel_exhausted

array-Finishes :
    (r : Net × Option (List ℕ)) (run : List ℕ → Net → Punching × LoopEnd)
    → ((socks : List ℕ) (n : Net) → Ends (run socks n))
    → Finishes
        (elim r.1 [ none ↦ (r.0, no_socket_array) | some socks ↦ keep_one socks (run socks r.0) ])
array-Finishes (n, none) run h = λ e. ground arith
array-Finishes (n, some socks) run h = keep_one-Ends socks (run socks n) (h socks n)

module _ (o : Outside) (tid : ℕ) (net : Net) where
  sym_to_cone-Finishes : (a : Addr) → Finishes (punch_sym_to_cone o a tid net)
  unfolding punch_sym_to_cone
  sym_to_cone-Finishes a =
      array-Finishes (new_udp_socket_array sym_to_cone_socket_count net)
        (λ socks n.
          sym_rounds punch_max_rounds (o.start + punch_timeout)
            (send_all socks (make_punch_packet tid) a) tid socks (begin o n))
        (λ socks n.
          sym_rounds-Ends (send_all socks (make_punch_packet tid) a) tid socks punch_max_rounds
            (o.start + punch_timeout) (begin o n))

  easy_sym-Finishes : (a : Addr) (inc : Bool) → Finishes (punch_both_easy_sym o a inc tid net)
  unfolding punch_both_easy_sym
  easy_sym-Finishes a inc =
      array-Finishes (new_udp_socket_array both_easy_sym_socket_count net)
        (λ socks n.
          send_until 301 (o.start + punch_timeout)
            (send_all socks (make_punch_packet tid) (predicted_addr inc a)) tid socks (begin o n))
        (λ socks n.
          send_until-Ends (send_all socks (make_punch_packet tid) (predicted_addr inc a)) tid socks
            301 (o.start + punch_timeout) (begin o n) (omega arith))

  cone_to_cone-Finishes : (s : ℕ) (a : Addr) → Finishes (punch_cone_to_cone o s a tid net)
  unfolding punch_cone_to_cone
  cone_to_cone-Finishes s a =
      hand_back-Ends
        (send_until 301 (o.start + punch_timeout) (write_to s (make_punch_packet tid) a) tid
          (s ∷ []) (begin o net))
        (send_until-Ends (write_to s (make_punch_packet tid) a) tid (s ∷ []) 301
          (o.start + punch_timeout) (begin o net) (omega arith))

  pub cone_to_sym-Finishes : (s : ℕ) (ip : String) → Finishes (punch_cone_to_sym o s ip tid net)
  unfolding punch_cone_to_sym
  cone_to_sym-Finishes s ip =
      let c = cone_side o s ip tid in
      let r = cone_rounds c o.round_draws punch_max_rounds 0 (begin o net) in
      hand_back-Ends (confirm_and_return c r) (
        confirm_and_return-Ends c r
          (cone_rounds-Ends c o.round_draws punch_max_rounds 0 (begin o net)))

  sides-Finish :
      (symmetric : Bool) (peer : NatInfo) (sock : Option ℕ)
      → Finishes (
          if symmetric then punch_sym_to_cone o (peer_addr_of peer) tid net else elim sock [
            | none ↦ (net, no_punch_socket)
            | some s ↦ punch_cone_to_sym o s peer.public_ip tid net
          ])
  sides-Finish true peer sock = sym_to_cone-Finishes (peer_addr_of peer)
  sides-Finish false peer none = λ e. ground arith
  sides-Finish false peer (some s) = cone_to_sym-Finishes s peer.public_ip

  -- Every punch ends by itself: whatever arrives and however long each wait takes, the rounds that the
  -- loops of the model are given are enough for the time that the code allows.
  pub execute_punch-Finishes :
      (mine : NatType) (peer : NatInfo) (method : PunchMethod) (sock : Option ℕ)
      → (execute_punch o mine peer method tid sock net).1 ≢ fuel_exhausted
  unfolding execute_punch
  execute_punch-Finishes mine peer cone_to_cone none = λ e. ground arith
  execute_punch-Finishes mine peer cone_to_cone (some s) =
      cone_to_cone-Finishes s (peer_addr_of peer)
  execute_punch-Finishes mine peer sym_to_cone sock = sides-Finish (is_symmetric mine) peer sock
  execute_punch-Finishes mine peer easy_sym_to_easy_sym sock =
      easy_sym-Finishes (peer_addr_of peer) (is_easy_inc peer.type)
  execute_punch-Finishes mine peer punch_none sock = λ e. ground arith
  execute_punch-Finishes mine peer (other_method m) sock = λ e. ground arith
