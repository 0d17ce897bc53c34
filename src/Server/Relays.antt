-- ===== src/Server/Relays.antt =====
-- createAutoRelayPeerSource of internal/server/server.go: which of the closest peers are offered as
-- relays. The peers that the DHT gives, the addresses that are known of each and the server's own id
-- are arguments; the context does not end meanwhile.
use f2p.Prelude.{
  ℕ, zero, suc, ◌+◌, ◌<◌, ◌≡◌, refl, subst, Bool, true, false, ◌&&◌, not, List, [], ◌∷◌, Option,
  none, some, arith, ◌==◌, ltb, leb, if◌then◌else◌, String, take,
}

pub record PeerAddrs : Type 0 where
  pub id : ℕ
  pub addrs : List String

abbrev has_addrs : List String → Bool
has_addrs [] = false
has_addrs (a ∷ rest) = true

-- The peers that may be offered: not the server itself, with an address.
abbrev pub is_candidate : ℕ → PeerAddrs → Bool
is_candidate own p = not (p.id == own) && has_addrs p.addrs

-- The loop: `count` peers have been sent; a limit of 0 is none.
unfoldable pub offer_peers : ℕ → ℕ → ℕ → List PeerAddrs → List PeerAddrs
offer_peers own num_peers count [] = []
offer_peers own num_peers count (p ∷ ps) =
    let skipped = offer_peers own num_peers count ps in
    let rest = offer_peers own num_peers (count + 1) ps in
    if ltb 0 num_peers && leb num_peers count
    then []
    else (if p.id == own then skipped else (if has_addrs p.addrs then p ∷ rest else skipped))

unfoldable pub auto_relay_peer_source : ℕ → Option (List PeerAddrs) → ℕ → List PeerAddrs
unfolding offer_peers
auto_relay_peer_source own none num_peers = []
auto_relay_peer_source own (some closest) num_peers = offer_peers own num_peers 0 closest

-- The candidates, in order.
abbrev pub candidates : ℕ → List PeerAddrs → List PeerAddrs
candidates own [] = []
candidates own (p ∷ ps) =
    let rest = candidates own ps in if is_candidate own p then p ∷ rest else rest

module _ (own : ℕ) where
  -- With so many places left.
  limited :
      (m count : ℕ) (ps : List PeerAddrs)
      → 0 < m + count
      → offer_peers own (m + count) count ps ≡ take m (candidates own ps)
  unfolding offer_peers
  limited zero count [] h = refl
  limited zero count (p ∷ ps) h = ground arith
  limited (suc m) count [] h = refl
  limited (suc m) count (p ∷ ps) h =
      let next : offer_peers own (suc m + count) (count + 1) ps ≡ take m (candidates own ps) =
        subst (λ (n : ℕ). offer_peers own n (count + 1) ps ≡ take m (candidates own ps))
          (omega arith) (limited m (count + 1) ps (omega arith)) in
      ground (arith, limited (suc m) count ps h, next)

  unlimited : (count : ℕ) (ps : List PeerAddrs) → offer_peers own 0 count ps ≡ candidates own ps
  unfolding offer_peers
  unlimited count [] = refl
  unlimited count (p ∷ ps) = ground (arith, unlimited count ps, unlimited (count + 1) ps)

-- The peers that are offered as relays are the first `num_peers` of the closest ones that are not the
-- server itself and have an address, in their order, and all of them if the limit is 0.
pub auto_relay_peer_source_lem :
    (own n : ℕ) (closest : List PeerAddrs)
    → (auto_relay_peer_source own (some closest) (suc n) ≡ take (suc n) (candidates own closest))
      × (auto_relay_peer_source own (some closest) 0 ≡ candidates own closest)
unfolding auto_relay_peer_source
auto_relay_peer_source_lem own n closest = (
  subst (λ (k : ℕ). offer_peers own k 0 closest ≡ take (suc n) (candidates own closest))
      (omega arith) (limited own (suc n) 0 closest (omega arith)),
  unlimited own 0 closest,
)
