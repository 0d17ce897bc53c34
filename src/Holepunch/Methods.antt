-- ===== src/Holepunch/Methods.antt =====
-- Which pairs of NATs are punched, and how; the packets.
use f2p.Prelude.{ℕ, ◌<◌, ◌^◌, ◌≡◌, ◌≢◌, ap, ◌⊎◌, ◌↔◌, true, List, ◌++◌, some, arith}
use f2p.Wire.{put_u32}
use f2p.Wire.RoundTrip.{get_u32-put_u32}
use f2p.Holepunch.{
  NatType, unknown, open_nat, cone, symmetric_easy_inc, symmetric_easy_dec, symmetric_hard,
  other_nat, punch_none, determine_punch_method, is_symmetric, is_easy_symmetric, make_punch_packet,
  parse_punch_packet,
}

-- The method is the same whichever of the two sides begins.
pub determine_punch_method_comm :
    (a b : NatType) → determine_punch_method a b ≡ determine_punch_method b a
unfolding determine_punch_method
determine_punch_method_comm a b = ground arith

-- Two cones, a cone and a symmetric NAT, or two symmetric ones with predictable ports.
abbrev pub IsPunchable : NatType → NatType → Type 0
IsPunchable a b =
    ((a ≡ cone) × (b ≡ cone))
    ⊎ (((a ≡ cone) × (is_symmetric b ≡ true))
        ⊎ (((is_symmetric a ≡ true) × (b ≡ cone))
            ⊎ ((is_easy_symmetric a ≡ true) × (is_easy_symmetric b ≡ true))))

-- A method is chosen exactly for two cones, for a cone and a symmetric NAT in either order, and for
-- two symmetric NATs with predictable ports; never for an open, an unknown or an unlisted kind.
pub determine_punch_method-IsPunchable :
    (a b : NatType) → (determine_punch_method a b ≢ punch_none) ↔ IsPunchable a b
unfolding determine_punch_method
determine_punch_method-IsPunchable unknown b = ground arith
determine_punch_method-IsPunchable open_nat b = ground arith
determine_punch_method-IsPunchable cone b = ground arith
determine_punch_method-IsPunchable symmetric_easy_inc b = ground arith
determine_punch_method-IsPunchable symmetric_easy_dec b = ground arith
determine_punch_method-IsPunchable symmetric_hard b = ground arith
determine_punch_method-IsPunchable (other_nat n) b = ground arith

-- The packet of a transaction is read back as its id, whatever follows.
pub parse_punch_packet-make_punch_packet :
    (tid : ℕ) (rest : List ℕ)
    → tid < 2 ^ 32
    → parse_punch_packet (make_punch_packet tid ++ rest) ≡ some tid
unfolding parse_punch_packet make_punch_packet put_u32
parse_punch_packet-make_punch_packet tid rest h = ap some (get_u32-put_u32 tid h)
