-- ===== src/Message/Ttl.antt =====
-- The lifetimes that `SendWithTTL` puts into messages.
use f2p.Prelude.{
  ℕ, ◌/◌, ◌≤◌, ◌≡◌, none, some, arith, ◌⊎◌, inl, inr, Bool-cases, true, false, if◌then◌else◌,
}
use f2p.Prelude.Int.{ℤ, pos, pos_part}
use f2p.Prelude.Int.{ltb_ℤ, leb_ℤ}
use f2p.Proto.{UnifiedMessage}
use f2p.Message.{
  Codec, Conn, Sent, ttl_exceeds_max, send_with_ttl, send_message, clamp_ttl, ttl_field, max_ttl,
  min_ttl, default_ttl, milliseconds,
}

-- The lifetime in milliseconds that a wish leads to: 30 s for none, never below 1 s.
unfoldable pub granted_ms : ℤ → ℕ
granted_ms ttl =
    if leb_ℤ ttl (pos 0)
    then 30000
    else if ltb_ℤ ttl (pos min_ttl)
    then 1000
    else pos_part ttl / milliseconds 1

clamp_ttl-none : (ttl : ℤ) → ltb_ℤ (pos max_ttl) ttl ≡ true → clamp_ttl ttl ≡ none
unfolding clamp_ttl
clamp_ttl-none ttl h = ground arith

clamp_ttl-some :
    (ttl : ℤ)
    → ltb_ℤ (pos max_ttl) ttl ≡ false
    → (t : ℕ) × (clamp_ttl ttl ≡ some t) × (ttl_field t ≡ granted_ms ttl)
unfolding clamp_ttl ttl_field granted_ms
clamp_ttl-some ttl h = elim (Bool-cases (leb_ℤ ttl (pos 0))) [
  | inl e ↦ (default_ttl, ground arith, ground arith)
  | inr e ↦ elim (Bool-cases (ltb_ℤ ttl (pos min_ttl))) [
    | inl low ↦ (min_ttl, ground arith, ground arith)
    | inr keep ↦ (pos_part ttl, ground arith, ground arith)
  ]
]

granted_bounds :
    (ttl : ℤ) → ltb_ℤ (pos max_ttl) ttl ≡ false → (1000 ≤ granted_ms ttl) × (granted_ms ttl ≤ 60000)
unfolding granted_ms
granted_bounds ttl h = ground arith

-- A wish above 60 s fails before anything is written; any other is sent with a lifetime of 1000 to
-- 60000 ms, which is 30000 for a wish of 0 or less, 1000 for a positive one below 1 s, and else the
-- wish in whole milliseconds. (So the last guard of `SendWithTTL`, against 0, never acts.)
pub send_with_ttl_lem :
    (codec : Codec) (c : Conn) (msg : UnifiedMessage) (ttl : ℤ)
    → ((ltb_ℤ (pos max_ttl) ttl ≡ true)
        × (send_with_ttl codec c msg ttl ≡ (c, Sent.error (ttl_exceeds_max ttl))))
      ⊎ ((1000 ≤ granted_ms ttl)
          × (granted_ms ttl ≤ 60000)
          × (send_with_ttl codec c msg ttl
              ≡ send_message codec c (record msg { ttl_ms = granted_ms ttl })))
unfolding send_with_ttl
send_with_ttl_lem codec c msg ttl = elim (Bool-cases (ltb_ℤ (pos max_ttl) ttl)) [
  | inl large ↦ inl (large, rw (clamp_ttl-none ttl large, send_with_ttl))
  | inr fits ↦
      let (t, e, ms) = clamp_ttl-some ttl fits in
      let (lo, hi) = granted_bounds ttl fits in inr (lo, hi, rw (e, send_with_ttl) (rw ms))
]
