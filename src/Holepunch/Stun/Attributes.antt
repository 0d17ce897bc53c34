-- ===== src/Holepunch/Stun/Attributes.antt =====
-- The address that a response with given attributes carries.
use f2p.Prelude.{
  ◌+◌, ◌%◌, ◌≢◌, ◌⊎◌, inl, inr, ap₂, ℕ, zero, suc, ◌≤◌, ◌<◌, ◌≡◌, refl, sym, ap, subst, ◌∙◌, true,
  false, List, [], ◌∷◌, ◌++◌, Option, none, some, arith, length, take, drop, All, append_assoc,
  length-append, take_prefix, drop_prefix, ltb,
}
use Prim.Native.Nat.{bit_xor}
use f2p.Prelude.Xor.{bit_xor_twice, bit_xor-u16, bit_xor-u32}
use f2p.Wire.{put_u32, get_u32, get_u16, byte_at}
use f2p.Wire.RoundTrip.{get_u16-put_u16, get_u32-put_u32}
use f2p.Holepunch.Stun.Layout.{
  Content, xor_mapped, plain, other, type_of, value_of, IsNoAddress, IsContent, Attribute,
  IsAttribute, encode_all, endpoint, or_else, xor_address, plain_address, first, carried, response,
}
use f2p.Holepunch.Stun.{
  StunMappedAddr, Seen, parse_xor_mapped_address, parse_mapped_address, found, goes_on, see,
  parse_attributes, padded, parse_stun_binding_response, same_bytes,
}

abbrev carried_or : Option StunMappedAddr → List Attribute → Option StunMappedAddr
carried_or before attributes =
    or_else (first xor_address attributes) (or_else before (first plain_address attributes))

length-padded :
    (value pad : List ℕ)
    → length pad < 4
    → (length value + length pad) % 4 ≡ 0
    → length (value ++ pad) ≡ padded (length value)
length-padded value pad few full = ground (arith, length-append value pad)

-- The bytes of a value, and what stands behind its padding.
slice_value :
    (value pad rest : List ℕ)
    → length pad < 4
    → (length value + length pad) % 4 ≡ 0
    → (take (length value) ((value ++ pad) ++ rest) ≡ value)
      × (drop (padded (length value)) ((value ++ pad) ++ rest) ≡ rest)
slice_value value pad rest few full = (
  rw (append_assoc value pad rest) (take_prefix value (pad ++ rest)),
  ap (λ n. drop n ((value ++ pad) ++ rest)) (sym (length-padded value pad few full))
      ∙ drop_prefix (value ++ pad) rest,
)

not_short : (value pad rest : List ℕ) → ltb (length ((value ++ pad) ++ rest)) (length value) ≡ false
not_short value pad rest =
    ground (arith, length-append (value ++ pad) rest, length-append value pad)

-- Each address is read from its value.
parse-xor_mapped :
    (addr port : ℕ) (more : List ℕ)
    → addr < 4294967296
    → port < 65536
    → parse_xor_mapped_address (value_of (xor_mapped addr port more)) ≡ some (endpoint addr port)
unfolding parse_xor_mapped_address put_u32
parse-xor_mapped addr port more a p =
    let ip =
      get_u32-put_u32 (bit_xor addr 0x2112A442) (bit_xor-u32 addr 0x2112A442 a (omega arith)) in
    let pt = get_u16-put_u16 (bit_xor port 0x2112) (bit_xor-u16 port 0x2112 p (omega arith)) in
    ap₂ (λ x y. some (endpoint (bit_xor x 0x2112A442) (bit_xor y 0x2112))) ip pt
    ∙ ap₂ (λ x y. some (endpoint x y)) (bit_xor_twice addr 0x2112A442) (bit_xor_twice port 0x2112)

parse-plain :
    (addr port : ℕ) (more : List ℕ)
    → port < 65536
    → parse_mapped_address (value_of (plain addr port more)) ≡ some (endpoint addr port)
unfolding parse_mapped_address
parse-plain addr port more p =
    ap (λ y. some (record (endpoint addr port) { port = y })) (get_u16-put_u16 port p)

-- One round, by what it cuts off.
round_by :
    (fuel t0 t1 l0 l1 : ℕ) (bytes value rest : List ℕ) (mapped : Option StunMappedAddr)
    → ltb (length bytes) (get_u16 l0 l1) ≡ false
    → take (get_u16 l0 l1) bytes ≡ value
    → drop (padded (get_u16 l0 l1)) bytes ≡ rest
    → parse_attributes (suc fuel) (t0 ∷ (t1 ∷ (l0 ∷ (l1 ∷ bytes)))) mapped
      ≡ elim (see (get_u16 t0 t1) value mapped) as (λ s. Option StunMappedAddr) [
        | found m ↦ some m
        | goes_on mapped' ↦ parse_attributes fuel rest mapped'
      ]
unfolding parse_attributes
round_by fuel t0 t1 l0 l1 bytes value rest mapped enough cut behind =
    subst
      (λ r.
        parse_attributes (suc fuel) (t0 ∷ (t1 ∷ (l0 ∷ (l1 ∷ bytes)))) mapped
        ≡ elim (see (get_u16 t0 t1) value mapped) as (λ s. Option StunMappedAddr) [
          | found m ↦ some m
          | goes_on mapped' ↦ parse_attributes fuel r mapped'
        ])
      behind
      (subst
        (λ v.
          parse_attributes (suc fuel) (t0 ∷ (t1 ∷ (l0 ∷ (l1 ∷ bytes)))) mapped
          ≡ elim (see (get_u16 t0 t1) v mapped) as (λ s. Option StunMappedAddr) [
            | found m ↦ some m
            | goes_on mapped' ↦ parse_attributes fuel (drop (padded (get_u16 l0 l1)) bytes) mapped'
          ])
        cut (rw (enough, parse_attributes) refl))

no_address :
    (value : List ℕ)
    → IsNoAddress value
    → (parse_xor_mapped_address value ≡ none) × (parse_mapped_address value ≡ none)
unfolding parse_xor_mapped_address parse_mapped_address
no_address [] h = (refl, refl)
no_address (a ∷ []) h = (refl, refl)
no_address (a ∷ b ∷ []) h = (refl, refl)
no_address (a ∷ b ∷ c ∷ []) h = (refl, refl)
no_address (a ∷ b ∷ c ∷ d ∷ []) h = (refl, refl)
no_address (a ∷ b ∷ c ∷ d ∷ e ∷ []) h = (refl, refl)
no_address (a ∷ b ∷ c ∷ d ∷ e ∷ f ∷ []) h = (refl, refl)
no_address (a ∷ b ∷ c ∷ d ∷ e ∷ f ∷ g ∷ []) h = (refl, refl)
no_address (r ∷ f ∷ p ∷ q ∷ a ∷ b ∷ c ∷ d ∷ more) h = ground arith

see-other :
    (type : ℕ) (value : List ℕ) (before : Option StunMappedAddr)
    → ((type ≢ 0x0020) × (type ≢ 0x0001)) ⊎ IsNoAddress value
    → see type value before ≡ goes_on before
unfolding see
see-other type value before (inl h) = ground arith
see-other type value none (inr h) = ground (arith, no_address value h)
see-other type value (some m) (inr h) = ground (arith, no_address value h)

abbrev goes : ℕ → List Attribute → Seen → Option StunMappedAddr
goes fuel rest s = elim s [
  | found m ↦ some m
  | goes_on mapped' ↦ parse_attributes fuel (encode_all rest) mapped'
]

-- What an attribute does to the loop, by its content.
see-content :
    (x : Content) (fuel : ℕ) (rest : List Attribute) (before : Option StunMappedAddr)
    → IsContent x
    → ((m : Option StunMappedAddr) → parse_attributes fuel (encode_all rest) m ≡ carried_or m rest)
    → goes fuel rest (see (type_of x) (value_of x) before)
      ≡ or_else
          (or_else (xor_address x) (first xor_address rest))
          (or_else before (or_else (plain_address x) (first plain_address rest)))
unfolding see
see-content (xor_mapped addr port more) fuel rest before ok h =
    rw (parse-xor_mapped addr port more ok.0 ok.1) refl
see-content (plain addr port more) fuel rest none ok h =
    rw (parse-plain addr port more ok.1) (h (some (endpoint addr port)))
see-content (plain addr port more) fuel rest (some m) ok h = h (some m)
see-content (other type value) fuel rest before ok h =
    ap (goes fuel rest) (see-other type value before ok.1) ∙ h before

type_small : (x : Content) → IsContent x → type_of x < 65536
type_small (xor_mapped addr port more) h = omega arith
type_small (plain addr port more) h = omega arith
type_small (other type value) h = h.0

pub parse_attributes-encode_all :
    (attributes : List Attribute) (fuel : ℕ) (before : Option StunMappedAddr)
    → All IsAttribute attributes
    → length (encode_all attributes) ≤ fuel
    → parse_attributes fuel (encode_all attributes) before ≡ carried_or before attributes
unfolding parse_attributes
parse_attributes-encode_all [] zero none ok h = refl
parse_attributes-encode_all [] zero (some m) ok h = refl
parse_attributes-encode_all [] (suc fuel) none ok h = refl
parse_attributes-encode_all [] (suc fuel) (some m) ok h = refl
parse_attributes-encode_all (a ∷ rest) zero before ok h = absurd (omega (arith, h))
parse_attributes-encode_all (a ∷ rest) (suc fuel) before ((c, l, few, full), ok) h =
    let value : List ℕ = value_of a.content in
    let size = get_u16-put_u16 (length value) l in
    let (cut, behind) = slice_value value a.padding (encode_all rest) few full in
    let step =
      round_by fuel (byte_at (type_of a.content) 8) (byte_at (type_of a.content) 0)
        (byte_at (length value) 8) (byte_at (length value) 0)
        ((value ++ a.padding) ++ encode_all rest) value (encode_all rest) before
        (rw size (not_short value a.padding (encode_all rest))) (rw size cut) (rw size behind) in
    let shorter = length-append (value ++ a.padding) (encode_all rest) in
    step
    ∙ (ap (λ n. goes fuel rest (see n value before))
          (get_u16-put_u16 (type_of a.content) (type_small a.content c))
        ∙ see-content a.content fuel rest before c
            (λ m. parse_attributes-encode_all rest fuel m ok (omega (arith, h, shorter))))

same_bytes_self : (s : List ℕ) → same_bytes s s ≡ true
same_bytes_self [] = refl
same_bytes_self (a ∷ s) = ground (arith, same_bytes_self s)

-- A binding success response to the request with this transaction id of 12 bytes, with any attributes
-- (65535 bytes of them at most) as RFC 5389 lays them out, each padded to a multiple of 4, and any bytes
-- behind them: the parser gives the IPv4 address that was put into the first XOR-MAPPED-ADDRESS with
-- one, else that of the first MAPPED-ADDRESS with one, else none.
pub parse_stun_binding_response_lem :
    (tx_id more : List ℕ) (attributes : List Attribute)
    → length tx_id ≡ 12
    → All IsAttribute attributes
    → length (encode_all attributes) < 65536
    → parse_stun_binding_response (response tx_id attributes more) tx_id ≡ carried attributes
unfolding parse_stun_binding_response get_u32
parse_stun_binding_response_lem tx_id more attributes twelve ok fits =
    let bytes : List ℕ = encode_all attributes in
    let behind : List ℕ = bytes ++ more in
    let id : take 12 (tx_id ++ behind) ≡ tx_id =
      subst (λ n. take n (tx_id ++ behind) ≡ tx_id) twelve (take_prefix tx_id behind) in
    let body : drop 12 (tx_id ++ behind) ≡ behind =
      subst (λ n. drop n (tx_id ++ behind) ≡ behind) twelve (drop_prefix tx_id behind) in
    let long : ltb (length (tx_id ++ behind)) 12 ≡ false =
      ground (arith, length-append tx_id behind, twelve) in
    let whole : ltb (length behind) (length bytes) ≡ false =
      ground (arith, length-append bytes more) in
    rw
      (
        long,
        id,
        same_bytes_self tx_id,
        body,
        get_u16-put_u16 (length bytes) fits,
        whole,
        take_prefix bytes more,
      )
      (parse_attributes-encode_all attributes (length bytes) none ok (omega arith))
