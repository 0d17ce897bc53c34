-- ===== src/Holepunch/Stun.antt =====
-- internal/holepunch/stun.go: the binding request, and the address that a response carries.
-- The random transaction id of 12 bytes is an argument.
pub mod Layout
pub mod Attributes
use Prim.Native.Nat.{bit_xor}
use f2p.Prelude.{
  ℕ, zero, suc, ◌+◌, ◌-◌, ◌%◌, ◌/◌, ◌^◌, Bool, true, false, List, [], ◌∷◌, ◌++◌, Option, none, some,
  if◌then◌else◌, length, take, drop, ltb, ◌==◌, ◌&&◌,
}
use f2p.Wire.{put_u32, get_u32, put_u16, get_u16}

abbrev pub stun_magic_cookie : ℕ
stun_magic_cookie = 0x2112A442

abbrev pub stun_binding_request : ℕ
stun_binding_request = 0x0001

abbrev pub stun_binding_success : ℕ
stun_binding_success = 0x0101

abbrev pub stun_attr_mapped_addr : ℕ
stun_attr_mapped_addr = 0x0001

abbrev pub stun_attr_xor_mapped : ℕ
stun_attr_xor_mapped = 0x0020

-- An address: the four bytes of the IP, and the port.
pub record StunMappedAddr : Type 0 where
  pub ip : List ℕ
  pub port : ℕ

unfoldable pub build_stun_binding_request : List ℕ → List ℕ
unfolding put_u16 put_u32
build_stun_binding_request tx_id =
    put_u16 stun_binding_request ++ (put_u16 0 ++ (put_u32 stun_magic_cookie ++ tx_id))

-- Both parsers take an attribute's value; only IPv4 is read.
unfoldable pub parse_xor_mapped_address : List ℕ → Option StunMappedAddr
unfolding get_u16 get_u32 put_u32
parse_xor_mapped_address (r ∷ family ∷ p0 ∷ p1 ∷ a ∷ b ∷ c ∷ d ∷ more) =
    if family == 1
    then some (record {
      ip = put_u32 (bit_xor (get_u32 a b c d) stun_magic_cookie);
      port = bit_xor (get_u16 p0 p1) (stun_magic_cookie / 2 ^ 16 % 2 ^ 16);
    })
    else none
parse_xor_mapped_address _ = none

unfoldable pub parse_mapped_address : List ℕ → Option StunMappedAddr
unfolding get_u16
parse_mapped_address (r ∷ family ∷ p0 ∷ p1 ∷ a ∷ b ∷ c ∷ d ∷ more) =
    if family == 1 then some (record { ip = a ∷ b ∷ c ∷ d ∷ []; port = get_u16 p0 p1 }) else none
parse_mapped_address _ = none

-- The length of a value with its padding to a multiple of 4.
abbrev pub padded : ℕ → ℕ
padded n = if n % 4 == 0 then n else n + (4 - n % 4)

abbrev pub or_mapped : Option StunMappedAddr → List ℕ → Option StunMappedAddr
or_mapped (some m) value = some m
or_mapped none value = parse_mapped_address value

-- What one attribute does to the loop: it ends with an address, or goes on with a fallback.
pub data Seen : Type 0 where
  found : StunMappedAddr → Seen
  goes_on : Option StunMappedAddr → Seen

unfoldable pub see : ℕ → List ℕ → Option StunMappedAddr → Seen
unfolding parse_xor_mapped_address parse_mapped_address
see attr_type value mapped =
    if attr_type == stun_attr_xor_mapped
    then elim (parse_xor_mapped_address value) [ some m ↦ found m | none ↦ goes_on mapped ]
    else (if attr_type == stun_attr_mapped_addr
        then goes_on (or_mapped mapped value)
        else goes_on mapped)

-- The loop over the attributes' bytes; every round takes four at least.
unfoldable pub parse_attributes : ℕ → List ℕ → Option StunMappedAddr → Option StunMappedAddr
unfolding see get_u16
parse_attributes (suc fuel) (t0 ∷ t1 ∷ l0 ∷ l1 ∷ bytes) mapped =
    let len = get_u16 l0 l1 in
    if ltb (length bytes) len then mapped else elim (see (get_u16 t0 t1) (take len bytes) mapped) [
      | found m ↦ some m
      | goes_on mapped' ↦ parse_attributes fuel (drop (padded len) bytes) mapped'
    ]
parse_attributes fuel bytes mapped = mapped

abbrev pub same_bytes : List ℕ → List ℕ → Bool
same_bytes [] [] = true
same_bytes (a ∷ s) (b ∷ t) = if a == b then same_bytes s t else false
same_bytes _ _ = false

-- The header's tests; none is an error.
unfoldable pub parse_stun_binding_response : List ℕ → List ℕ → Option StunMappedAddr
unfolding parse_attributes get_u16 get_u32
parse_stun_binding_response (t0 ∷ t1 ∷ l0 ∷ l1 ∷ c0 ∷ c1 ∷ c2 ∷ c3 ∷ rest) tx_id =
    let len = get_u16 l0 l1 in
    if ltb (length rest) 12
    then none
    else (if (get_u16 t0 t1 == stun_binding_success && get_u32 c0 c1 c2 c3 == stun_magic_cookie)
          && same_bytes (take 12 rest) tx_id
        then (if ltb (length (drop 12 rest)) len
            then none
            else parse_attributes len (take len (drop 12 rest)) none)
        else none)
parse_stun_binding_response _ tx_id = none
