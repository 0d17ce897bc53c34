-- ===== src/Holepunch/Stun/Layout.antt =====
-- A STUN binding response as RFC 5389 lays it out (internal/holepunch/stun.go reads it), written down
-- without the definitions that read it.
use Prim.Native.Nat.{bit_xor}
use f2p.Prelude.{ℕ, ◌+◌, ◌%◌, ◌<◌, ◌≡◌, ◌≢◌, ◌⊎◌, List, [], ◌∷◌, ◌++◌, Option, none, some, length}
use f2p.Wire.{byte_at}
use f2p.Holepunch.Stun.{StunMappedAddr}

-- What an attribute of a response says, as RFC 5389 has it: an address, obscured or plain, given by its
-- IP as a number and its port, with any bytes behind it; or something else.
pub data Content : Type 0 where
  xor_mapped plain : ℕ → ℕ → List ℕ → Content
  other : ℕ → List ℕ → Content

abbrev pub type_of : Content → ℕ
type_of (xor_mapped addr port more) = 0x0020
type_of (plain addr port more) = 0x0001
type_of (other type value) = type

-- A zero, the family of IPv4, the port and the IP with the highest byte first.
abbrev pub address_bytes : ℕ → ℕ → List ℕ → List ℕ
address_bytes addr port more =
    0
    ∷ 1
    ∷ byte_at port 8
    ∷ byte_at port 0
    ∷ byte_at addr 24
    ∷ byte_at addr 16
    ∷ byte_at addr 8
    ∷ byte_at addr 0
    ∷ more

abbrev pub value_of : Content → List ℕ
value_of (xor_mapped addr port more) =
    address_bytes (bit_xor addr 0x2112A442) (bit_xor port 0x2112) more
value_of (plain addr port more) = address_bytes addr port more
value_of (other type value) = value

-- Too short for an IPv4 address, or of another family.
abbrev pub IsNoAddress : List ℕ → Type 0
IsNoAddress (r ∷ family ∷ p0 ∷ p1 ∷ a ∷ b ∷ c ∷ d ∷ more) = family ≢ 1
IsNoAddress _ = Unit

abbrev pub IsContent : Content → Type 0
IsContent (xor_mapped addr port more) = (addr < 4294967296) × (port < 65536)
IsContent (plain addr port more) = (addr < 4294967296) × (port < 65536)
IsContent (other type value) =
    (type < 65536) × (((type ≢ 0x0020) × (type ≢ 0x0001)) ⊎ IsNoAddress value)

-- On the wire: type, length and value, and up to three bytes that fill it up to a multiple of 4.
pub record Attribute : Type 0 where
  pub content : Content
  pub padding : List ℕ

abbrev pub IsAttribute : Attribute → Type 0
IsAttribute a =
    IsContent a.content
    × (length (value_of a.content) < 65536)
    × (length a.padding < 4)
    × ((length (value_of a.content) + length a.padding) % 4 ≡ 0)

abbrev pub encode : Attribute → List ℕ
encode a =
    byte_at (type_of a.content) 8
    ∷ byte_at (type_of a.content) 0
    ∷ byte_at (length (value_of a.content)) 8
    ∷ byte_at (length (value_of a.content)) 0
    ∷ (value_of a.content ++ a.padding)

abbrev pub encode_all : List Attribute → List ℕ
encode_all [] = []
encode_all (a ∷ rest) = encode a ++ encode_all rest

abbrev pub endpoint : ℕ → ℕ → StunMappedAddr
endpoint addr port = record {
  ip = byte_at addr 24 ∷ byte_at addr 16 ∷ byte_at addr 8 ∷ byte_at addr 0 ∷ [];
  port = port;
}

abbrev pub or_else : Option StunMappedAddr → Option StunMappedAddr → Option StunMappedAddr
or_else (some m) o = some m
or_else none o = o

abbrev pub xor_address : Content → Option StunMappedAddr
xor_address (xor_mapped addr port more) = some (endpoint addr port)
xor_address _ = none

abbrev pub plain_address : Content → Option StunMappedAddr
plain_address (plain addr port more) = some (endpoint addr port)
plain_address _ = none

abbrev pub first : (Content → Option StunMappedAddr) → List Attribute → Option StunMappedAddr
first f [] = none
first f (a ∷ rest) = or_else (f a.content) (first f rest)

-- The address that a response carries: the first obscured one, else the first plain one.
abbrev pub carried : List Attribute → Option StunMappedAddr
carried attributes = or_else (first xor_address attributes) (first plain_address attributes)

-- A binding response: header, attributes, and whatever follows them.
abbrev pub response : List ℕ → List Attribute → List ℕ → List ℕ
response tx_id attributes more =
    1
    ∷ 1
    ∷ byte_at (length (encode_all attributes)) 8
    ∷ byte_at (length (encode_all attributes)) 0
    ∷ 0x21
    ∷ 0x12
    ∷ 0xA4
    ∷ 0x42
    ∷ (tx_id ++ (encode_all attributes ++ more))
