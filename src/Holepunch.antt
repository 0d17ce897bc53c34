-- ===== src/Holepunch.antt =====
-- internal/holepunch/types.go: the kinds of NAT, the choice of the method, the packets of a punch.
pub mod Methods
pub mod Ports
pub mod Sockets
pub mod Punch
pub mod Spray
pub mod Execute
pub mod Signaling
pub mod Stun
pub mod Detection
pub mod Direct
mod Tests
mod PunchTests
use f2p.Prelude.{
  ℕ, ◌+◌, ◌*◌, ◌%◌, ◌/◌, Bool, true, false, ◌||◌, ◌&&◌, List, [], ◌∷◌, ◌++◌, Option, none, some,
  if◌then◌else◌, String, ◌==◌, replicate,
}
use f2p.Wire.{put_u32, get_u32}

-- NATType is an int, so a value that no constant names can arrive.
pub data NatType : Type 0 where
  unknown open_nat cone symmetric_easy_inc symmetric_easy_dec symmetric_hard : NatType
  other_nat : ℕ → NatType

abbrev pub nat_name : NatType → String
nat_name open_nat = "Open"
nat_name cone = "Cone"
nat_name symmetric_easy_inc = "SymmetricEasyInc"
nat_name symmetric_easy_dec = "SymmetricEasyDec"
nat_name symmetric_hard = "SymmetricHard"
nat_name unknown = "Unknown"
nat_name (other_nat n) = "Unknown"

unfoldable pub is_cone : NatType → Bool
is_cone cone = true
is_cone open_nat = true
is_cone _ = false

unfoldable pub is_symmetric : NatType → Bool
is_symmetric symmetric_easy_inc = true
is_symmetric symmetric_easy_dec = true
is_symmetric symmetric_hard = true
is_symmetric _ = false

unfoldable pub is_easy_symmetric : NatType → Bool
is_easy_symmetric symmetric_easy_inc = true
is_easy_symmetric symmetric_easy_dec = true
is_easy_symmetric _ = false

pub data PunchMethod : Type 0 where
  punch_none cone_to_cone sym_to_cone easy_sym_to_easy_sym : PunchMethod
  other_method : ℕ → PunchMethod

abbrev is_unknown : NatType → Bool
is_unknown unknown = true
is_unknown _ = false

abbrev is_open : NatType → Bool
is_open open_nat = true
is_open _ = false

unfoldable pub determine_punch_method : NatType → NatType → PunchMethod
unfolding is_cone is_symmetric is_easy_symmetric
determine_punch_method client server =
    if is_unknown client || is_unknown server
    then punch_none
    else (if is_open client || is_open server
        then punch_none
        else (if is_cone client && is_cone server
            then cone_to_cone
            else (if is_symmetric client && is_cone server
                then sym_to_cone
                else (if is_cone client && is_symmetric server
                    then sym_to_cone
                    else (if is_easy_symmetric client && is_easy_symmetric server
                        then easy_sym_to_easy_sym
                        else punch_none)))))

pub record NatInfo : Type 0 where
  pub type : NatType
  pub public_ip : String
  pub public_port : ℕ

-- The pointers to the NAT's data are Options; the numbers of `method` are the constants.
pub record SignalMsg : Type 0 where
  pub nat_info : Option NatInfo
  pub punch_ready : Bool
  pub method : PunchMethod
  pub tid : ℕ  -- uint32
  pub success : Bool
  pub session_token : List ℕ
  pub error : String

-- The packet: magic, transaction id, padding to 64 bytes.
abbrev pub punch_magic : List ℕ
punch_magic = 0xF2 ∷ 0x50 ∷ 0x48 ∷ 0x50 ∷ []

unfoldable pub make_punch_packet : ℕ → List ℕ
unfolding put_u32
make_punch_packet tid = punch_magic ++ (put_u32 tid ++ replicate 56 0)

unfoldable pub parse_punch_packet : List ℕ → Option ℕ
unfolding get_u32
parse_punch_packet (m0 ∷ m1 ∷ m2 ∷ m3 ∷ a ∷ b ∷ c ∷ d ∷ rest) =
    if (m0 == 0xF2 && m1 == 0x50) && (m2 == 0x48 && m3 == 0x50)
    then some (get_u32 a b c d)
    else none
parse_punch_packet _ = none
