-- ===== src/Proto.antt =====
-- The messages of the control protocol: proto/messages.proto as proto/messages.pb.go declares it, and
-- proto/helpers.go. A proto3 enum is open, so a value that no constant names can arrive.
pub mod Equality
use f2p.Prelude.{ℕ, ◌+◌, Bool, true, false, ◌||◌, List, [], Option, none, some, String, ◌==◌}

pub data MessageType : Type 0 where
  password_required auth_request auth_response service_request service_response : MessageType
  server_shutdown client_shutdown heartbeat : MessageType
  unrecognized : ℕ → MessageType

pub data ErrorCode : Type 0 where
  no_error service_not_found protocol_not_supported service_disabled : ErrorCode
  invalid_password password_required_error auth_failed : ErrorCode
  unknown_code : ℕ → ErrorCode

-- The number of the wire; `unrecognized k` is the k-th one past the constants.
abbrev pub number : MessageType → ℕ
number password_required = 0
number auth_request = 1
number auth_response = 2
number service_request = 3
number service_response = 4
number server_shutdown = 5
number client_shutdown = 6
number heartbeat = 7
number (unrecognized k) = 8 + k

-- Go's `==` on the enum compares the numbers.
unfoldable pub eq_type : MessageType → MessageType → Bool
eq_type a b = number a == number b

abbrev pub is_no_error : ErrorCode → Bool
is_no_error no_error = true
is_no_error _ = false

-- `data` is a reserved word: the map field is `entries`, an association list.
pub record UnifiedMessage : Type 0 where
  pub type : MessageType
  pub password : String
  pub success : Bool
  pub require_password : Bool
  pub service_name : String
  pub protocol : String
  pub service_password : String
  pub message : String
  pub error_code : ErrorCode
  pub entries : List (String × String)
  pub ttl_ms : ℕ  -- uint32

-- &UnifiedMessage{}
abbrev pub empty_message : UnifiedMessage
empty_message = record {
  type = password_required;
  password = "";
  success = false;
  require_password = false;
  service_name = "";
  protocol = "";
  service_password = "";
  message = "";
  error_code = no_error;
  entries = [];
  ttl_ms = 0;
}

-- The receiver may be a nil pointer.
unfoldable pub is_shutdown_message : Option UnifiedMessage → Bool
unfolding eq_type
is_shutdown_message none = false
is_shutdown_message (some msg) =
    eq_type msg.type server_shutdown || eq_type msg.type client_shutdown
