-- ===== src/Server.antt =====
-- internal/server: what the server offers, and its answer to a request for a service.
pub mod Requests
pub mod Auth
pub mod Sessions
pub mod Data
pub mod Direct
pub mod Relays
pub mod Shutdown
pub mod Heartbeat
mod Tests
use Prim.Native.String.{◌++◌}
use f2p.Prelude.{
  ℕ, Bool, true, false, ◌||◌, List, [], ◌∷◌, Option, none, some, if◌then◌else◌, String, str_eq,
}
use f2p.Prelude.Maps.{lookup, insert, elem}
use f2p.Proto.{
  UnifiedMessage, ErrorCode, no_error, service_not_found, service_disabled, protocol_not_supported,
  password_required_error, invalid_password, service_request, eq_type,
}
use f2p.Message.{service_response_message}
use f2p.Config.{Config, ServiceConfig}

-- The two maps by the services' names. (The sets of protocols are lists.)
pub record Registry : Type 0 where
  pub services : List (String × ServiceConfig)
  pub service_protocols : List (String × List String)

-- One round of NewServer's loop: a later service replaces an earlier one of its name.
unfoldable pub register : Registry → ServiceConfig → Registry
register r s = record {
  services = insert str_eq s.name s r.services;
  service_protocols = insert str_eq s.name s.protocol r.service_protocols;
}

unfoldable pub register_all : Registry → List ServiceConfig → Registry
unfolding register
register_all r [] = r
register_all r (s ∷ ss) = register_all (register r s) ss

unfoldable pub new_registry : Config → Registry
unfolding register_all
new_registry c = register_all (record { services = []; service_protocols = [] }) c.server.services

-- The answer to a request: the service, or a code and a text.
pub data Answer : Type 0 where
  granted : ServiceConfig → Bool → String → Answer
  refused : ErrorCode → String → Answer

abbrev join_words : List String → String
join_words [] = ""
join_words (w ∷ []) = w
join_words (w ∷ (v ∷ ws)) = w ++ (" " ++ join_words (v ∷ ws))

-- The service's own switch goes before the server's.
abbrev pub will_compress : Config → ServiceConfig → Bool
will_compress c s = elim s.compress [ some b ↦ b | none ↦ c.server.compress ]

abbrev pub ready_text : UnifiedMessage → String
ready_text m = "Service '" ++ (m.service_name ++ ("' ready with protocol '" ++ (m.protocol ++ "'")))

-- The password's part of validateServiceRequest, and the answer when it is passed.
unfoldable pub check_password : Config → UnifiedMessage → ServiceConfig → Answer
check_password c m s =
    let ready = granted s (will_compress c s) (ready_text m) in
    if str_eq s.password ""
    then ready
    else (if str_eq m.service_password ""
        then refused password_required_error
            ("Password required for service '" ++ (m.service_name ++ "'"))
        else (if str_eq m.service_password s.password
            then ready
            else refused invalid_password
                ("Invalid password for service '" ++ (m.service_name ++ "'"))))

abbrev pub protocols_of : Registry → String → List String
protocols_of r name = elim (lookup str_eq name r.service_protocols) [ some ps ↦ ps | none ↦ [] ]

unfoldable pub check_service : Config → Registry → UnifiedMessage → ServiceConfig → Answer
unfolding check_password elem lookup
check_service c r m s =
    if s.enabled
    then (if elem str_eq m.protocol (protocols_of r m.service_name)
        then check_password c m s
        else refused protocol_not_supported (
            "Protocol '"
            ++ (m.protocol
                ++ ("' not supported for service '"
                    ++ (m.service_name
                        ++ ("'. Supported protocols: [" ++ (join_words s.protocol ++ "]")))))))
    else refused service_disabled ("Service '" ++ (m.service_name ++ "' is disabled"))

unfoldable pub validate_service_request : Config → Registry → UnifiedMessage → Answer
unfolding check_service lookup
validate_service_request c r m =
    if str_eq m.service_name "" || str_eq m.protocol ""
    then refused no_error "Invalid service request format"
    else elim (lookup str_eq m.service_name r.services) [
      | none ↦
          refused service_not_found ("Service '" ++ (m.service_name ++ "' not found on server"))
      | some s ↦ check_service c r m s
    ]

-- What handleServiceVerificationRequest sends: the answer as a message, with the compression under
-- "zstd". (A failed send is ignored.)
abbrev bool_text : Bool → String
bool_text true = "true"
bool_text false = "false"

unfoldable pub answer_message : Answer → UnifiedMessage
answer_message (granted s compress text) =
    service_response_message true no_error text (("zstd", bool_text compress) ∷ [])
answer_message (refused code text) = service_response_message false code text []

-- handleServiceHandshake, from what ReceiveOne gave and whether the send succeeds: what is sent, and
-- the service that is then proxied.
pub data Handshake : Type 0 where
  proxied : ServiceConfig → Handshake
  not_received wrong_type bad_format not_granted not_sent : Handshake

abbrev finish_handshake : Answer → Bool → Handshake
finish_handshake (granted s compress text) true = proxied s
finish_handshake (granted s compress text) false = not_sent
finish_handshake (refused code text) ok = not_granted

unfoldable pub handle_service_handshake :
    Config → Registry → Option UnifiedMessage → Bool → List UnifiedMessage × Handshake
unfolding validate_service_request answer_message eq_type
handle_service_handshake c r none ok = ([], not_received)
handle_service_handshake c r (some m) ok =
    if eq_type m.type service_request
    then (if str_eq m.service_name "" || str_eq m.protocol "" then ([], bad_format) else (
      answer_message (validate_service_request c r m) ∷ [],
      finish_handshake (validate_service_request c r m) ok,
    ))
    else ([], wrong_type)
