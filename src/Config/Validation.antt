-- ===== src/Config/Validation.antt =====
-- `ValidateConfig` of internal/config/config.go: the first fault is reported, and a server without an
-- identity is given one. GeneratePeerIdentity is a parameter, `none` where it fails.
pub mod Decision
use f2p.Prelude.{
  ◌≡◌, ◌≢◌, refl, ◌∙◌, sym, ap, ◌⊎◌, inl, inr, Bool, true, false, ◌||◌, List, [], ◌∷◌, ◌++◌, Option,
  some, none, arith, if◌then◌else◌, String, str_eq, eq_iff, Bool-cases, Option-cases, All,
}
use f2p.Config.{Config, ClientConfig, IdentityConfig, ServiceConfig, LocalServiceConfig}

pub data ConfigError : Type 0 where
  no_server_service no_client_service no_server_id service_name_empty local_name_empty
        local_address_empty :
      ConfigError
  identity_failed : ConfigError
  target_empty no_protocol bad_protocol : String → ConfigError

-- The first error that a list's elements give.
unfoldable pub first_error {ℓ} :
    {A : Type ℓ} → (A → Option ConfigError) → List A → Option ConfigError
first_error test [] = none
first_error test (x ∷ xs) = elim (test x) [ some e ↦ some e | none ↦ first_error test xs ]

unfoldable pub validate_protocol : String → String → Option ConfigError
validate_protocol service_name protocol =
    if str_eq protocol "tcp" || str_eq protocol "udp"
    then none
    else some (bad_protocol service_name)

unfoldable pub validate_protocols : List String → String → Option ConfigError
unfolding first_error validate_protocol
validate_protocols [] service_name = some (no_protocol service_name)
validate_protocols (p ∷ ps) service_name = first_error (validate_protocol service_name) (p ∷ ps)

-- The body of the loop over a server's services.
unfoldable pub validate_service : ServiceConfig → Option ConfigError
unfolding validate_protocols
validate_service s =
    if str_eq s.name ""
    then some service_name_empty
    else (if str_eq s.target ""
        then some (target_empty s.name)
        else validate_protocols s.protocol s.name)

unfoldable pub validate_local_service : LocalServiceConfig → Option ConfigError
unfolding validate_protocols
validate_local_service s =
    if str_eq s.name ""
    then some local_name_empty
    else (if str_eq s.local ""
        then some local_address_empty
        else validate_protocols s.protocol s.name)

pub data Validity : Type 0 where
  valid : Config → Validity
  invalid : ConfigError → Validity

-- The identity is made up when one of its parts is missing.
unfoldable pub ensure_identity : Option (String × String) → Config → Validity
ensure_identity generated c =
    if str_eq c.identity.private_key "" || str_eq c.identity.peer_id ""
    then elim generated [
      | none ↦ invalid identity_failed
      | some (key, id) ↦ valid (record c { identity = record { private_key = key; peer_id = id } })
    ]
    else valid c

-- The first fault of a server's services, and of a client's.
unfoldable pub server_fault : List ServiceConfig → Option ConfigError
unfolding first_error validate_service
server_fault [] = some no_server_service
server_fault (s ∷ ss) = first_error validate_service (s ∷ ss)

unfoldable pub client_fault : ClientConfig → Option ConfigError
unfolding first_error validate_local_service
client_fault c = if str_eq c.server_id "" then some no_server_id else elim c.services [
  | [] ↦ some no_client_service
  | s ∷ ss ↦ first_error validate_local_service (s ∷ ss)
]

unfoldable pub validate_server : Option (String × String) → Config → Validity
unfolding server_fault ensure_identity
validate_server generated c = elim (server_fault c.server.services) [
  | some e ↦ invalid e
  | none ↦ ensure_identity generated c
]

unfoldable pub validate_client : Config → Validity
unfolding client_fault
validate_client c = elim (client_fault c.client) [ some e ↦ invalid e | none ↦ valid c ]

unfoldable pub validate_config : Option (String × String) → Config → Validity
unfolding validate_server validate_client
validate_config generated c = if c.is_server then validate_server generated c else validate_client c

-- What the documentation asks of a service.
abbrev pub IsProtocol : String → Type 0
IsProtocol p = (p ≡ "tcp") ⊎ (p ≡ "udp")

abbrev pub IsService : String → String → List String → Type 0
IsService name address protocol =
    (name ≢ "") × (address ≢ "") × (protocol ≢ []) × All IsProtocol protocol

abbrev pub HasServerServices : List ServiceConfig → Type 0
HasServerServices ss = (ss ≢ []) × All (λ s. IsService s.name s.target s.protocol) ss

abbrev pub HasLocalServices : List LocalServiceConfig → Type 0
HasLocalServices ss = (ss ≢ []) × All (λ s. IsService s.name s.local s.protocol) ss

abbrev pub HasClient : ClientConfig → Type 0
HasClient c = (c.server_id ≢ "") × HasLocalServices c.services

abbrev pub HasServices : Config → Type 0
HasServices c = if c.is_server then HasServerServices c.server.services else HasClient c.client
