-- ===== src/Config/Validation/Decision.antt =====
-- `ValidateConfig` accepts exactly the configurations that the documentation allows.
use f2p.Prelude.{
  ◌≡◌, ◌≢◌, refl, ◌⊎◌, inl, inr, Bool, true, false, ◌||◌, ◌&&◌, List, [], ◌∷◌, Option, some, none,
  arith, if◌then◌else◌, String, str_eq, eq_iff, Bool-cases, All,
}
use f2p.Config.{
  Config, ServerConfig, ClientConfig, CommonConfig, of_parts, IdentityConfig, ServiceConfig,
  LocalServiceConfig,
}
use f2p.Config.Validation.{
  ConfigError, first_error, validate_protocol, validate_protocols, validate_service,
  validate_local_service, Validity, valid, invalid, ensure_identity, bad_protocol,
  service_name_empty, target_empty, local_name_empty, local_address_empty, validate_server,
  validate_client, validate_config, IsProtocol, IsService, HasServices, HasServerServices,
  HasLocalServices, HasClient, server_fault, client_fault, no_server_service, no_client_service,
  no_server_id,
}

-- A test's result tells whether P holds.
abbrev Tells {ℓ} : Option ConfigError → Type ℓ → Type ℓ
Tells r P = ((r ≡ none) × P) ⊎ ((e : ConfigError) × (r ≡ some e) × ¬ P)

-- A test that decides a predicate decides it of all the elements, by the first that fails.
first_error-All {ℓ k} :
    {A : Type ℓ} (P : A → Type k) (test : A → Option ConfigError)
    → ((x : A) → Tells (test x) (P x))
    → (xs : List A) → Tells (first_error test xs) (All P xs)
unfolding first_error
first_error-All P test decide [] = inl (refl, tt)
first_error-All P test decide (x ∷ xs) = elim (decide x) [
  | inr (e, f, bad) ↦ inr (e, rw (f, first_error) refl, λ all. bad all.0)
  | inl (f, good) ↦ elim (first_error-All P test decide xs) [
    | inl (g, all) ↦ inl (rw (f, first_error) g, (good, all))
    | inr (e, g, bad) ↦ inr (e, rw (f, first_error) g, λ all. bad all.1)
  ]
]

validate_protocol-IsProtocol : (name p : String) → Tells (validate_protocol name p) (IsProtocol p)
unfolding validate_protocol
validate_protocol-IsProtocol name p = elim (Bool-cases (str_eq p "tcp")) [
  | inl e ↦ inl (ground (arith, e), inl ((eq_iff p "tcp").0 e))
  | inr e ↦ elim (Bool-cases (str_eq p "udp")) [
    | inl f ↦ inl (ground (arith, e, f), inr ((eq_iff p "udp").0 f))
    | inr f ↦ inr (
      bad_protocol name,
      rw (e, f) refl,
      λ h. elim h [
        | inl g ↦ absurd (cc (e, (eq_iff p "tcp").1 g))
        | inr g ↦ absurd (cc (f, (eq_iff p "udp").1 g))
      ],
    )
  ]
]

validate_protocols-Tells :
    (ps : List String) (name : String)
    → Tells (validate_protocols ps name) ((ps ≢ []) × All IsProtocol ps)
unfolding validate_protocols
validate_protocols-Tells [] name = inr (_, refl, λ h. h.0 refl)
validate_protocols-Tells (p ∷ ps) name =
    elim (first_error-All IsProtocol (validate_protocol name) (validate_protocol-IsProtocol name)
      (p ∷ ps)) [
        | inl (e, all) ↦ inl (e, ((λ h. ground (arith, h)), all))
        | inr (e, f, bad) ↦ inr (e, f, λ h. bad h.1)
      ]

-- The tests of a service, with the errors of the two loops.
IsService-Tells :
    (name address : String) (ps : List String) (no_name no_address : ConfigError)
    → Tells
        (if str_eq name ""
          then some no_name
          else (if str_eq address "" then some no_address else validate_protocols ps name))
        (IsService name address ps)
IsService-Tells name address ps no_name no_address = elim (Bool-cases (str_eq name "")) [
  | inl e ↦ inr (no_name, rw e refl, λ h. h.0 ((eq_iff name "").0 e))
  | inr e ↦ elim (Bool-cases (str_eq address "")) [
    | inl f ↦ inr (no_address, rw (e, f) refl, λ h. h.1 ((eq_iff address "").0 f))
    | inr f ↦ elim (validate_protocols-Tells ps name) [
      | inl (g, ok) ↦ inl (
        rw (e, f) g,
        ((λ h. cc (e, (eq_iff name "").1 h)), (λ h. cc (f, (eq_iff address "").1 h)), ok.0, ok.1),
      )
      | inr (err, g, bad) ↦ inr (err, rw (e, f) g, λ h. bad (h.2, h.3))
    ]
  ]
]

validate_service-Tells :
    (s : ServiceConfig) → Tells (validate_service s) (IsService s.name s.target s.protocol)
unfolding validate_service
validate_service-Tells s =
    IsService-Tells s.name s.target s.protocol service_name_empty (target_empty s.name)

validate_local_service-Tells :
    (s : LocalServiceConfig)
    → Tells (validate_local_service s) (IsService s.name s.local s.protocol)
unfolding validate_local_service
validate_local_service-Tells s =
    IsService-Tells s.name s.local s.protocol local_name_empty local_address_empty

-- The identity that a valid configuration is left with.
abbrev pub identity_of : Bool → String × String → IdentityConfig → IdentityConfig
identity_of is_server (key, id) old =
    if is_server && (str_eq old.private_key "" || str_eq old.peer_id "")
    then record { private_key = key; peer_id = id }
    else old

-- What `ValidateConfig` says of a configuration, where an identity could be generated.
abbrev pub Verdict : String × String → Bool → Config → Type 0 → Validity → Type 0
Verdict generated is_server c Ok v =
    (Ok × (v ≡ valid (record c { identity = identity_of is_server generated c.identity })))
    ⊎ ((e : ConfigError) × (v ≡ invalid e) × ¬ Ok)

ensure_identity-identity_of :
    (key id : String) (c : Config)
    → ensure_identity (some (key, id)) c
      ≡ valid (record c { identity = identity_of true (key, id) c.identity })
unfolding ensure_identity
ensure_identity-identity_of key id c = ground arith

first_error-cons {ℓ} :
    {A : Type ℓ} (P : A → Type ℓ) (test : A → Option ConfigError) (x : A) (xs : List A)
    → ((y : A) → Tells (test y) (P y))
    → Tells (first_error test (x ∷ xs)) ((x ∷ xs ≢ []) × All P (x ∷ xs))
first_error-cons P test x xs decide = elim (first_error-All P test decide (x ∷ xs)) [
  | inl (e, all) ↦ inl (e, ((λ h. ground (arith, h)), all))
  | inr (e, f, bad) ↦ inr (e, f, λ h. bad h.1)
]

server_fault-Tells : (ss : List ServiceConfig) → Tells (server_fault ss) (HasServerServices ss)
unfolding server_fault
server_fault-Tells [] = inr (no_server_service, refl, λ h. h.0 refl)
server_fault-Tells (s ∷ ss) =
    first_error-cons (λ s. IsService s.name s.target s.protocol) validate_service s ss
      validate_service-Tells

local_services-Tells :
    (id : String) (ss : List LocalServiceConfig)
    → str_eq id "" ≡ false
    → Tells (client_fault (record { server_id = id; services = ss })) (HasLocalServices ss)
unfolding client_fault
local_services-Tells id [] f = inr (no_client_service, rw f refl, λ h. h.0 refl)
local_services-Tells id (s ∷ ss) f = rw f (
    first_error-cons (λ s. IsService s.name s.local s.protocol) validate_local_service s ss
      validate_local_service-Tells)

client_fault-Tells : (c : ClientConfig) → Tells (client_fault c) (HasClient c)
unfolding client_fault
client_fault-Tells c = elim (Bool-cases (str_eq c.server_id "")) [
  | inl f ↦ inr (no_server_id, rw (f, client_fault) refl, λ h. h.0 ((eq_iff c.server_id "").0 f))
  | inr f ↦ elim (local_services-Tells c.server_id c.services f) [
    | inl (g, ok) ↦ inl (g, ((λ h. cc (f, (eq_iff c.server_id "").1 h)), ok))
    | inr (err, g, bad) ↦ inr (err, g, λ h. bad h.1)
  ]
]

validate_server-Verdict :
    (key id : String) (c : Config)
    → Verdict
        (key, id)
        true
        c
        (HasServerServices c.server.services)
        (validate_server (some (key, id)) c)
unfolding validate_server
validate_server-Verdict key id c = elim (server_fault-Tells c.server.services) [
  | inl (f, ok) ↦ inl (ok, rw (f, validate_server) (ensure_identity-identity_of key id c))
  | inr (err, f, bad) ↦ inr (err, rw (f, validate_server) refl, bad)
]

validate_client-Verdict :
    (key id : String) (c : Config)
    → Verdict (key, id) false c (HasClient c.client) (validate_client c)
unfolding validate_client
validate_client-Verdict key id c = elim (client_fault-Tells c.client) [
  | inl (f, ok) ↦ inl (ok, rw (f, validate_client) refl)
  | inr (err, f, bad) ↦ inr (err, rw (f, validate_client) refl, bad)
]

parts-Verdict :
    (key id : String) (b : Bool) (i : IdentityConfig) (s : ServerConfig) (c : ClientConfig)
    (k : CommonConfig)
    → Verdict
        (key, id)
        b
        (of_parts b i s c k)
        (HasServices (of_parts b i s c k))
        (validate_config (some (key, id)) (of_parts b i s c k))
unfolding validate_config
parts-Verdict key id true i s c k = validate_server-Verdict key id (of_parts true i s c k)
parts-Verdict key id false i s c k = validate_client-Verdict key id (of_parts false i s c k)

-- `ValidateConfig` accepts exactly the configurations with at least one service (and, on a client, a
-- server's id), each with a name, an address and at least one protocol, all of them tcp or udp. What
-- it accepts it changes only in a server's identity: one with a missing part is replaced by the one
-- that was generated. (The generator is taken to succeed.)
pub validate_config-Verdict :
    (key id : String) (c : Config)
    → Verdict (key, id) c.is_server c (HasServices c) (validate_config (some (key, id)) c)
validate_config-Verdict key id c =
    parts-Verdict key id c.is_server c.identity c.server c.client c.common
