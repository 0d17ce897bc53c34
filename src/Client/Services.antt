-- ===== src/Client/Services.antt =====
-- verifyServiceConfiguration (internal/client/handshake.go) against the answers of the server.
use f2p.Prelude.{
  ◌≡◌, refl, subst, inl, inr, true, List, [], ◌∷◌, some, arith, String, All, if◌then◌else◌,
  Bool-cases,
}
use f2p.Proto.{UnifiedMessage}
use f2p.Message.{service_request_message}
use f2p.Config.{Config, LocalServiceConfig}
use f2p.Server.{new_registry, validate_service_request, answer_message}
use f2p.Server.Requests.Decision.{validate_service_request-Answered}
use f2p.Client.{Client, Verification, verified, not_verified, verify_service}
use f2p.Client.Verified.{Granted, verify_service-Granted}
use f2p.Client.Decisions.{answer-Keeps, Granted-Keeps}
use f2p.Client.Connecting.{Answers, verify_protocols, verify_service_configuration}

-- What the server answers to the client's checks.
abbrev pub server_answers : Config → Answers
server_answers c name protocol password = (
  true,
  some (
      answer_message (
        validate_service_request c (new_registry c)
          (service_request_message name protocol password))),
)

by_first :
    (v : Verification) (k : Client → Verification) (after : Client)
    → (elim v [ verified x ↦ k x | not_verified f ↦ not_verified f ]) ≡ verified after
    → (x : Client) × (v ≡ verified x) × (k x ≡ verified after)
by_first (verified x) k after h = (x, refl, h)
by_first (not_verified f) k after h = absurd (ground arith)

module _ (c : Config) where
  -- Granted for a service's name, its password and a protocol.
  abbrev pub IsGranted : Client → String → String → String → Type 0
  IsGranted cl name password p = Granted c (service_request_message name p password) name cl

  abbrev Grows : Client → Client → Type 0
  Grows cl after =
      (m : UnifiedMessage) → Granted c m m.service_name cl → Granted c m m.service_name after

  verified_inj : (x y : Client) → verified x ≡ verified y → x ≡ y
  verified_inj x y h = cc

  verify_service-Grows :
      (name protocol password : String) (cl after : Client)
      → verify_service name true (server_answers c name protocol password).1 cl ≡ verified after
      → Grows cl after
  verify_service-Grows name protocol password cl after e m g =
      let n = service_request_message name protocol password in
      Granted-Keeps c m n cl after
        (answer-Keeps c n _ name cl after (validate_service_request-Answered c n) e) g

  verify_protocols-Granted :
      (name password : String) (ps : List String) (cl after : Client)
      → verify_protocols (server_answers c) name password ps cl ≡ verified after
      → All (IsGranted after name password) ps × Grows cl after
  unfolding verify_protocols
  verify_protocols-Granted name password [] cl after h =
      (tt, λ m g. subst (Granted c m m.service_name) (verified_inj cl after h) g)
  verify_protocols-Granted name password (p ∷ ps) cl after h =
      let (x, e, k) =
        by_first (verify_service name true (server_answers c name p password).1 cl)
          (λ x. verify_protocols (server_answers c) name password ps x) after h in
      let (rest, grows) = verify_protocols-Granted name password ps x after k in
      (
        (
          grows (service_request_message name p password)
              (verify_service-Granted c name p password true cl x e),
          rest,
        ),
        λ m g. grows m (verify_service-Grows name p password cl x e m g),
      )

  abbrev pub IsServed : Client → LocalServiceConfig → Type 0
  IsServed cl s = s.enabled ≡ true → All (IsGranted cl s.name s.password) s.protocol

  one_service :
      (s : LocalServiceConfig) (cl x : Client)
      → (if s.enabled
          then verify_protocols (server_answers c) s.name s.password s.protocol cl
          else verified cl)
        ≡ verified x
      → IsServed x s × Grows cl x
  one_service s cl x h = elim (Bool-cases s.enabled) [
    | inl t ↦
        let (all, grows) = verify_protocols-Granted s.name s.password s.protocol cl x (rw t at h) in
        (λ e. all, grows)
    | inr f ↦ (
      λ e. absurd (ground arith),
      λ m g. subst (Granted c m m.service_name) (verified_inj cl x (rw f at h)) g,
    )
  ]

  IsGranted-Grows :
      (cl after : Client) (name password : String)
      → Grows cl after
      → (ps : List String) → All (IsGranted cl name password) ps
      → All (IsGranted after name password) ps
  IsGranted-Grows cl after name password h [] g = tt
  IsGranted-Grows cl after name password h (p ∷ ps) g = (
    h (service_request_message name p password) g.0,
    IsGranted-Grows cl after name password h ps g.1,
  )

  services-Served :
      (ss : List LocalServiceConfig) (cl after : Client)
      → verify_service_configuration (server_answers c) ss cl ≡ verified after
      → All (IsServed after) ss × Grows cl after
  unfolding verify_service_configuration
  services-Served [] cl after h =
      (tt, λ m g. subst (Granted c m m.service_name) (verified_inj cl after h) g)
  services-Served (s ∷ ss) cl after h =
      let (x, e, k) =
        by_first
          (if s.enabled
            then verify_protocols (server_answers c) s.name s.password s.protocol cl
            else verified cl)
          (λ x. verify_service_configuration (server_answers c) ss x) after h in
      let (here, g1) = one_service s cl x e in
      let (rest, g2) = services-Served ss x after k in
      (
        (λ on. IsGranted-Grows x after s.name s.password g2 s.protocol (here on), rest),
        λ m g. g2 m (g1 m g),
      )

  -- When a client has verified its configuration with a server, then for every protocol of every
  -- enabled service the server's last service under the name is enabled and offers the protocol, and the
  -- client has kept the compression that the server uses for it: no later check has changed that.
  pub verify_service_configuration-Served :
      (ss : List LocalServiceConfig) (cl after : Client)
      → verify_service_configuration (server_answers c) ss cl ≡ verified after
      → All (IsServed after) ss
  verify_service_configuration-Served ss cl after h = (services-Served ss cl after h).0
