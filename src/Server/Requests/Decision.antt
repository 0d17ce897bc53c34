-- ===== src/Server/Requests/Decision.antt =====
-- `validateServiceRequest` on the registry that NewServer builds.
use mathlib.Core.List.{Memᴰ}
use f2p.Prelude.{
  ◌≡◌, ◌≢◌, refl, inl, inr, Bool, true, false, ◌||◌, [], some, if◌then◌else◌, String, str_eq,
  eq_iff, Bool-cases, All,
}
use f2p.Prelude.Maps.{lookup, elem}
use f2p.Proto.{UnifiedMessage}
use f2p.Config.{Config, ServiceConfig}
use f2p.Server.{
  Registry, new_registry, Answer, check_password, check_service, validate_service_request,
  protocols_of,
}
use f2p.Server.Requests.{
  Registers, register_all-Registers, Asks, Answered, bad_request, not_found, disabled, unsupported,
  no_password, wrong_password, accepted, elem-Mem,
}

differs : (s t : String) → str_eq s t ≡ false → s ≢ t
differs s t e h = cc (e, (eq_iff s t).1 h)

-- A property of both branches of a test holds of the test.
on_test :
    (P : Answer → Type 0) (b : Bool) (x y : Answer)
    → (b ≡ true → P x)
    → (b ≡ false → P y)
    → P (if b then x else y)
on_test P true x y h k = h refl
on_test P false x y h k = k refl

module _ (c : Config) (m : UnifiedMessage) (s : ServiceConfig) (asks : Asks c m s) where
  check_password-Answered :
      s.enabled ≡ true → Memᴰ m.protocol s.protocol → Answered c m (check_password c m s)
  unfolding check_password
  check_password-Answered on mem =
      on_test (Answered c m) (str_eq s.password "") _ _
        (λ e. accepted s asks on mem (inl ((eq_iff s.password "").0 e)))
        (λ e.
          on_test (Answered c m) (str_eq m.service_password "") _ _
            (λ f.
              no_password s _ asks on mem
                (differs s.password "" e, (eq_iff m.service_password "").0 f))
            (λ f.
              on_test (Answered c m) (str_eq m.service_password s.password) _ _
                (λ g. accepted s asks on mem (inr ((eq_iff m.service_password s.password).0 g)))
                (λ g. wrong_password s _ asks on mem (
                  differs s.password "" e,
                  differs m.service_password "" f,
                  differs m.service_password s.password g,
                ))))

  offers-Answered :
      s.enabled ≡ true
      → (refusal : Answer) → (All (λ p. p ≢ m.protocol) s.protocol → Answered c m refusal)
      → Answered c m (if elem str_eq m.protocol s.protocol then check_password c m s else refusal)
  offers-Answered on refusal bad = elim (elem-Mem m.protocol s.protocol) [
    | inr (e, all) ↦ rw e (bad all)
    | inl (e, mem) ↦ rw e (check_password-Answered on mem)
  ]

  check_service-Answered :
      (r : Registry)
      → lookup str_eq m.service_name r.service_protocols ≡ some s.protocol
      → Answered c m (check_service c r m s)
  unfolding check_service
  check_service-Answered r known =
      on_test (Answered c m) s.enabled _ _
        (λ on. rw (known, protocols_of) (offers-Answered on _ (unsupported s _ asks on)))
        (disabled s _ asks)

looked_up-Answered :
    (c : Config) (m : UnifiedMessage) (r : Registry)
    → m.service_name ≢ ""
    → m.protocol ≢ ""
    → str_eq m.service_name "" || str_eq m.protocol "" ≡ false
    → Registers
        (record { services = []; service_protocols = [] })
        r
        c.server.services
        m.service_name
    → Answered c m (validate_service_request c r m)
unfolding validate_service_request
looked_up-Answered c m r n p b (inl (all, e, f)) = rw (b, e, lookup) (not_found _ n all)
looked_up-Answered c m r n p b (inr (s, last, e, f)) =
    rw (b, e)
      (check_service-Answered c m s (record { offered = last; name_given = n; protocol_given = p })
        r f)

-- The server's answer to any request, by the configuration: a request without a name or a protocol
-- is refused; else the last service configured under the name decides. It must exist, be enabled and
-- offer the protocol, and its password, if it has one, must be given and be the right one; the first
-- of these that fails gives the code, in this order. Only if none fails is the service granted, with
-- the service's own choice of compression or else the server's.
pub validate_service_request-Answered :
    (c : Config) (m : UnifiedMessage) → Answered c m (validate_service_request c (new_registry c) m)
unfolding new_registry validate_service_request
validate_service_request-Answered c m =
    let known =
      register_all-Registers c.server.services (record { services = []; service_protocols = [] })
        m.service_name in
    elim (Bool-cases (str_eq m.service_name "")) [
      | inl e ↦
          rw (e, validate_service_request) (bad_request _ (inl ((eq_iff m.service_name "").0 e)))
      | inr e ↦ elim (Bool-cases (str_eq m.protocol "")) [
        | inl f ↦
            rw (e, f, validate_service_request) (bad_request _ (inr ((eq_iff m.protocol "").0 f)))
        | inr f ↦
            looked_up-Answered c m _ (differs m.service_name "" e) (differs m.protocol "" f)
              (rw (e, f) refl) known
      ]
    ]
