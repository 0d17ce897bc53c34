-- ===== src/Server/Requests.antt =====
-- What the server answers to a request for a service, from the configuration alone.
pub mod Decision
use mathlib.Core.List.{Memᴰ}
use f2p.Prelude.{
  ◌≡◌, ◌≢◌, refl, sym, ap, subst, ◌∙◌, ◌⊎◌, inl, inr, Bool, true, false, ◌||◌, List, [], ◌∷◌, ◌++◌,
  Option, none, some, arith, if◌then◌else◌, String, str_eq, eq_iff, Bool-cases, All,
}
use f2p.Prelude.Maps.{lookup, insert, elem, lookup-insert}
use f2p.Proto.{
  UnifiedMessage, no_error, service_not_found, service_disabled, protocol_not_supported,
  password_required_error, invalid_password,
}
use f2p.Config.{Config, ServiceConfig}
use f2p.Server.{
  Registry, register, register_all, new_registry, Answer, granted, refused, will_compress,
  ready_text, check_password, check_service, validate_service_request,
}

-- The last service of a list with a name.
pub record IsLast (services : List ServiceConfig) (name : String) (s : ServiceConfig) : Type 0 where
  pub earlier : List ServiceConfig
  pub later : List ServiceConfig
  pub split : services ≡ earlier ++ (s ∷ later)
  pub named : s.name ≡ name
  pub none_later : All (λ x. x.name ≢ name) later

-- What the two maps say of a name after the loop of NewServer.
abbrev pub Registers : Registry → Registry → List ServiceConfig → String → Type 0
Registers r after ss name =
    (All (λ x. x.name ≢ name) ss
      × (lookup str_eq name after.services ≡ lookup str_eq name r.services)
      × (lookup str_eq name after.service_protocols ≡ lookup str_eq name r.service_protocols))
    ⊎ ((s : ServiceConfig) × IsLast ss name s
        × (lookup str_eq name after.services ≡ some s)
        × (lookup str_eq name after.service_protocols ≡ some s.protocol))

register-lookup :
    (r : Registry) (s : ServiceConfig) (name : String)
    → (lookup str_eq name (register r s).services
        ≡ (if str_eq name s.name then some s else lookup str_eq name r.services))
      × (lookup str_eq name (register r s).service_protocols ≡ (
          if str_eq name s.name then some s.protocol else lookup str_eq name r.service_protocols))
unfolding register
register-lookup r s name = (
  lookup-insert str_eq eq_iff name s.name s r.services,
  lookup-insert str_eq eq_iff name s.name s.protocol r.service_protocols,
)

pub register_all-Registers :
    (ss : List ServiceConfig) (r : Registry) (name : String)
    → Registers r (register_all r ss) ss name
unfolding register_all
register_all-Registers [] r name = inl (tt, refl, refl)
register_all-Registers (s ∷ ss) r name = elim (register_all-Registers ss (register r s) name) [
  | inr (x, last, e, f) ↦ inr (
    x,
    record {
      earlier = s ∷ last.earlier;
      later = last.later;
      split = ap (λ l. s ∷ l) last.split;
      named = last.named;
      none_later = last.none_later;
    },
    e,
    f,
  )
  | inl (all, e, f) ↦ elim (Bool-cases (str_eq name s.name)) [
    | inl g ↦ inr (
      s,
      record {
        earlier = [];
        later = ss;
        split = refl;
        named = sym ((eq_iff name s.name).0 g);
        none_later = all;
      },
      e ∙ ((register-lookup r s name).0 ∙ rw g refl),
      f ∙ ((register-lookup r s name).1 ∙ rw g refl),
    )
    | inr g ↦ inl (
      ((λ h. cc (g, (eq_iff name s.name).1 (sym h))), all),
      e ∙ ((register-lookup r s name).0 ∙ rw g refl),
      f ∙ ((register-lookup r s name).1 ∙ rw g refl),
    )
  ]
]

-- The service that is asked for, and that is offered last under its name.
pub record Asks (c : Config) (m : UnifiedMessage) (s : ServiceConfig) : Type 0 where
  pub offered : IsLast c.server.services m.service_name s
  pub name_given : m.service_name ≢ ""
  pub protocol_given : m.protocol ≢ ""

-- The answers, each with all that holds when it is given.
pub data Answered (c : Config) (m : UnifiedMessage) : Answer → Type 0 where
  bad_request :
      (text : String)
      → (m.service_name ≡ "") ⊎ (m.protocol ≡ "")
      → Answered c m (refused no_error text)
  not_found :
      (text : String)
      → m.service_name ≢ ""
      → All (λ x. x.name ≢ m.service_name) c.server.services
      → Answered c m (refused service_not_found text)
  disabled :
      (s : ServiceConfig) (text : String)
      → Asks c m s
      → s.enabled ≡ false
      → Answered c m (refused service_disabled text)
  unsupported :
      (s : ServiceConfig) (text : String)
      → Asks c m s
      → s.enabled ≡ true
      → All (λ p. p ≢ m.protocol) s.protocol
      → Answered c m (refused protocol_not_supported text)
  no_password :
      (s : ServiceConfig) (text : String)
      → Asks c m s
      → s.enabled ≡ true
      → Memᴰ m.protocol s.protocol
      → (s.password ≢ "") × (m.service_password ≡ "")
      → Answered c m (refused password_required_error text)
  wrong_password :
      (s : ServiceConfig) (text : String)
      → Asks c m s
      → s.enabled ≡ true
      → Memᴰ m.protocol s.protocol
      → (s.password ≢ "") × (m.service_password ≢ "") × (m.service_password ≢ s.password)
      → Answered c m (refused invalid_password text)
  accepted :
      (s : ServiceConfig)
      → Asks c m s
      → s.enabled ≡ true
      → Memᴰ m.protocol s.protocol
      → (s.password ≡ "") ⊎ (m.service_password ≡ s.password)
      → Answered c m (granted s (will_compress c s) (ready_text m))

pub elem-Mem :
    (x : String) (ys : List String)
    → ((elem str_eq x ys ≡ true) × Memᴰ x ys) ⊎ ((elem str_eq x ys ≡ false) × All (λ y. y ≢ x) ys)
unfolding elem
elem-Mem x [] = inr (refl, tt)
elem-Mem x (y ∷ ys) = elim (Bool-cases (str_eq x y)) [
  | inl e ↦ inl (rw e refl, Memᴰ.head ((eq_iff x y).0 e))
  | inr e ↦ elim (elem-Mem x ys) [
    | inl (f, mem) ↦ inl (rw e f, Memᴰ.tail mem)
    | inr (f, all) ↦ inr (rw e f, ((λ h. cc (e, (eq_iff x y).1 (sym h))), all))
  ]
]
