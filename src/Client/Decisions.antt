-- ===== src/Client/Decisions.antt =====
-- What a granted service does to the decisions on compression that the client keeps (internal/client).
use f2p.Prelude.{
  ◌≡◌, ◌≢◌, refl, sym, ap, ◌∙◌, inl, inr, Bool, true, false, List, [], ◌∷◌, ◌++◌, Option, none,
  some, arith, String, str_eq, eq_iff, All, if◌then◌else◌, Bool-cases,
}
use f2p.Prelude.Maps.{lookup, insert, lookup-insert}
use f2p.Proto.{UnifiedMessage}
use f2p.Config.{Config, ServiceConfig}
use f2p.Server.{Answer, granted, refused, answer_message, will_compress}
use f2p.Server.Requests.{IsLast, Answered, Asks, accepted}
use f2p.Client.{Client, verified, verify_service}
use f2p.Client.Verified.{Granted, client_or, refused-verified}

abbrev last_named : String → List ServiceConfig → Option ServiceConfig
last_named name [] = none
last_named name (x ∷ xs) = elim (last_named name xs) [
  | some s ↦ some s
  | none ↦ if str_eq x.name name then some x else none
]

last_named-none :
    (name : String) (xs : List ServiceConfig)
    → All (λ x. x.name ≢ name) xs
    → last_named name xs ≡ none
last_named-none name [] h = refl
last_named-none name (x ∷ xs) h =
    ground (arith, last_named-none name xs h.1, eq_iff x.name name, h.0)

last_named-append :
    (name : String) (s : ServiceConfig) (later : List ServiceConfig) (earlier : List ServiceConfig)
    → last_named name later ≡ none
    → s.name ≡ name
    → last_named name (earlier ++ (s ∷ later)) ≡ some s
last_named-append name s later [] h e = rw (h, (eq_iff s.name name).1 e) refl
last_named-append name s later (x ∷ earlier) h e =
    rw (last_named-append name s later earlier h e) refl

last_named-IsLast :
    (ss : List ServiceConfig) (name : String) (s : ServiceConfig)
    → IsLast ss name s
    → last_named name ss ≡ some s
last_named-IsLast ss name s l =
    ap (last_named name) l.split
    ∙ last_named-append name s l.later l.earlier (last_named-none name l.later l.none_later) l.named

some_inj : (a b : ServiceConfig) → some a ≡ some b → a ≡ b
some_inj a b h = cc

-- Two requests for the same name ask for the same service.
asked_once :
    (c : Config) (m n : UnifiedMessage) (s t : ServiceConfig)
    → Asks c m s
    → Asks c n t
    → m.service_name ≡ n.service_name
    → s ≡ t
asked_once c m n s t a b e = some_inj s t (
    sym (last_named-IsLast c.server.services m.service_name s a.offered)
    ∙ (ap (λ (x : String). last_named x c.server.services) e
        ∙ last_named-IsLast c.server.services n.service_name t b.offered))

-- What a verified answer does to the decisions that are kept.
abbrev pub Keeps : Config → UnifiedMessage → String → Client → Client → Type 0
Keeps c m name cl after =
    (s : ServiceConfig) × Asks c m s
    × (after.service_compress ≡ insert str_eq name (will_compress c s) cl.service_compress)

inserted :
    (s : ServiceConfig) (b : Bool) (text name : String) (cl after : Client)
    → verify_service name true (some (answer_message (granted s b text))) cl ≡ verified after
    → after.service_compress ≡ insert str_eq name b cl.service_compress
unfolding verify_service answer_message
inserted s true text name cl after e = ap (λ c. (client_or cl c).service_compress) (sym e)
inserted s false text name cl after e = ap (λ c. (client_or cl c).service_compress) (sym e)

pub answer-Keeps :
    (c : Config) (m : UnifiedMessage) (a : Answer) (name : String) (cl after : Client)
    → Answered c m a
    → verify_service name true (some (answer_message a)) cl ≡ verified after
    → Keeps c m name cl after
answer-Keeps c m (refused code text) name cl after h e =
    absurd (refused-verified code true text name cl after e)
answer-Keeps c m _ name cl after (accepted s k h g f) e =
    (s, k, inserted s (will_compress c s) _ name cl after e)

-- A granted service stays granted.
pub Granted-Keeps :
    (c : Config) (m n : UnifiedMessage) (cl after : Client)
    → Keeps c n n.service_name cl after
    → Granted c m m.service_name cl
    → Granted c m m.service_name after
Granted-Keeps c m n cl after (s, a, e) g = record {
  service = g.service;
  asks = g.asks;
  enabled = g.enabled;
  offered = g.offered;
  kept =
      ap (lookup str_eq m.service_name) e
      ∙ (lookup-insert str_eq eq_iff m.service_name n.service_name (will_compress c s)
            cl.service_compress
          ∙ elim (Bool-cases (str_eq m.service_name n.service_name)) [
            | inl t ↦ rw t (
                ap (λ (x : ServiceConfig). some (will_compress c x))
                  (asked_once c n m s g.service a g.asks
                    (sym ((eq_iff m.service_name n.service_name).0 t))))
            | inr f ↦ rw f g.kept
          ]);
}
