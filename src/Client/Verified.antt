-- ===== src/Client/Verified.antt =====
-- The client's handshakes with the server of Server.
use mathlib.Core.List.{Memᴰ}
use f2p.Prelude.{
  ◌≡◌, ◌≢◌, refl, sym, ap, ◌∙◌, Bool, true, false, List, some, arith, String, str_eq, eq_iff,
}
use f2p.Prelude.Maps.{lookup, insert, lookup-insert}
use f2p.Proto.{UnifiedMessage, ErrorCode}
use f2p.Message.{service_request_message}
use f2p.Config.{Config, ServiceConfig}
use f2p.Server.{
  Answer, granted, refused, new_registry, validate_service_request, answer_message, will_compress,
}
use f2p.Server.Requests.{
  Answered, Asks, bad_request, not_found, disabled, unsupported, no_password, wrong_password,
  accepted,
}
use f2p.Server.Requests.Decision.{validate_service_request-Answered}
use f2p.Client.{Client, Verification, verified, not_verified, verify_service}

-- The client has kept the compression that the server grants.
pub record Granted (c : Config) (m : UnifiedMessage) (name : String) (after : Client) : Type 0 where
  pub service : ServiceConfig
  pub asks : Asks c m service
  pub enabled : service.enabled ≡ true
  pub offered : Memᴰ m.protocol service.protocol
  pub kept : lookup str_eq name after.service_compress ≡ some (will_compress c service)

abbrev pub client_or : Client → Verification → Client
client_or d (verified c) = c
client_or d (not_verified f) = d

lookup-insert_self :
    (name : String) (b : Bool) (m : List (String × Bool))
    → lookup str_eq name (insert str_eq name b m) ≡ some b
lookup-insert_self name b m =
    lookup-insert str_eq eq_iff name name b m ∙ rw ((eq_iff name name).1 refl) refl

granted-verified :
    (s : ServiceConfig) (b sent_ok : Bool) (text name : String) (cl after : Client)
    → verify_service name sent_ok (some (answer_message (granted s b text))) cl ≡ verified after
    → lookup str_eq name after.service_compress ≡ some b
unfolding verify_service answer_message
granted-verified s b false text name cl after e = ground arith
granted-verified s true true text name cl after e =
    ap (λ c. lookup str_eq name (client_or cl c).service_compress) (sym e)
    ∙ lookup-insert_self name true cl.service_compress
granted-verified s false true text name cl after e =
    ap (λ c. lookup str_eq name (client_or cl c).service_compress) (sym e)
    ∙ lookup-insert_self name false cl.service_compress

pub refused-verified :
    (code : ErrorCode) (sent_ok : Bool) (text name : String) (cl after : Client)
    → verify_service name sent_ok (some (answer_message (refused code text))) cl ≢ verified after
unfolding verify_service answer_message
refused-verified code false text name cl after e = ground arith
refused-verified code true text name cl after e = ground arith

answer-Granted :
    (c : Config) (m : UnifiedMessage) (a : Answer) (name : String) (sent_ok : Bool)
    (cl after : Client)
    → Answered c m a
    → verify_service name sent_ok (some (answer_message a)) cl ≡ verified after
    → Granted c m name after
answer-Granted c m a name sent_ok cl after (bad_request text h) e =
    absurd (refused-verified _ sent_ok text name cl after e)
answer-Granted c m a name sent_ok cl after (not_found text n h) e =
    absurd (refused-verified _ sent_ok text name cl after e)
answer-Granted c m a name sent_ok cl after (disabled s text k h) e =
    absurd (refused-verified _ sent_ok text name cl after e)
answer-Granted c m a name sent_ok cl after (unsupported s text k h g) e =
    absurd (refused-verified _ sent_ok text name cl after e)
answer-Granted c m a name sent_ok cl after (no_password s text k h g f) e =
    absurd (refused-verified _ sent_ok text name cl after e)
answer-Granted c m a name sent_ok cl after (wrong_password s text k h g f) e =
    absurd (refused-verified _ sent_ok text name cl after e)
answer-Granted c m a name sent_ok cl after (accepted s k h g f) e = record {
  service = s;
  asks = k;
  enabled = h;
  offered = g;
  kept = granted-verified s (will_compress c s) sent_ok _ name cl after e;
}

-- When the client's verification of a service succeeds on the answer of a server, the last service
-- that the server has under the name is enabled and offers the protocol, and the client has kept for
-- the service the compression that the server will use.
pub verify_service-Granted :
    (c : Config) (name protocol password : String) (sent_ok : Bool) (cl after : Client)
    → verify_service name sent_ok
        (some (
          answer_message (
            validate_service_request c
              (new_registry c)
              (service_request_message name protocol password))))
        cl
      ≡ verified after
    → Granted c (service_request_message name protocol password) name after
verify_service-Granted c name protocol password sent_ok cl after e =
    answer-Granted c (service_request_message name protocol password) _ name sent_ok cl after
      (validate_service_request-Answered c (service_request_message name protocol password)) e
