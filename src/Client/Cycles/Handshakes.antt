-- ===== src/Client/Cycles/Handshakes.antt =====
-- The handshakes of a cycle leave the back-off alone.
use f2p.Prelude.{
  ◌≡◌, refl, ◌∙◌, Bool, true, false, List, [], ◌∷◌, Option, none, some, arith, if◌then◌else◌,
  String,
}
use f2p.Config.{LocalServiceConfig}
use f2p.Proto.{UnifiedMessage}
use f2p.Client.{
  Client, Verification, verified, not_verified, verify_service, keep_decision,
  authenticate_with_server, end_auth, send_auth, chosen_password, Prompt, typed, interrupted,
  unreadable, Check, available, refused_with, refused_plainly, no_response,
  check_service_availability,
}
use f2p.Client.Connecting.{
  SetupWorld, verify_protocols, Answers, verify_service_configuration, auth_of,
}

-- The back-off is the same.
abbrev pub SameBackoff : Client → Client → Type 0
SameBackoff c c' = (c'.backoff ≡ c.backoff) × (c'.backoff_max ≡ c.backoff_max)

abbrev pub KeepsBackoff : Client → Verification → Type 0
KeepsBackoff c (verified c') = SameBackoff c c'
KeepsBackoff c (not_verified f) = Unit

keep_decision-backoff :
    (name : String) (r : UnifiedMessage) (c : Client)
    → KeepsBackoff c (verified (keep_decision name r c))
unfolding keep_decision
keep_decision-backoff name r c = ground arith

by_check-backoff :
    (name : String) (c : Client) (k : Check)
    → KeepsBackoff c (elim k [
      | available r ↦ verified (keep_decision name r c)
      | failure ↦ not_verified failure
    ])
by_check-backoff name c (available r) = keep_decision-backoff name r c
by_check-backoff name c (refused_with code) = tt
by_check-backoff name c refused_plainly = tt
by_check-backoff name c Check.request_not_sent = tt
by_check-backoff name c no_response = tt
by_check-backoff name c Check.wrong_type = tt

verify_service-backoff :
    (name : String) (ok : Bool) (r : Option UnifiedMessage) (c : Client)
    → KeepsBackoff c (verify_service name ok r c)
unfolding verify_service
verify_service-backoff name ok r c = by_check-backoff name c (check_service_availability ok r)

chain :
    (c c' : Client) (v : Verification)
    → KeepsBackoff c (verified c')
    → KeepsBackoff c' v
    → KeepsBackoff c v
chain c c' (verified c2) h g = (g.0 ∙ h.0, g.1 ∙ h.1)
chain c c' (not_verified f) h g = tt

then-backoff :
    (c : Client) (v : Verification) (k : Client → Verification)
    → KeepsBackoff c v
    → ((c' : Client) → KeepsBackoff c' (k c'))
    → KeepsBackoff c (elim v [ verified c' ↦ k c' | not_verified f ↦ not_verified f ])
then-backoff c (verified c') k h g = chain c c' (k c') h (g c')
then-backoff c (not_verified f) k h g = tt

verify_protocols-backoff :
    (ask : Answers) (name password : String) (ps : List String) (c : Client)
    → KeepsBackoff c (verify_protocols ask name password ps c)
unfolding verify_protocols
verify_protocols-backoff ask name password [] c = (refl, refl)
verify_protocols-backoff ask name password (p ∷ ps) c =
    let (ok, r) = ask name p password in
    then-backoff c (verify_service name ok r c) (verify_protocols ask name password ps)
      (verify_service-backoff name ok r c) (verify_protocols-backoff ask name password ps)

enabled-backoff :
    (b : Bool) (c : Client) (v : Verification)
    → KeepsBackoff c v
    → KeepsBackoff c (if b then v else verified c)
enabled-backoff true c v h = h
enabled-backoff false c v h = (refl, refl)

pub verify_service_configuration-backoff :
    (ask : Answers) (services : List LocalServiceConfig) (c : Client)
    → KeepsBackoff c (verify_service_configuration ask services c)
unfolding verify_service_configuration
verify_service_configuration-backoff ask [] c = (refl, refl)
verify_service_configuration-backoff ask (s ∷ ss) c =
    then-backoff c
      (if s.enabled then verify_protocols ask s.name s.password s.protocol c else verified c)
      (verify_service_configuration ask ss)
      (enabled-backoff s.enabled c _ (verify_protocols-backoff ask s.name s.password s.protocol c))
      (verify_service_configuration-backoff ask ss)

end_auth-backoff :
    (required : Bool) (password : String) (r : Option UnifiedMessage) (c : Client)
    → KeepsBackoff c (verified (end_auth required password r c).0)
unfolding end_auth
end_auth-backoff required password r c = ground arith

send_auth-backoff :
    (required ok : Bool) (r : Option UnifiedMessage) (c : Client) (p : Prompt)
    → KeepsBackoff c (verified (send_auth required ok r c p).1)
send_auth-backoff required ok r c interrupted = (refl, refl)
send_auth-backoff required ok r c unreadable = (refl, refl)
send_auth-backoff required true r c (typed password) = end_auth-backoff required password r c
send_auth-backoff required false r c (typed password) = (refl, refl)

pub auth_of-backoff : (w : SetupWorld) (c : Client) → KeepsBackoff c (verified (auth_of w c).0)
unfolding authenticate_with_server
auth_of-backoff w c = by_asked w.asked
  where
    by_asked :
        (a : Option UnifiedMessage)
        → KeepsBackoff c
            (verified (authenticate_with_server a w.prompt w.auth_sent w.auth_answer c).1)
    by_asked none = (refl, refl)
    by_asked (some a) =
        send_auth-backoff a.require_password w.auth_sent w.auth_answer c
          (chosen_password a.require_password w.prompt c)
