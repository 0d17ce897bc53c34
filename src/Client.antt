-- ===== src/Client.antt =====
-- internal/client: the state that the handshakes of handshake.go read and write, and the back-off of
-- client.go. What the server answers, what the user types and whether a send succeeds are arguments.
pub mod Verified
pub mod Login
pub mod Connection
pub mod Streams
pub mod HolePunch
pub mod Monitor
pub mod Connecting
pub mod Cycles
pub mod Decisions
pub mod Services
pub mod Listeners
mod Tests
mod CycleTests
use f2p.Prelude.{
  ℕ, ◌*◌, ◌/◌, ◌+◌, Bool, true, false, not, List, [], ◌∷◌, Option, none, some, if◌then◌else◌,
  String, str_eq, ltb, leb, ◌&&◌, map,
}
use f2p.Prelude.Text.{codes}
use f2p.Prelude.Maps.{lookup, insert}
use f2p.Proto.{
  UnifiedMessage, ErrorCode, service_response, auth_response, eq_type, is_no_error,
  service_not_found, protocol_not_supported, service_disabled, password_required_error,
  invalid_password,
}
use f2p.Message.{seconds, auth_request_message, client_shutdown_notice}

pub record Client : Type 0 where
  pub service_compress : List (String × Bool)
  pub cached_server_password : String
  pub has_cached_server_password : Bool
  pub backoff : ℕ  -- nanoseconds
  pub backoff_max : ℕ

-- ResetBackoff and IncreaseBackoff: half as much again, cut off to whole nanoseconds. (The code
-- computes in float64, which is exact in the range of the back-off.)
unfoldable pub reset_backoff : Client → Client
reset_backoff c = record c { backoff = seconds 1 }

unfoldable pub increase_backoff : Client → Client
increase_backoff c =
    let next = c.backoff * 3 / 2 in
    record c { backoff = if ltb c.backoff_max next then c.backoff_max else next }

-- What checkServiceAvailability returns: the response, or an error with the server's code if it has one.
pub data Check : Type 0 where
  available : UnifiedMessage → Check
  refused_with : ErrorCode → Check
  refused_plainly request_not_sent no_response wrong_type : Check

unfoldable pub check_response : UnifiedMessage → Check
unfolding eq_type
check_response resp =
    if eq_type resp.type service_response
    then (if resp.success
        then available resp
        else (if is_no_error resp.error_code
            then refused_plainly
            else refused_with resp.error_code))
    else wrong_type

unfoldable pub check_service_availability : Bool → Option UnifiedMessage → Check
unfolding check_response
check_service_availability sent_ok resp =
    if sent_ok
    then elim resp [ none ↦ no_response | some r ↦ check_response r ]
    else request_not_sent

-- strings.EqualFold with "true", whose letters have no other forms than the two ASCII ones.
abbrev lower : ℕ → ℕ
lower ch = if leb b'A' ch && leb ch b'Z' then ch + 32 else ch

abbrev same_codes : List ℕ → List ℕ → Bool
same_codes [] [] = true
same_codes (a ∷ s) (b ∷ t) = if leb a b && leb b a then same_codes s t else false
same_codes _ _ = false

abbrev pub is_true_text : String → Bool
is_true_text v = same_codes (map lower (codes v)) (codes "true")

-- The decision on compression that a response carries is kept for the service.
unfoldable pub keep_decision : String → UnifiedMessage → Client → Client
unfolding lookup
keep_decision name resp c = elim (lookup str_eq "zstd" resp.entries) [
  | none ↦ c
  | some v ↦ record c { service_compress = insert str_eq name (is_true_text v) c.service_compress }
]

pub data Verification : Type 0 where
  verified : Client → Verification
  not_verified : Check → Verification

-- verifyServiceOnControlStream, when the control stream is there.
unfoldable pub verify_service : String → Bool → Option UnifiedMessage → Client → Verification
unfolding check_service_availability keep_decision
verify_service name sent_ok resp c = elim (check_service_availability sent_ok resp) [
  | available r ↦ verified (keep_decision name r c)
  | failure ↦ not_verified failure
]

-- authenticateWithServer: what is sent, the client after it, and the result.
pub data AuthOutcome : Type 0 where
  logged_in no_requirement user_left password_unread request_not_sent no_answer wrong_answer
        rejected :
      AuthOutcome

pub data Prompt : Type 0 where
  typed : String → Prompt
  interrupted unreadable : Prompt

-- The end of the exchange, by the answer; `required` tells whether the server asked for a password.
unfoldable pub end_auth : Bool → String → Option UnifiedMessage → Client → Client × AuthOutcome
unfolding eq_type
end_auth required password none c = (c, no_answer)
end_auth required password (some resp) c =
    if eq_type resp.type auth_response
    then (if resp.success
        then (if required && not c.has_cached_server_password
            then (
              record c { cached_server_password = password; has_cached_server_password = true },
              logged_in,
            )
            else (c, logged_in))
        else (
          record c { cached_server_password = ""; has_cached_server_password = false },
          rejected,
        ))
    else (c, wrong_answer)

-- The password that is sent: none is asked for, or the cached one, or the one that is typed.
abbrev pub chosen_password : Bool → Prompt → Client → Prompt
chosen_password required prompt c =
    if required
    then (if c.has_cached_server_password then typed c.cached_server_password else prompt)
    else typed ""

abbrev pub send_auth :
    Bool
    → Bool
    → Option UnifiedMessage
    → Client
    → Prompt
    → List UnifiedMessage × Client × AuthOutcome
send_auth required sent_ok answer c interrupted = (client_shutdown_notice ∷ [], c, user_left)
send_auth required sent_ok answer c unreadable = ([], c, password_unread)
send_auth required sent_ok answer c (typed password) =
    if sent_ok
    then (let (c', o) = end_auth required password answer c in
        (auth_request_message password ∷ [], c', o))
    else ([], c, request_not_sent)

unfoldable pub authenticate_with_server :
    Option UnifiedMessage
    → Prompt
    → Bool
    → Option UnifiedMessage
    → Client
    → List UnifiedMessage × Client × AuthOutcome
unfolding end_auth
authenticate_with_server none prompt sent_ok answer c = ([], c, no_requirement)
authenticate_with_server (some asked) prompt sent_ok answer c =
    send_auth asked.require_password sent_ok answer c
      (chosen_password asked.require_password prompt c)
