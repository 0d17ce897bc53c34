-- ===== src/Server/Auth.antt =====
-- handleAuthOnControl of internal/server/handlers_control.go: the password exchange on a control
-- stream. What the sends and the wait return are arguments.
use f2p.Prelude.{
  ◌≡◌, ◌≢◌, refl, sym, ap, ◌∙◌, inl, inr, Bool, true, false, not, ◌||◌, List, [], ◌∷◌, Option, none,
  some, arith, if◌then◌else◌, String, str_eq, eq_iff, Bool-cases,
}
use f2p.Proto.{UnifiedMessage, auth_request, client_shutdown, eq_type}
use f2p.Proto.Equality.{eq_type_iff}
use f2p.Message.{password_required_message, auth_response_message}
use f2p.Config.{Config}
use f2p.Config.Passwords.{
  Bcrypt, Hashes, hash_password, verify_password, verify_password-hash_password,
}

pub data AuthResult : Type 0 where
  authenticated send_requirement_failed no_request client_left unexpected_type wrong_password
        send_response_failed :
      AuthResult

unfoldable pub password_is_required : Config → Bool
password_is_required c = not (str_eq c.server.password_hash "")

unfoldable pub accepts : Bcrypt → Config → UnifiedMessage → Bool
unfolding password_is_required verify_password
accepts b c m = not (password_is_required c) || verify_password b m.password c.server.password_hash

-- The part after the wait: what is sent, and the result.
unfoldable pub answer_auth :
    Bcrypt → Config → UnifiedMessage → Bool → List UnifiedMessage × AuthResult
unfolding accepts eq_type
answer_auth b c m reply_ok =
    if eq_type m.type client_shutdown
    then ([], client_left)
    else (if eq_type m.type auth_request
        then (if accepts b c m
            then (
              auth_response_message true "" ∷ [],
              if reply_ok then authenticated else send_response_failed,
            )
            else (auth_response_message false "Invalid password" ∷ [], wrong_password))
        else ([], unexpected_type))

-- `waited` is what WaitFor gave, none for an error; the Booleans tell whether the two sends succeed.
unfoldable pub handle_auth_on_control :
    Bcrypt → Config → Bool → Option UnifiedMessage → Bool → List UnifiedMessage × AuthResult
unfolding answer_auth password_is_required
handle_auth_on_control b c send_ok waited reply_ok =
    let asked = password_required_message (password_is_required c) in
    if send_ok
    then elim waited [
      | none ↦ (asked ∷ (auth_response_message false "timeout" ∷ []), no_request)
      | some m ↦ let (sent, result) = answer_auth b c m reply_ok in (asked ∷ sent, result)
    ]
    else (asked ∷ [], send_requirement_failed)

-- A client that is let in has sent a request with an accepted password.
pub record Admitted (b : Bcrypt) (c : Config) (waited : Option UnifiedMessage) : Type 0 where
  pub request : UnifiedMessage
  pub received : waited ≡ some request
  pub is_request : request.type ≡ auth_request
  pub accepted : accepts b c request ≡ true

answer_auth-authenticated :
    (b : Bcrypt) (c : Config) (m : UnifiedMessage) (reply_ok : Bool)
    → (answer_auth b c m reply_ok).1 ≡ authenticated
    → (eq_type m.type auth_request ≡ true) × (accepts b c m ≡ true)
unfolding answer_auth
answer_auth-authenticated b c m reply_ok e = ground arith

pub handle_auth_on_control-Admitted :
    (b : Bcrypt) (c : Config) (send_ok reply_ok : Bool) (waited : Option UnifiedMessage)
    → (handle_auth_on_control b c send_ok waited reply_ok).1 ≡ authenticated
    → Admitted b c waited
unfolding handle_auth_on_control
handle_auth_on_control-Admitted b c false reply_ok waited e = ground arith
handle_auth_on_control-Admitted b c true reply_ok none e = ground arith
handle_auth_on_control-Admitted b c true reply_ok (some m) e =
    let (t, a) = answer_auth-authenticated b c m reply_ok e in
    record {
      request = m;
      received = refl;
      is_request = (eq_type_iff m.type auth_request).0 t;
      accepted = a;
    }

pub hash_password-given :
    (b : Bcrypt) (password : String)
    → Hashes b password
    → password ≢ ""
    → hash_password b password ≢ ""
unfolding hash_password
hash_password-given b password h given e = elim (Bool-cases (str_eq password "")) [
  | inl f ↦ given ((eq_iff password "").0 f)
  | inr f ↦ h.is_hash (rw f at e)
]

-- With a stored hash, the password decides.
accepts-verify_password :
    (b : Bcrypt) (c : Config) (m : UnifiedMessage)
    → c.server.password_hash ≢ ""
    → accepts b c m ≡ true
    → verify_password b m.password c.server.password_hash ≡ true
unfolding accepts password_is_required
accepts-verify_password b c m n e = elim (Bool-cases (str_eq c.server.password_hash "")) [
  | inl f ↦ absurd (n ((eq_iff c.server.password_hash "").0 f))
  | inr f ↦ ground (arith, f, e)
]

-- A server that stores the hash of a password which is not empty lets a client in only if the client
-- sent an AUTH_REQUEST with exactly this password, however the sends and the wait end. (bcrypt hashes
-- this password.)
pub authenticated_password :
    (b : Bcrypt) (c : Config) (send_ok reply_ok : Bool) (waited : Option UnifiedMessage)
    (password : String)
    → Hashes b password
    → c.server.password_hash ≡ hash_password b password
    → password ≢ ""
    → (handle_auth_on_control b c send_ok waited reply_ok).1 ≡ authenticated
    → (m : UnifiedMessage) × (waited ≡ some m) × (m.type ≡ auth_request) × (m.password ≡ password)
authenticated_password b c send_ok reply_ok waited password h stored given e =
    let a = handle_auth_on_control-Admitted b c send_ok reply_ok waited e in
    let set : c.server.password_hash ≢ "" =
      λ f. hash_password-given b password h given (sym stored ∙ f) in
    let verified = accepts-verify_password b c a.request set a.accepted in
    (
      a.request,
      a.received,
      a.is_request,
      (verify_password-hash_password b password a.request.password h).0
          (ap (verify_password b a.request.password) (sym stored) ∙ verified),
    )
