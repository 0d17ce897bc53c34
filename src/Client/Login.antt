-- ===== src/Client/Login.antt =====
-- The password that the client keeps.
use f2p.Prelude.{
  ◌≡◌, refl, ◌⊎◌, inl, inr, Bool, true, false, ◌||◌, List, [], ◌∷◌, Option, none, some, arith,
  String, Bool-cases,
}
use f2p.Proto.{UnifiedMessage}
use f2p.Message.{auth_request_message, auth_response_message}
use f2p.Config.{Config}
use f2p.Config.Passwords.{Bcrypt}
use f2p.Server.Auth.{answer_auth, accepts, password_is_required}
use f2p.Client.{Client, AuthOutcome, logged_in, rejected, end_auth}

-- What the server sends after the request, if anything.
abbrev pub reply_of : List UnifiedMessage → Option UnifiedMessage
reply_of [] = none
reply_of (m ∷ ms) = some m

-- The client's exchange with a server on its configuration: the client's request is answered.
abbrev pub login : Bcrypt → Config → String → Client → Client × AuthOutcome
login b c password cl =
    end_auth (password_is_required c) password
      (reply_of (answer_auth b c (auth_request_message password) true).0) cl

end_auth-accepted :
    (required : Bool) (password text : String) (cl : Client)
    → ((end_auth required password (some (auth_response_message true text)) cl).1 ≡ logged_in)
      × ((end_auth required password
            (some (auth_response_message true text))
            cl).0.has_cached_server_password
          ≡ (required || cl.has_cached_server_password))
unfolding end_auth
end_auth-accepted required password text cl = ground arith

answer_auth-request :
    (b : Bcrypt) (c : Config) (password : String)
    → ((accepts b c (auth_request_message password) ≡ true)
        × (reply_of (answer_auth b c (auth_request_message password) true).0
            ≡ some (auth_response_message true "")))
      ⊎ ((accepts b c (auth_request_message password) ≡ false)
          × (reply_of (answer_auth b c (auth_request_message password) true).0
              ≡ some (auth_response_message false "Invalid password")))
unfolding answer_auth
answer_auth-request b c password = elim (Bool-cases (accepts b c (auth_request_message password))) [
  | inl e ↦ inl (e, rw e refl)
  | inr e ↦ inr (e, rw e refl)
]

-- A login on a server's own answer ends in one of two ways: the server accepts the password, and the
-- client is logged in and has a password cached if it had one or one was required; or the server does
-- not accept it, and the client is rejected and has forgotten what it had cached.
pub login-accepts :
    (b : Bcrypt) (c : Config) (password : String) (cl : Client)
    → ((accepts b c (auth_request_message password) ≡ true)
        × ((login b c password cl).1 ≡ logged_in)
        × ((login b c password cl).0.has_cached_server_password
            ≡ (password_is_required c || cl.has_cached_server_password)))
      ⊎ ((accepts b c (auth_request_message password) ≡ false)
          × ((login b c password cl).1 ≡ rejected)
          × ((login b c password cl).0.has_cached_server_password ≡ false))
unfolding end_auth
login-accepts b c password cl = elim (answer_auth-request b c password) [
  | inl (a, r) ↦
      let (o, k) = end_auth-accepted (password_is_required c) password "" cl in
      inl (a, rw r o, rw r k)
  | inr (a, r) ↦ inr (a, rw r refl, rw r refl)
]
