-- ===== src/Config/Passwords.antt =====
-- HashPassword and VerifyPassword of internal/config/config.go; bcrypt is a parameter.
use f2p.Prelude.{
  ◌≡◌, ◌≢◌, ◌↔◌, Bool, true, if◌then◌else◌, String, str_eq, eq_iff, Bool-cases, inl, inr,
}

-- golang.org/x/crypto/bcrypt. An error of GenerateFromPassword is dropped by the code, which then
-- takes the empty hash, so `generate` gives "" there.
pub record Bcrypt : Type 0 where
  pub generate : String → String
  pub compare : String → String → Bool

-- What its documentation promises for the passwords that it takes: the hash accepts the password it
-- was made of and no other one, and is not empty.
pub record Hashes (b : Bcrypt) (password : String) : Type 0 where
  pub is_hash : b.generate password ≢ ""
  pub compares :
      (other : String) → (b.compare (b.generate password) other ≡ true) ↔ (other ≡ password)

unfoldable pub hash_password : Bcrypt → String → String
hash_password b password = if str_eq password "" then "" else b.generate password

unfoldable pub verify_password : Bcrypt → String → String → Bool
verify_password b password stored =
    if str_eq stored "" then str_eq password "" else b.compare stored password

-- A stored hash accepts the password that was set and no other one, the empty password included: with
-- no password set, only the empty one is accepted. (bcrypt hashes this password.)
pub verify_password-hash_password :
    (b : Bcrypt) (password other : String)
    → Hashes b password
    → (verify_password b other (hash_password b password) ≡ true) ↔ (other ≡ password)
unfolding verify_password hash_password
verify_password-hash_password b password other h = elim (Bool-cases (str_eq password "")) [
  | inl e ↦ rw (e, (eq_iff password "").0 e) (eq_iff other "")
  | inr e ↦ rw e (elim (Bool-cases (str_eq (b.generate password) "")) [
    | inl f ↦ absurd (h.is_hash ((eq_iff (b.generate password) "").0 f))
    | inr f ↦ rw f (h.compares other)
  ])
]
