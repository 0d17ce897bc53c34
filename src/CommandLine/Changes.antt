-- ===== src/CommandLine/Changes.antt =====
-- What the commands change.
use f2p.Prelude.{
  ◌≡◌, ◌↔◌, ◌⊎◌, refl, inl, inr, true, false, arith, String, str_eq, eq_iff, Bool-cases,
}
use f2p.Proto.{UnifiedMessage}
use f2p.Config.{Config}
use f2p.Config.Passwords.{
  Bcrypt, Hashes, hash_password, verify_password, verify_password-hash_password,
}
use f2p.Client.{typed}
use f2p.Server.Auth.{accepts, password_is_required, hash_password-given}
use f2p.CommandLine.{saves, with_hash, handle_change_password}

handle_change_password-typed :
    (b : Bcrypt) (password : String) (c : Config)
    → c.is_server ≡ true
    → handle_change_password b true (typed password) (typed password) c
      ≡ saves (with_hash (hash_password b password) c)
unfolding handle_change_password
handle_change_password-typed b password c h = rw (h, (eq_iff password password).1 refl) refl

unprotected :
    (b : Bcrypt) (c : Config) (m : UnifiedMessage)
    → accepts b (with_hash (hash_password b "") c) m ≡ true
unfolding accepts password_is_required hash_password
unprotected b c m = refl

guarded :
    (b : Bcrypt) (c : Config) (m : UnifiedMessage) (hash : String)
    → str_eq hash "" ≡ false
    → accepts b (with_hash hash c) m ≡ verify_password b m.password hash
unfolding accepts password_is_required
guarded b c m hash e = rw e refl

is_given :
    (b : Bcrypt) (password : String)
    → Hashes b password
    → str_eq password "" ≡ false
    → str_eq (hash_password b password) "" ≡ false
is_given b password h e = elim (Bool-cases (str_eq (hash_password b password) "")) [
  | inl t ↦ absurd (
      hash_password-given b password h (λ p. ground (arith, (eq_iff password "").1 p))
        ((eq_iff _ "").0 t))
  | inr f ↦ f
]

accepts-with_hash :
    (b : Bcrypt) (password : String) (c : Config) (m : UnifiedMessage)
    → Hashes b password
    → (accepts b (with_hash (hash_password b password) c) m ≡ true)
      ↔ ((password ≡ "") ⊎ (m.password ≡ password))
accepts-with_hash b password c m h = elim (Bool-cases (str_eq password "")) [
  | inl t ↦ let p = (eq_iff password "").0 t in (λ e. inl p, λ e. rw p (unprotected b c m))
  | inr f ↦
      let v = verify_password-hash_password b password m.password h in
      rw (guarded b c m (hash_password b password) (is_given b password h f)) (
        λ e. inr (v.0 e),
        λ e. elim e [ inl p ↦ ground (arith, (eq_iff password "").1 p, f) | inr p ↦ v.1 p ],
      )
]

-- On a server, the password typed twice at the prompts of the change is saved, and the server then
-- accepts an authentication request exactly if it carries that password, or if that password is empty.
-- (bcrypt hashes this password.)
pub changed_password_accepts :
    (b : Bcrypt) (password : String) (c : Config) (m : UnifiedMessage)
    → Hashes b password
    → c.is_server ≡ true
    → (c' : Config) × (handle_change_password b true (typed password) (typed password) c ≡ saves c')
      × ((accepts b c' m ≡ true) ↔ ((password ≡ "") ⊎ (m.password ≡ password)))
changed_password_accepts b password c m h e = (
  with_hash (hash_password b password) c,
  handle_change_password-typed b password c e,
  accepts-with_hash b password c m h,
)
