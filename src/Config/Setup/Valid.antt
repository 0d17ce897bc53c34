-- ===== src/Config/Setup/Valid.antt =====
-- The configurations of the interactive setup (internal/config/config.go) under validation, `Save`
-- and `Load`.
use f2p.Prelude.{
  ◌≡◌, ◌≢◌, refl, ap, subst, Bool, true, false, Option, some, arith, String, str_eq, eq_iff, ltb,
  Bool-cases, inl, inr,
}
use f2p.Config.{Config, Toml, of_parts, loaded, load}
use f2p.Config.Loading.{IsInRange}
use f2p.Config.Saving.{IsStorable, IsReadBack, save, no_server}
use f2p.Config.Passwords.{Bcrypt}
use f2p.Config.Validation.{valid, validate_config, ensure_identity}
use f2p.Config.Setup.{
  create_default_common_config, create_default_client_services, PasswordAnswers, PasswordChoice,
  chosen, not_read, not_matching, choose_password, Setup, configured, password_not_read,
  passwords_differ, id_too_short, server_config, client_config, interactive_config, byte_len,
}
use f2p.Prelude.Text.{codes}
use f2p.Config.Reload.{load-save}

-- Valid as it stands, and as it will be read back.
abbrev IsReady : Option (String × String) → Config → Type 0
IsReady generated c = (validate_config generated c ≡ valid c) × IsStorable c

pub default-IsInRange : IsInRange create_default_common_config
default-IsInRange = record {
  level = 20;
  min = 256;
  chunk = 32;
  level_eq = refl;
  min_eq = refl;
  chunk_eq = refl;
  level_range = (omega arith, omega arith);
  min_range = (omega arith, omega arith);
  chunk_range = (omega arith, omega arith);
  below = omega arith;
}

abbrev config_or : Config → Setup → Config
config_or d (configured c) = c
config_or d password_not_read = d
config_or d passwords_differ = d
config_or d id_too_short = d

-- What is ready and is the outcome is the configuration of the outcome.
IsReady-outcome :
    (generated : Option (String × String)) (x c : Config)
    → IsReady generated x
    → configured x ≡ configured c
    → IsReady generated c
IsReady-outcome generated x c r e = subst (IsReady generated) (ap (config_or x) e) r

-- The identity is kept when it has both parts.
ensure_identity_kept :
    (generated : Option (String × String)) (c : Config)
    → c.identity.private_key ≢ ""
    → c.identity.peer_id ≢ ""
    → ensure_identity generated c ≡ valid c
unfolding ensure_identity
ensure_identity_kept generated c k i =
    ground (arith, eq_iff c.identity.private_key "", eq_iff c.identity.peer_id "", k, i)

server_config-IsReady :
    (generated : Option (String × String)) (b : Bcrypt) (key id : String) (choice : PasswordChoice)
    (c : Config)
    → key ≢ ""
    → id ≢ ""
    → server_config b key id choice ≡ configured c
    → IsReady generated c
unfolding server_config validate_config
server_config-IsReady generated b key id not_read c k i e = ground arith
server_config-IsReady generated b key id not_matching c k i e = ground arith
server_config-IsReady generated b key id (chosen p) c k i e =
    IsReady-outcome generated _ c
      (
        ensure_identity_kept generated _ k i,
        record { in_range = default-IsInRange; one_side = refl },
      )
      e

client_config-IsReady :
    (generated : Option (String × String)) (key id server_id : String) (c : Config)
    → client_config key id server_id ≡ configured c
    → IsReady generated c
unfolding client_config validate_config
client_config-IsReady generated key id server_id c e =
    elim (Bool-cases (ltb (byte_len (codes server_id)) 10)) [
      | inl f ↦ ground (arith, f, e)
      | inr f ↦ elim (Bool-cases (str_eq server_id "")) [
        | inl g ↦
            absurd (ground (arith, f, ap (λ s. byte_len (codes s)) ((eq_iff server_id "").0 g)))
        | inr g ↦
            IsReady-outcome generated
              (of_parts false (record { private_key = key; peer_id = id }) no_server
                (record { server_id = server_id; services = create_default_client_services })
                create_default_common_config)
              c (ground (arith, g), record { in_range = default-IsInRange; one_side = refl })
              (rw f at e)
      ]
    ]

-- A configuration that the setup makes is ready.
interactive_config-IsReady :
    (generated : Option (String × String)) (b : Bcrypt) (key id : String) (is_server : Bool)
    (a : PasswordAnswers) (server_id : String) (c : Config)
    → key ≢ ""
    → id ≢ ""
    → interactive_config b key id is_server a server_id ≡ configured c
    → IsReady generated c
unfolding interactive_config
interactive_config-IsReady generated b key id true a server_id c k i e =
    server_config-IsReady generated b key id (choose_password a) c k i e
interactive_config-IsReady generated b key id false a server_id c k i e =
    client_config-IsReady generated key id server_id c e

-- A generated identity that has both parts, and a Toml library that reads back what it encodes:
-- whatever a user answers, a configuration that the setup makes passes `ValidateConfig` unchanged,
-- and when `Save` writes it to a file, `Load` of that file gives the same configuration.
pub interactive_config_reloads :
    (generated : Option (String × String)) (b : Bcrypt) (key id : String) (is_server : Bool)
    (a : PasswordAnswers) (server_id : String) (t : Toml) (text : String) (c : Config)
    → key ≢ ""
    → id ≢ ""
    → IsReadBack t
    → interactive_config b key id is_server a server_id ≡ configured c
    → save t c ≡ some text
    → (validate_config generated c ≡ valid c) × (load t (some text) ≡ loaded c)
interactive_config_reloads generated b key id is_server a server_id t text c k i reads e s =
    let (ok, storable) =
      interactive_config-IsReady generated b key id is_server a server_id c k i e in
    (ok, load-save t c text reads storable s)
