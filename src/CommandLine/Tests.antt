-- ===== src/CommandLine/Tests.antt =====
-- The theorems about the commands at concrete inputs.
use f2p.Prelude.{
  ◌≡◌, ◌⊎◌, ◌↔◌, refl, Bool, true, [], ◌∷◌, Option, none, some, arith, String, str_eq, eq_iff,
}
use f2p.Message.{auth_request_message}
use f2p.Config.{Config, of_parts}
use f2p.Config.Saving.{no_client}
use f2p.Config.Setup.{create_default_common_config, create_default_server_services}
use f2p.Config.Passwords.{Bcrypt, Hashes}
use f2p.Client.{typed}
use f2p.Server.Auth.{accepts}
use f2p.CommandLine.{Options, no_options, parse_args, run_main, saves, handle_change_password}
use f2p.CommandLine.Actions.{Justified, run_main-Justified}
use f2p.CommandLine.Changes.{changed_password_accepts}

abbrev my_server : Config
my_server =
    of_parts true (record { private_key = "k"; peer_id = "p" })
      (record { password_hash = ""; compress = true; services = create_default_server_services })
      no_client create_default_common_config

abbrev asked : Options
asked = parse_args ("-c" ∷ "home.toml" ∷ "--change-pwd" ∷ []) no_options

abbrev there : String → Bool
there path = str_eq path "home.toml"

abbrev loads : String → Option Config
loads path = some my_server

run_main-Justified_example : Justified asked there loads none (run_main asked there loads none)
run_main-Justified_example = run_main-Justified asked there loads none

abbrev secret : String
secret = "secret"

abbrev plain : Bcrypt
plain = record { generate = λ password. "$2a$"; compare = λ stored other. str_eq other "secret" }

plain-Hashes : Hashes plain secret
plain-Hashes = record {
  is_hash = λ e. ground (arith, eq_iff "$2a$" "", e);
  compares = λ other. eq_iff other secret;
}

changed_password_accepts_example :
    (c : Config) × (handle_change_password plain true (typed secret) (typed secret) my_server
      ≡ saves c)
    × ((accepts plain c (auth_request_message "other") ≡ true)
        ↔ ((secret ≡ "") ⊎ ((auth_request_message "other").password ≡ secret)))
changed_password_accepts_example =
    changed_password_accepts plain secret my_server (auth_request_message "other") plain-Hashes refl
