-- ===== src/CommandLine.antt =====
-- cmd/f2p/main.go: the arguments, what the program then does, and the two commands that change a
-- configuration. The files, the user and the generators of keys are arguments.
pub mod Actions
pub mod Changes
mod Tests
use f2p.Prelude.{
  Bool, true, false, not, ◌&&◌, ◌||◌, List, [], ◌∷◌, Option, none, some, if◌then◌else◌, String,
  str_eq,
}
use f2p.Prelude.Text.{codes, has_prefix}
use f2p.Config.{Config}
use f2p.Config.Passwords.{Bcrypt, hash_password}
use f2p.Config.Validation.{ConfigError, Validity, valid, invalid, validate_config}
use f2p.Client.{Prompt, typed, interrupted, unreadable}

abbrev pub default_config_file : String
default_config_file = "config.toml"

pub record Options : Type 0 where
  pub config_path : String
  pub change_password : Bool
  pub regenerate_identity : Bool
  pub generate_config : Bool
  pub show_help : Bool

abbrev pub no_options : Options
no_options = record {
  config_path = default_config_file;
  change_password = false;
  regenerate_identity = false;
  generate_config = false;
  show_help = false;
}

abbrev pub is_one_of : String → String → String → Bool
is_one_of a x y = str_eq a x || str_eq a y

-- An argument that names no option is the path, unless a path other than the default is set.
abbrev pub is_flag : String → Bool
is_flag a = has_prefix (codes a) (codes "-")

-- The switch, but for the first case.
unfoldable pub set_option : String → Options → Options
unfolding has_prefix
set_option a o =
    if str_eq a "--change-pwd"
    then record o { change_password = true }
    else (if is_one_of a "--regenerate-id" "-r"
        then record o { regenerate_identity = true }
        else (if is_one_of a "--generate" "-g"
            then record o { generate_config = true }
            else (if is_one_of a "--help" "-h"
                then record o { show_help = true }
                else (if not (is_flag a) && str_eq o.config_path default_config_file
                    then record o { config_path = a }
                    else o))))

-- The loop over the arguments: the first case takes the next argument, if there is one.
unfoldable pub parse_args : List String → Options → Options
unfolding set_option
parse_args [] o = o
parse_args (a ∷ []) o = if is_one_of a "--config" "-c" then o else set_option a o
parse_args (a ∷ (b ∷ rest)) o = elim (is_one_of a "--config" "-c") [
  | true ↦ parse_args rest (record o { config_path = b })
  | false ↦ parse_args (b ∷ rest) (set_option a o)
]

-- What main does.
pub data Action : Type 0 where
  prints_help load_fails : Action
  generates : String → Action
  changes_password regenerates_identity runs_server runs_client : Config → Action
  rejects : ConfigError → Action

abbrev pub after_validation : Validity → Action
after_validation (invalid e) = rejects e
after_validation (valid c) = if c.is_server then runs_server c else runs_client c

-- `exists` and `load` are about the configuration's path; `fresh` is a generated identity.
unfoldable pub run_main :
    Options → (String → Bool) → (String → Option Config) → Option (String × String) → Action
unfolding validate_config
run_main o exists load fresh =
    if o.show_help
    then prints_help
    else (if o.generate_config
          || ((not o.change_password && not o.regenerate_identity) && not (exists o.config_path))
        then generates o.config_path
        else elim (load o.config_path) [
          | none ↦ load_fails
          | some c ↦
              if o.change_password
              then changes_password c
              else (if o.regenerate_identity
                  then regenerates_identity c
                  else after_validation (validate_config fresh c))
        ])

-- How a command ends: nothing is written, or this configuration is saved.
pub data Change : Type 0 where
  not_a_server cancelled_by_user read_failed passwords_differ no_new_identity : Change
  saves : Config → Change

abbrev pub with_hash : String → Config → Config
with_hash hash c = record c { server = record c.server { password_hash = hash } }

abbrev pub confirm_password : Bcrypt → String → Prompt → Config → Change
confirm_password b password interrupted c = cancelled_by_user
confirm_password b password unreadable c = read_failed
confirm_password b password (typed again) c =
    if str_eq password again
    then saves (with_hash (hash_password b password) c)
    else passwords_differ

abbrev pub ask_password : Bcrypt → Prompt → Prompt → Config → Change
ask_password b interrupted second c = cancelled_by_user
ask_password b unreadable second c = read_failed
ask_password b (typed password) second c = confirm_password b password second c

-- handleChangePassword: does the user want a password, and what is typed at the two prompts.
unfoldable pub handle_change_password : Bcrypt → Bool → Prompt → Prompt → Config → Change
unfolding hash_password
handle_change_password b wants first second c =
    if c.is_server
    then (if wants then ask_password b first second c else saves (with_hash "" c))
    else not_a_server

-- handleRegenerateIdentity: does the user agree, and the generated key and peer id.
unfoldable pub handle_regenerate_identity : Bool → Option (String × String) → Config → Change
handle_regenerate_identity agrees fresh c =
    if c.is_server
    then (if agrees
        then elim fresh [
          | none ↦ no_new_identity
          | some (key, id) ↦
              saves (record c { identity = record { private_key = key; peer_id = id } })
        ]
        else cancelled_by_user)
    else not_a_server
