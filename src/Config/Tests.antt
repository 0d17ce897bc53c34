-- ===== src/Config/Tests.antt =====
-- The configuration's theorems at concrete inputs.
use Prim.Native.String.{◌++◌}
use mathlib.Core.Logic.{ite, if_pos}
use native.Mathlib.Decide.{ℕ_discrete}
use f2p.Prelude.{
  ◌*◌, ◌≡◌, refl, inl, inr, true, false, some, none, arith, String, str_eq, eq_iff, Bool-cases,
}
use f2p.Prelude.Int.{pos, negsuc, pos_part}
use f2p.Compress.{configure_zstd_params}
use f2p.Config.{
  Config, Toml, Document, loaded, load, load_common, load_server, of_parts, clamp, fit_min_size,
}
use f2p.Config.Loading.{IsInRange, load-configure}
use f2p.Config.Saving.{save, document_of, decoded, IsReadBack, no_client, write_toml_header}
use f2p.Config.Reload.{load-save}
use f2p.Config.Validation.{valid, validate_config, HasServices}
use f2p.Config.Validation.Decision.{validate_config-Verdict, Verdict}
use f2p.Config.Setup.{
  create_default_common_config, create_default_server_services, PasswordAnswers, configured,
  interactive_config,
}
use f2p.Config.Setup.Valid.{interactive_config_reloads, default-IsInRange}
use f2p.Config.Passwords.{Bcrypt, Hashes}

String-discrete : Discrete String
String-discrete s t = elim (Bool-cases (str_eq s t)) [
  | inl e ↦ yes ((eq_iff s t).0 e)
  | inr e ↦ no (λ p. cc ((eq_iff s t).1 p))
]

Document-discrete : Discrete Document
Document-discrete = hlevel (String-discrete, ℕ_discrete)

abbrev my_server : Config
my_server =
    of_parts true (record { private_key = "k"; peer_id = "p" })
      (record { password_hash = ""; compress = true; services = create_default_server_services })
      no_client create_default_common_config

abbrev body : String
body = "is_server = true"

-- A library that knows one document.
abbrev toy : Toml
toy = record {
  encode = λ d. ite (Document-discrete d (document_of my_server)) (some body) none;
  decode = λ text. some (decoded (document_of my_server));
}

toy-IsReadBack : IsReadBack toy
toy-IsReadBack is_server d text e = ground arith

abbrev saved_text : String
saved_text = write_toml_header true ++ body

saved : save toy my_server ≡ some saved_text
unfolding save
saved =
    rw
      (
        if_pos (Document-discrete (document_of my_server) (document_of my_server)) refl (some body)
            none,
        save,
      )
      refl

load-save_example : load toy (some saved_text) ≡ loaded my_server
load-save_example =
    load-save toy my_server saved_text toy-IsReadBack
      (record { in_range = default-IsInRange; one_side = refl }) saved

-- A file with sizes out of their ranges.
abbrev odd : Config
odd = record my_server {
  common = record create_default_common_config {
    zstd_level = negsuc 3;
    zstd_min_size_b = pos 5000;
    zstd_chunk_size_kb = pos 1;
  };
}

abbrev odd_file : Toml
odd_file = record {
  encode = λ d. none;
  decode = λ text. some (
    odd,
    record {
      server_compress = false;
      zstd_min_size_b = true;
      zstd_chunk_size_kb = true;
      zstd_level = true;
    },
  );
}

abbrev tamed : Config
tamed = record odd {
  common = record create_default_common_config {
    zstd_level = pos 1;
    zstd_min_size_b = pos 2048;
    zstd_chunk_size_kb = pos 8;
  };
}

load_odd : load odd_file (some "") ≡ loaded tamed
unfolding load load_common load_server clamp fit_min_size
load_odd = refl

load-configure_example :
    (r : IsInRange tamed.common) × (configure_zstd_params tamed.common.zstd_level
        tamed.common.zstd_min_size_b
        (pos (pos_part tamed.common.zstd_chunk_size_kb * 1024))
      ≡ record { level = pos r.level; min_size = r.min; chunk_size = r.chunk * 1024 })
load-configure_example = load-configure odd_file (some "") tamed load_odd

validate_config-Verdict_example :
    Verdict
      ("key", "id")
      my_server.is_server
      my_server
      (HasServices my_server)
      (validate_config (some ("key", "id")) my_server)
validate_config-Verdict_example = validate_config-Verdict "key" "id" my_server

abbrev wrong : String
wrong = "wrong"

abbrev secret : String
secret = "secret"

-- A hash function for one password.
abbrev plain : Bcrypt
plain = record { generate = λ password. "$2a$"; compare = λ stored other. str_eq other "secret" }

plain-Hashes : Hashes plain "secret"
plain-Hashes = record {
  is_hash = λ e. ground (arith, eq_iff "$2a$" "", e);
  compares = λ other. eq_iff other "secret";
}

abbrev no_answers : PasswordAnswers
no_answers = record { wants_password = false; password = none; confirmed = none }

made : interactive_config plain "k" "p" true no_answers "" ≡ configured my_server
unfolding interactive_config
made = refl

interactive_config_reloads_example :
    (validate_config none my_server ≡ valid my_server)
    × (load toy (some saved_text) ≡ loaded my_server)
interactive_config_reloads_example =
    interactive_config_reloads none plain "k" "p" true no_answers "" toy saved_text my_server
      (λ e. ground (arith, eq_iff "k" "", e)) (λ e. ground (arith, eq_iff "p" "", e)) toy-IsReadBack
      made saved
