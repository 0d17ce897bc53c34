-- ===== src/Config/Setup.antt =====
-- GenerateInteractiveConfig and its defaults (internal/config/config.go). What the user types and the
-- generated identity are arguments.
pub mod Valid
use f2p.Prelude.{
  ℕ, ◌+◌, ◌≡◌, ◌≢◌, refl, Bool, true, false, not, List, [], ◌∷◌, Option, some, none, arith,
  if◌then◌else◌, String, str_eq, eq_iff, ltb,
}
use f2p.Prelude.Text.{codes}
use f2p.Prelude.Int.{pos}
use f2p.Version.{get_protocol}
use f2p.Config.{Config, CommonConfig, ServiceConfig, LocalServiceConfig, of_parts}
use f2p.Config.Saving.{no_server, no_client}
use f2p.Config.Passwords.{Bcrypt, hash_password}

abbrev pub create_default_common_config : CommonConfig
create_default_common_config = record {
  protocol = get_protocol;
  listen =
      "/ip4/0.0.0.0/tcp/0" ∷ "/ip6/::/tcp/0" ∷ "/ip4/0.0.0.0/udp/0/webrtc-direct"
      ∷ "/ip4/0.0.0.0/udp/0/quic-v1" ∷ "/ip4/0.0.0.0/udp/0/quic-v1/webtransport"
      ∷ "/ip6/::/udp/0/webrtc-direct" ∷ "/ip6/::/udp/0/quic-v1"
      ∷ "/ip6/::/udp/0/quic-v1/webtransport" ∷ [];
  log_level = "info";
  zstd_level = pos 20;
  zstd_min_size_b = pos 256;
  zstd_chunk_size_kb = pos 32;
  stun_servers = [];
}

abbrev pub create_default_server_services : List ServiceConfig
create_default_server_services =
    record {
      name = "ssh";
      target = "127.0.0.1:22";
      password = "";
      protocol = "tcp" ∷ [];
      enabled = false;
      compress = none;
    }
    ∷ record {
      name = "something";
      target = "127.0.0.1:5432";
      password = "123";
      protocol = "tcp" ∷ "udp" ∷ [];
      enabled = false;
      compress = some true;
    }
    ∷ []

abbrev pub create_default_client_services : List LocalServiceConfig
create_default_client_services =
    record {
      name = "ssh";
      local = "127.0.0.1:2222";
      password = "";
      protocol = "tcp" ∷ [];
      enabled = false;
    }
    ∷ record {
      name = "something";
      local = "127.0.0.1:15432";
      password = "";
      protocol = "tcp" ∷ "udp" ∷ [];
      enabled = false;
    }
    ∷ []

-- What a user types; `none` is a failed read.
pub record PasswordAnswers : Type 0 where
  pub wants_password : Bool
  pub password : Option String
  pub confirmed : Option String

pub data PasswordChoice : Type 0 where
  chosen : String → PasswordChoice
  not_read not_matching : PasswordChoice

-- The two prompts; no password is the empty one.
unfoldable pub choose_password : PasswordAnswers → PasswordChoice
choose_password a = elim a.password [
  | none ↦ if a.wants_password then not_read else chosen ""
  | some p ↦
      if a.wants_password
      then elim a.confirmed [
        | none ↦ not_read
        | some q ↦ if str_eq p q then chosen p else not_matching
      ]
      else chosen ""
]

pub data Setup : Type 0 where
  configured : Config → Setup
  password_not_read passwords_differ id_too_short : Setup

unfoldable pub server_config : Bcrypt → String → String → PasswordChoice → Setup
unfolding hash_password
server_config b key id (chosen p) = configured (
    of_parts true (record { private_key = key; peer_id = id })
      (record {
        password_hash = hash_password b p;
        compress = true;
        services = create_default_server_services;
      })
      no_client create_default_common_config)
server_config b key id not_read = password_not_read
server_config b key id not_matching = passwords_differ

-- The bytes of a text in UTF-8, from its code points.
abbrev pub byte_len : List ℕ → ℕ
byte_len [] = 0
byte_len (c ∷ s) =
    (if ltb c 0x80 then 1 else if ltb c 0x800 then 2 else if ltb c 0x10000 then 3 else 4)
    + byte_len s

unfoldable pub client_config : String → String → String → Setup
client_config key id server_id =
    if ltb (byte_len (codes server_id)) 10
    then id_too_short
    else configured (
        of_parts false (record { private_key = key; peer_id = id }) no_server
          (record { server_id = server_id; services = create_default_client_services })
          create_default_common_config)

-- The configuration that is saved; the first argument after the identity answers "server?".
unfoldable pub interactive_config :
    Bcrypt → String → String → Bool → PasswordAnswers → String → Setup
unfolding server_config client_config choose_password
interactive_config b key id is_server a server_id =
    if is_server then server_config b key id (choose_password a) else client_config key id server_id
