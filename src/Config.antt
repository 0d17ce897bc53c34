-- ===== src/Config.antt =====
-- internal/config/config.go: the configuration, and what `Load` makes of a file.
-- The TOML library is a parameter; a document is what `Save` hands to its encoder.
pub mod Loading
pub mod Saving
pub mod Reload
pub mod Validation
pub mod Setup
pub mod Passwords
mod Tests
use f2p.Prelude.{
  ℕ, ◌*◌, ◌-◌, Bool, true, false, ◌&&◌, not, List, [], ◌∷◌, Option, none, some, if◌then◌else◌,
  String, leb, ltb,
}
use f2p.Prelude.Int.{ℤ, pos, negsuc, ltb_ℤ, pos_part}

pub record IdentityConfig : Type 0 where
  pub private_key : String
  pub peer_id : String

pub record ServiceConfig : Type 0 where
  pub name : String
  pub target : String
  pub password : String
  pub protocol : List String
  pub enabled : Bool
  pub compress : Option Bool

pub record ServerConfig : Type 0 where
  pub password_hash : String
  pub compress : Bool
  pub services : List ServiceConfig

pub record LocalServiceConfig : Type 0 where
  pub name : String
  pub local : String
  pub password : String
  pub protocol : List String
  pub enabled : Bool

pub record ClientConfig : Type 0 where
  pub server_id : String
  pub services : List LocalServiceConfig

pub record CommonConfig : Type 0 where
  pub protocol : String
  pub listen : List String
  pub log_level : String
  pub zstd_level : ℤ
  pub zstd_min_size_b : ℤ
  pub zstd_chunk_size_kb : ℤ
  pub stun_servers : List String

pub record Config : Type 0 where
  pub is_server : Bool
  pub identity : IdentityConfig
  pub server : ServerConfig
  pub client : ClientConfig
  pub common : CommonConfig

abbrev pub of_parts : Bool → IdentityConfig → ServerConfig → ClientConfig → CommonConfig → Config
of_parts b identity server client common = record {
  is_server = b;
  identity = identity;
  server = server;
  client = client;
  common = common;
}

-- toml.MetaData, as far as it is asked: which of the four keys stand in the text.
pub record MetaData : Type 0 where
  pub server_compress : Bool
  pub zstd_min_size_b : Bool
  pub zstd_chunk_size_kb : Bool
  pub zstd_level : Bool

unfoldable pub clamp : ℤ → ℤ → ℤ → ℤ
clamp low high x = if ltb_ℤ x low then low else (if ltb_ℤ high x then high else x)

-- The smallest size that is compressed, below the chunk's size in bytes.
unfoldable pub fit_min_size : ℤ → ℤ → ℤ
fit_min_size min chunk =
    let chunk_b = pos_part chunk * 1024 in
    let below = if ltb (chunk_b - 1) 32 then pos 32 else pos (chunk_b - 1) in
    if ltb_ℤ min (pos chunk_b) then min else below

abbrev pub value_or : Bool → ℤ → ℤ → ℤ
value_or defined default value = if defined then value else default

-- The part of `Load` on the three sizes.
unfoldable pub load_common : MetaData → CommonConfig → CommonConfig
unfolding fit_min_size clamp
load_common meta c =
    let chunk =
      clamp (pos 8) (pos 128) (value_or meta.zstd_chunk_size_kb (pos 32) c.zstd_chunk_size_kb) in
    let min =
      clamp (pos 32) (pos 2048) (value_or meta.zstd_min_size_b (pos 256) c.zstd_min_size_b) in
    record c {
      zstd_level = clamp (pos 1) (pos 20) (value_or meta.zstd_level (pos 20) c.zstd_level);
      zstd_min_size_b = fit_min_size min chunk;
      zstd_chunk_size_kb = chunk;
    }

-- A server compresses unless its configuration says otherwise.
unfoldable pub load_server : Bool → MetaData → ServerConfig → ServerConfig
load_server is_server meta s =
    if is_server && not meta.server_compress then record s { compress = true } else s

pub data LoadResult : Type 0 where
  read_failed parse_failed : LoadResult
  loaded : Config → LoadResult

-- The Toml documents of `Save`: a pointer field is an Option, and `none` is left out.
pub record ServerServiceForToml : Type 0 where
  pub name : String
  pub target : String
  pub password : Option String
  pub protocol : List String
  pub enabled : Bool
  pub compress : Option Bool

pub record ServerConfigForToml : Type 0 where
  pub password_hash : String
  pub compress : Bool
  pub services : List ServerServiceForToml

pub record LocalServiceForToml : Type 0 where
  pub name : String
  pub local : String
  pub password : Option String
  pub protocol : List String
  pub enabled : Bool

pub record ClientConfigForToml : Type 0 where
  pub server_id : String
  pub services : List LocalServiceForToml

pub data Document : Type 0 where
  server_document : Bool → IdentityConfig → ServerConfigForToml → CommonConfig → Document
  client_document : Bool → IdentityConfig → ClientConfigForToml → CommonConfig → Document

-- github.com/BurntSushi/toml: Encode and Decode.
pub record Toml : Type 0 where
  pub encode : Document → Option String
  pub decode : String → Option (Config × MetaData)

-- Load, from what os.ReadFile gave.
unfoldable pub load : Toml → Option String → LoadResult
unfolding load_common load_server
load t none = read_failed
load t (some text) = elim (t.decode text) [
  | none ↦ parse_failed
  | some (c, meta) ↦ loaded (record c {
    server = load_server c.is_server meta c.server;
    common = load_common meta c.common;
  })
]
