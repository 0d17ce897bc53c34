-- ===== src/Config/Saving.antt =====
-- `Save` of internal/config/config.go, and that `Load` reads back what it wrote.
use Prim.Native.String.{◌++◌}
use f2p.Prelude.{◌≡◌, Bool, true, false, [], Option, some, none, if◌then◌else◌, String, str_eq, map}
use f2p.Config.{
  Config, ServerConfig, ClientConfig, ServiceConfig, LocalServiceConfig, MetaData, Toml, Document,
  server_document, client_document, ServerServiceForToml, LocalServiceForToml,
}
use f2p.Config.Loading.{IsInRange}

abbrev header_prefix : String
header_prefix =
    "# F2P Configuration File (TOML Format)\n"
    ++ "# Generated automatically - you can modify the service configurations\n" ++ "# This is a "

abbrev header_suffix : String
header_suffix =
    " configuration\n" ++ "#\n" ++ "# Documentation:\n"
    ++ "# - identity: Auto-generated, do not modify\n"
    ++ "# - services: You can modify these as needed\n"
    ++ "# - password: Optional service-level passwords\n"
    ++ "#   * To set a password: add 'password = \"your_password\"' to any service\n"
    ++ "#   * To remove a password: delete the password line completely\n"
    ++ "#   * Empty passwords (\"\") are treated as no password\n"
    ++ "# - server.compress: Enable zstd compression for data streams (server-side, default: true)\n"
    ++ "# - service.compress (server): Optional override per service (true/false). Omit to inherit.\n"
    ++ "# - common.zstd_level: Zstd compression level (default: 20 best, optional: 1..20)\n"
    ++ "# - common.zstd_min_size_b: Min size to attempt compression, pure number in BYTES. Default: 256. Range: 32..2048. Must be < chunk size.\n"
    ++ "# - common.zstd_chunk_size_kb: Chunk size for framing, pure number in KILOBYTES. Default: 32. Range: 8..128.\n"
    ++ "\n"

-- writeTomlHeader: comment lines only.
unfoldable pub write_toml_header : Bool → String
write_toml_header is_server =
    header_prefix ++ ((if is_server then "SERVER" else "CLIENT") ++ header_suffix)

-- A password that is not set is left out.
abbrev pub password_field : String → Option String
password_field password = if str_eq password "" then none else some password

unfoldable pub toml_service : ServiceConfig → ServerServiceForToml
toml_service s = record {
  name = s.name;
  target = s.target;
  password = password_field s.password;
  protocol = s.protocol;
  enabled = s.enabled;
  compress = s.compress;
}

unfoldable pub toml_local_service : LocalServiceConfig → LocalServiceForToml
toml_local_service s = record {
  name = s.name;
  local = s.local;
  password = password_field s.password;
  protocol = s.protocol;
  enabled = s.enabled;
}

-- The document that `Save` encodes: the server's part or the client's.
unfoldable pub document_of : Config → Document
unfolding toml_service toml_local_service
document_of c =
    if c.is_server
    then server_document c.is_server c.identity
        (record {
          password_hash = c.server.password_hash;
          compress = c.server.compress;
          services = map toml_service c.server.services;
        })
        c.common
    else client_document c.is_server c.identity
        (record {
          server_id = c.client.server_id;
          services = map toml_local_service c.client.services;
        })
        c.common

-- What stands in the file, unless the encoder fails. (os.WriteFile writes it.)
unfoldable pub save : Toml → Config → Option String
unfolding document_of write_toml_header
save t c = elim (t.encode (document_of c)) [
  | none ↦ none
  | some text ↦ some (write_toml_header c.is_server ++ text)
]

-- What decoding a document gives: a key that is left out keeps the field's zero value.
abbrev pub or_empty : Option String → String
or_empty none = ""
or_empty (some s) = s

abbrev pub service_of_toml : ServerServiceForToml → ServiceConfig
service_of_toml s = record {
  name = s.name;
  target = s.target;
  password = or_empty s.password;
  protocol = s.protocol;
  enabled = s.enabled;
  compress = s.compress;
}

abbrev pub local_service_of_toml : LocalServiceForToml → LocalServiceConfig
local_service_of_toml s = record {
  name = s.name;
  local = s.local;
  password = or_empty s.password;
  protocol = s.protocol;
  enabled = s.enabled;
}

abbrev pub no_server : ServerConfig
no_server = record { password_hash = ""; compress = false; services = [] }

abbrev pub no_client : ClientConfig
no_client = record { server_id = ""; services = [] }

abbrev pub decoded : Document → Config × MetaData
decoded (server_document is_server identity s common) = (
  record {
    is_server = is_server;
    identity = identity;
    server = record {
      password_hash = s.password_hash;
      compress = s.compress;
      services = map service_of_toml s.services;
    };
    client = no_client;
    common = common;
  },
  record {
    server_compress = true;
    zstd_min_size_b = true;
    zstd_chunk_size_kb = true;
    zstd_level = true;
  },
)
decoded (client_document is_server identity c common) = (
  record {
    is_server = is_server;
    identity = identity;
    server = no_server;
    client = record { server_id = c.server_id; services = map local_service_of_toml c.services };
    common = common;
  },
  record {
    server_compress = false;
    zstd_min_size_b = true;
    zstd_chunk_size_kb = true;
    zstd_level = true;
  },
)

-- What the Toml library promises: it skips comment lines, and decodes what it has encoded.
abbrev pub IsReadBack : Toml → Type 0
IsReadBack t =
    (is_server : Bool) (d : Document) (text : String)
    → t.encode d ≡ some text
    → t.decode (write_toml_header is_server ++ text) ≡ some (decoded d)

-- A configuration without the other side's part, and with sizes in their ranges.
pub record IsStorable (c : Config) : Type 0 where
  pub in_range : IsInRange c.common
  pub one_side : if c.is_server then c.client ≡ no_client else c.server ≡ no_server
