-- ===== src/Config/Reload.antt =====
-- `Load` after `Save`.
use Prim.Native.String.{◌++◌}
use f2p.Prelude.{
  ◌≡◌, refl, sym, ap, if◌then◌else◌, ap₂, ◌∙◌, Bool, true, false, List, [], ◌∷◌, some, arith,
  String, str_eq, map, eq_iff, inl, inr, Bool-cases, Option-cases,
}
use f2p.Config.{
  Config, IdentityConfig, ServerConfig, ClientConfig, CommonConfig, ServiceConfig,
  LocalServiceConfig, MetaData, Toml, loaded, load, load_common, load_server, of_parts, clamp,
  fit_min_size,
}
use f2p.Prelude.Int.{ℤ, pos}
use f2p.Config.Loading.{IsInRange, clamp_keeps, fit_keeps}
use f2p.Config.Saving.{
  IsReadBack, IsStorable, save, document_of, toml_service, toml_local_service, service_of_toml,
  local_service_of_toml, password_field, or_empty, decoded, no_client, no_server, write_toml_header,
}

or_empty-password_field : (p : String) → or_empty (password_field p) ≡ p
or_empty-password_field p = elim (Bool-cases (str_eq p "")) [
  | inl e ↦ rw e (cc ((eq_iff p "").0 e))
  | inr e ↦ rw e refl
]

service-toml : (ss : List ServiceConfig) → map service_of_toml (map toml_service ss) ≡ ss
unfolding toml_service
service-toml [] = refl
service-toml (s ∷ ss) =
    ap (λ p. record s { password = p } ∷ map service_of_toml (map toml_service ss))
      (or_empty-password_field s.password)
    ∙ ap (λ l. s ∷ l) (service-toml ss)

local_service-toml :
    (ss : List LocalServiceConfig) → map local_service_of_toml (map toml_local_service ss) ≡ ss
unfolding toml_local_service
local_service-toml [] = refl
local_service-toml (s ∷ ss) =
    ap (λ p. record s { password = p } ∷ map local_service_of_toml (map toml_local_service ss))
      (or_empty-password_field s.password)
    ∙ ap (λ l. s ∷ l) (local_service-toml ss)

same_sizes :
    (c : CommonConfig) (level min chunk : ℤ)
    → level ≡ c.zstd_level
    → min ≡ c.zstd_min_size_b
    → chunk ≡ c.zstd_chunk_size_kb
    → record c { zstd_level = level; zstd_min_size_b = min; zstd_chunk_size_kb = chunk } ≡ c
same_sizes c level min chunk e f g = rw (e, f, g) refl

abbrev all_defined : Bool → MetaData
all_defined b = record {
  server_compress = b;
  zstd_min_size_b = true;
  zstd_chunk_size_kb = true;
  zstd_level = true;
}

-- Sizes in their ranges stay.
load_common-stored : (b : Bool) (c : CommonConfig) → IsInRange c → load_common (all_defined b) c ≡ c
unfolding load_common
load_common-stored b c r =
    let chunk : clamp (pos 8) (pos 128) c.zstd_chunk_size_kb ≡ c.zstd_chunk_size_kb =
      rw r.chunk_eq (clamp_keeps 8 128 r.chunk r.chunk_range.0 r.chunk_range.1) in
    let min : clamp (pos 32) (pos 2048) c.zstd_min_size_b ≡ c.zstd_min_size_b =
      rw r.min_eq (clamp_keeps 32 2048 r.min r.min_range.0 r.min_range.1) in
    let level : clamp (pos 1) (pos 20) c.zstd_level ≡ c.zstd_level =
      rw r.level_eq (clamp_keeps 1 20 r.level r.level_range.0 r.level_range.1) in
    let fit : fit_min_size c.zstd_min_size_b c.zstd_chunk_size_kb ≡ c.zstd_min_size_b =
      rw (r.min_eq, r.chunk_eq) (fit_keeps r.min r.chunk r.below) in
    same_sizes c _ _ _ level (ap₂ fit_min_size min chunk ∙ fit) chunk

decoded_parts :
    (b : Bool) (identity : IdentityConfig) (server : ServerConfig) (client : ClientConfig)
    (common : CommonConfig)
    → (if b then client ≡ no_client else server ≡ no_server)
    → decoded (document_of (of_parts b identity server client common))
      ≡ (of_parts b identity server client common, all_defined b)
unfolding document_of
decoded_parts true identity server client common e =
    ap
      (λ ss. (
        of_parts true identity (record server { services = ss }) no_client common,
        all_defined true,
      ))
      (service-toml server.services)
    ∙ ap (λ c. (of_parts true identity server c common, all_defined true)) (sym e)
decoded_parts false identity server client common e =
    ap
      (λ ss. (
        of_parts false identity no_server (record client { services = ss }) common,
        all_defined false,
      ))
      (local_service-toml client.services)
    ∙ ap (λ s. (of_parts false identity s client common, all_defined false)) (sym e)

load_server-stored : (b : Bool) (s : ServerConfig) → load_server b (all_defined b) s ≡ s
unfolding load_server
load_server-stored true s = refl
load_server-stored false s = refl

load_decoded :
    (t : Toml) (text : String) (c : Config)
    → IsInRange c.common
    → t.decode text ≡ some (c, all_defined c.is_server)
    → load t (some text) ≡ loaded c
unfolding load
load_decoded t text c r e =
    rw (e, load)
      (ap₂ (λ s k. loaded (record c { server = s; common = k }))
        (load_server-stored c.is_server c.server) (load_common-stored c.is_server c.common r))

-- A Toml library that reads back what it encodes: loading the file that `Save` wrote gives the saved
-- configuration, if its sizes are in their ranges and it holds only the part of its own side.
pub load-save :
    (t : Toml) (c : Config) (text : String)
    → IsReadBack t
    → IsStorable c
    → save t c ≡ some text
    → load t (some text) ≡ loaded c
unfolding save
load-save t c text reads r e = elim (Option-cases (t.encode (document_of c))) [
  | inl f ↦ ground (arith, e, f)
  | inr (body, f) ↦
      let same : write_toml_header c.is_server ++ body ≡ text = ground (arith, e, f) in
      load_decoded t text c r.in_range (
        ap t.decode (sym same)
        ∙ (reads c.is_server (document_of c) body f
            ∙ ap some (decoded_parts c.is_server c.identity c.server c.client c.common r.one_side)))
]
