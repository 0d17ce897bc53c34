-- ===== src/Client/Streams/Routed.antt =====
-- The server takes a client's data stream for what it is, compressed or not.
use f2p.Prelude.{
  subst, ℕ, ◌≡◌, refl, sym, ◌∙◌, Bool, true, false, List, [], ◌∷◌, Option, none, some, arith,
  if◌then◌else◌, String, str_eq,
}
use f2p.Prelude.Maps.{lookup}
use f2p.Version.{is_zstd}
use f2p.Version.Names.{is_zstd-data_protocol}
use f2p.Config.{Config}
use f2p.Proto.{UnifiedMessage}
use f2p.Server.{will_compress}
use f2p.Server.Sessions.{data_stream, route_quic_stream}
use f2p.Client.{Client}
use f2p.Client.Verified.{Granted}
use f2p.Client.Streams.{
  Opened, quic_stream, libp2p_stream, quic_not_opened, type_not_written, libp2p_not_opened,
  open_data_stream, kept_decision, proxies, not_available, zstd_not_set_up, after_open,
  handle_local_conn_for_protocol,
}

abbrev first_byte : List ℕ → Option ℕ
first_byte [] = none
first_byte (b ∷ bs) = some b

-- How the server reads an opened stream: by its first byte or by the suffix of its protocol.
abbrev pub IsReadAs : Bool → Opened → Type 0
IsReadAs compressed (quic_stream conn bytes) =
    route_quic_stream (first_byte bytes) ≡ data_stream compressed
IsReadAs compressed (libp2p_stream proto) = is_zstd proto ≡ compressed
IsReadAs compressed quic_not_opened = Unit
IsReadAs compressed type_not_written = Unit
IsReadAs compressed libp2p_not_opened = Unit

-- Every data stream that the client opens, over QUIC or libp2p and whatever the base of the protocols,
-- is taken by the server for a data stream with the compression that the client uses.
pub open_data_stream-IsReadAs :
    (direct : Option ℕ) (base : List ℕ) (opens writes use_zstd : Bool)
    → IsReadAs use_zstd (open_data_stream direct base opens writes use_zstd)
unfolding open_data_stream route_quic_stream
open_data_stream-IsReadAs (some conn) base true true true = refl
open_data_stream-IsReadAs (some conn) base true true false = refl
open_data_stream-IsReadAs (some conn) base true false use_zstd = tt
open_data_stream-IsReadAs (some conn) base false writes use_zstd = tt
open_data_stream-IsReadAs none base true writes true = (is_zstd-data_protocol base).0
open_data_stream-IsReadAs none base true writes false = (is_zstd-data_protocol base).1
open_data_stream-IsReadAs none base false writes use_zstd = tt

passed :
    (z zstd_ok available u : Bool) (o o' : Opened)
    → (if z
        then (if zstd_ok
            then (if available then proxies z o else not_available)
            else zstd_not_set_up)
        else (if available then proxies z o else not_available))
      ≡ proxies u o'
    → (z ≡ u) × (o ≡ o')
passed true true true u o o' h = (ground arith, cc)
passed true true false u o o' h = absurd (ground arith)
passed true false available u o o' h = absurd (ground arith)
passed false zstd_ok true u o o' h = (ground arith, cc)
passed false zstd_ok false u o o' h = absurd (ground arith)

after_open-proxies :
    (z zstd_ok available u : Bool) (o o' : Opened)
    → after_open z zstd_ok available o ≡ proxies u o'
    → (z ≡ u) × (o ≡ o')
unfolding after_open
after_open-proxies z zstd_ok available u (quic_stream c b) o' h =
    passed z zstd_ok available u (quic_stream c b) o' h
after_open-proxies z zstd_ok available u (libp2p_stream p) o' h =
    passed z zstd_ok available u (libp2p_stream p) o' h
after_open-proxies z zstd_ok available u quic_not_opened o' h = ground arith
after_open-proxies z zstd_ok available u type_not_written o' h = ground arith
after_open-proxies z zstd_ok available u libp2p_not_opened o' h = ground arith

kept_is :
    (cl : Client) (name : String) (b : Bool)
    → lookup str_eq name cl.service_compress ≡ some b
    → kept_decision cl name ≡ b
kept_is cl name b h = ground arith

-- A connection that the client proxies for a verified service is compressed exactly if the server's
-- configuration says so for that service, and the server reads its stream that way.
pub proxied_compression :
    (c : Config) (m : UnifiedMessage) (name : String) (cl : Client) (g : Granted c m name cl)
    (direct : Option ℕ) (base : List ℕ) (opens writes zstd_ok available used : Bool) (o : Opened)
    → handle_local_conn_for_protocol cl direct base name opens writes zstd_ok available
      ≡ proxies used o
    → (used ≡ will_compress c g.service) × IsReadAs used o
unfolding handle_local_conn_for_protocol
proxied_compression c m name cl g direct base opens writes zstd_ok available used o h =
    let z = kept_decision cl name in
    let (e, f) =
      after_open-proxies z zstd_ok available used (open_data_stream direct base opens writes z) o
        h in
    (
      sym e ∙ kept_is cl name (will_compress c g.service) g.kept,
      subst (λ (x : Bool). IsReadAs x o) e
          (subst (λ (y : Opened). IsReadAs z y) f
            (open_data_stream-IsReadAs direct base opens writes z)),
    )
