-- ===== src/Client/Streams.antt =====
-- internal/client: the data streams (openDataStream and connectionInfo of connect.go) and the
-- connection of a local client (forward.go). A libp2p stream is asked for by its protocol, a QUIC
-- stream starts with a byte.
pub mod Routed
use f2p.Prelude.{
  ℕ, Bool, true, false, ◌||◌, List, [], ◌∷◌, Option, none, some, if◌then◌else◌, String, str_eq,
}
use f2p.Prelude.Maps.{lookup}
use f2p.Holepunch.Direct.{stream_type_data, stream_type_data_zstd}
use f2p.Version.{data_protocol, data_protocol_zstd}
use f2p.Client.{Client}

-- A stream of the QUIC connection with its first bytes, a stream with a protocol, or an error.
pub data Opened : Type 0 where
  quic_stream : ℕ → List ℕ → Opened
  libp2p_stream : List ℕ → Opened
  quic_not_opened type_not_written libp2p_not_opened : Opened

unfoldable pub open_data_stream : Option ℕ → List ℕ → Bool → Bool → Bool → Opened
unfolding data_protocol data_protocol_zstd
open_data_stream (some conn) base opens writes use_zstd =
    let type = if use_zstd then stream_type_data_zstd else stream_type_data in
    if opens
    then (if writes then quic_stream conn (type ∷ []) else type_not_written)
    else quic_not_opened
open_data_stream none base opens writes use_zstd =
    let proto = if use_zstd then data_protocol_zstd base else data_protocol base in
    if opens then libp2p_stream proto else libp2p_not_opened

-- The kind of the connection, from the libp2p connections' Limited flags.
pub data ConnectionKind : Type 0 where
  direct_quic libp2p_direct relay unknown_kind : ConnectionKind

-- isRelayConnection: some connection, and all are limited.
abbrev pub all_limited : List Bool → Bool
all_limited [] = true
all_limited (limited ∷ conns) = if limited then all_limited conns else false

unfoldable pub is_relay_connection : List Bool → Bool
is_relay_connection [] = false
is_relay_connection (limited ∷ conns) = all_limited (limited ∷ conns)

abbrev pub first_kind : Bool → List Bool → ConnectionKind
first_kind has_relay [] = if has_relay then relay else unknown_kind
first_kind has_relay (limited ∷ conns) =
    let rest = first_kind true conns in if limited then rest else libp2p_direct

unfoldable pub connection_info : Option ℕ → List Bool → ConnectionKind
connection_info (some conn) conns = direct_quic
connection_info none conns = first_kind false conns

-- handleLocalConnForProtocol: the decision on compression is the one kept for the service.
abbrev pub kept_decision : Client → String → Bool
kept_decision c name = elim (lookup str_eq name c.service_compress) [ some v ↦ v | none ↦ false ]

pub data LocalEnd : Type 0 where
  no_data_stream zstd_not_set_up not_available : LocalEnd
  proxies : Bool → Opened → LocalEnd

unfoldable pub after_open : Bool → Bool → Bool → Opened → LocalEnd
after_open use_zstd zstd_ok available quic_not_opened = no_data_stream
after_open use_zstd zstd_ok available type_not_written = no_data_stream
after_open use_zstd zstd_ok available libp2p_not_opened = no_data_stream
after_open use_zstd zstd_ok available o =
    let checked = if available then proxies use_zstd o else not_available in
    if use_zstd then (if zstd_ok then checked else zstd_not_set_up) else checked

unfoldable pub handle_local_conn_for_protocol :
    Client → Option ℕ → List ℕ → String → Bool → Bool → Bool → Bool → LocalEnd
unfolding open_data_stream after_open lookup
handle_local_conn_for_protocol c direct base name opens writes zstd_ok available =
    let use_zstd = kept_decision c name in
    after_open use_zstd zstd_ok available (open_data_stream direct base opens writes use_zstd)
