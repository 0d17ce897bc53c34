-- ===== src/Server/Data.antt =====
-- internal/server/handlers_data.go and proxy.go: a data stream from its acceptance to the end of its
-- proxying. Whether zstd can be set up, what is received, whether the answer can be sent and whether
-- the target can be dialed are arguments.
pub mod Granted
use f2p.Prelude.{
  ℕ, Bool, true, false, List, [], ◌∷◌, Option, none, some, if◌then◌else◌, String, str_eq, ◌||◌,
}
use f2p.Proto.{UnifiedMessage}
use f2p.Config.{Config, ServiceConfig}
use f2p.Server.{Registry, Handshake, proxied, handle_service_handshake}

-- connectAndProxy: which network and address are dialed, and whether it succeeds. After the proxying
-- both sides are closed; an unknown protocol is no error.
pub data Proxy : Type 0 where
  piped : String → String → Proxy
  dial_failed : String → String → Proxy
  unknown_protocol : Proxy

unfoldable pub connect_and_proxy : (String → String → Bool) → String → String → Proxy
connect_and_proxy dials protocol target =
    let dialed =
      if dials protocol target then piped protocol target else dial_failed protocol target in
    if str_eq protocol "tcp" || str_eq protocol "udp" then dialed else unknown_protocol

pub data DataEnd : Type 0 where
  zstd_failed : DataEnd
  handshake_failed : Handshake → DataEnd
  forwarded : Proxy → DataEnd

-- handleDataConnection: the messages sent and the end.
pub record DataRun : Type 0 where
  pub sent : List UnifiedMessage
  pub end_of : DataEnd

abbrev asked_protocol : Option UnifiedMessage → String
asked_protocol none = ""
asked_protocol (some m) = m.protocol

abbrev pub forward : (String → String → Bool) → String → Handshake → DataEnd
forward dials protocol (proxied s) = forwarded (connect_and_proxy dials protocol s.target)
forward dials protocol failure = handshake_failed failure

unfoldable pub handle_data_connection :
    Config
    → Registry
    → (String → String → Bool)
    → Bool
    → Bool
    → Option UnifiedMessage
    → Bool
    → DataRun
unfolding handle_service_handshake connect_and_proxy
handle_data_connection c r dials use_zstd zstd_ok received sent_ok =
    let (sent, outcome) = handle_service_handshake c r received sent_ok in
    let run : DataRun = record {
      sent = sent;
      end_of = forward dials (asked_protocol received) outcome;
    } in
    if use_zstd then (if zstd_ok then run else record { sent = []; end_of = zstd_failed }) else run

-- Is the stream closed when the handler returns?
abbrev pub is_closed : DataEnd → Bool
is_closed zstd_failed = true
is_closed (forwarded (piped protocol target)) = true
is_closed _ = false
