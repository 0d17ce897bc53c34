-- ===== src/Holepunch/Direct.antt =====
-- internal/holepunch/direct.go: the session token on the first stream of a direct QUIC connection, and
-- the bytes that tell the other streams apart. QUIC and TLS are outside: whether the connection and the
-- stream come about and which bytes arrive before the deadline are arguments.
pub mod Token
use f2p.Prelude.{ℕ, Bool, true, false, List, [], ◌∷◌, Option, none, some, if◌then◌else◌, ◌==◌}
use f2p.Wire.{read_full}
use f2p.Holepunch.Stun.{same_bytes}

abbrev pub session_token_len : ℕ
session_token_len = 16

abbrev pub stream_type_control : ℕ
stream_type_control = 0x01

abbrev pub stream_type_data : ℕ
stream_type_data = 0x02

abbrev pub stream_type_data_zstd : ℕ
stream_type_data_zstd = 0x03

-- How the authentication of a connection ends; `closed_with` is the code of CloseWithError.
pub data Authed : Type 0 where
  authenticated no_connection no_stream token_not_written response_unread auth_rejected token_unread
        token_mismatch :
      Authed

pub record Exchange : Type 0 where
  pub written : List ℕ
  pub closed_with : Option ℕ
  pub result : Authed

abbrev failed : Authed → Exchange
failed result = record { written = []; closed_with = some 1; result = result }

-- DirectDialQUIC: what the calls give, and the bytes of the response.
pub record DialOutside : Type 0 where
  pub dialed : Bool
  pub stream_opened : Bool
  pub token_written : Bool
  pub response : List ℕ

unfoldable pub end_dial : List ℕ → Option (List ℕ × List ℕ) → Exchange
end_dial token none = record { written = token; closed_with = some 1; result = response_unread }
end_dial token (some ([], rest)) = record {
  written = token;
  closed_with = some 1;
  result = response_unread;
}
end_dial token (some (r ∷ resp, rest)) =
    if r == 0x01
    then record { written = token; closed_with = none; result = authenticated }
    else record { written = token; closed_with = some 1; result = auth_rejected }

unfoldable pub direct_dial_quic : DialOutside → List ℕ → Exchange
unfolding end_dial read_full
direct_dial_quic o token =
    if o.dialed
    then (if o.stream_opened
        then (if o.token_written
            then end_dial token (read_full 1 o.response)
            else failed token_not_written)
        else failed no_stream)
    else record { written = []; closed_with = none; result = no_connection }

-- AcceptAndAuthQUIC: the bytes that the client's first stream brings.
pub record AcceptOutside : Type 0 where
  pub accepted : Bool
  pub stream_accepted : Bool
  pub incoming : List ℕ

unfoldable pub end_accept : List ℕ → Option (List ℕ × List ℕ) → Exchange
end_accept expected none = failed token_unread
end_accept expected (some (token, rest)) =
    if same_bytes token expected
    then record { written = 0x01 ∷ []; closed_with = none; result = authenticated }
    else record { written = 0x00 ∷ []; closed_with = some 1; result = token_mismatch }

unfoldable pub accept_and_auth_quic : AcceptOutside → List ℕ → Exchange
unfolding end_accept read_full
accept_and_auth_quic o expected =
    if o.accepted
    then (if o.stream_accepted
        then end_accept expected (read_full session_token_len o.incoming)
        else failed no_stream)
    else record { written = []; closed_with = none; result = no_connection }
