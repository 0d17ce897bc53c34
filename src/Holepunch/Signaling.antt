-- ===== src/Holepunch/Signaling.antt =====
-- internal/holepunch/signaling.go: the messages over a stream, and the two sides of the exchange.
-- The JSON library, the sockets and what the sends return are arguments.
pub mod Agreement
pub mod Messages
use Prim.Native.String.{◌++◌}
use f2p.Prelude.{
  ℕ, ◌%◌, Bool, true, false, List, [], ◌∷◌, Option, none, some, if◌then◌else◌, String, str_eq,
  length, ltb, ◌==◌, ◌⊎◌, inl, inr,
}
use f2p.Wire.{put_u32, get_u32, read_full}
use f2p.Compress.{Base, base_write}
use f2p.Holepunch.{
  NatType, NatInfo, PunchMethod, punch_none, SignalMsg, determine_punch_method, is_cone, nat_name,
}

-- encoding/json for SignalMsg.
pub record Json : Type 0 where
  pub marshal : SignalMsg → Option (List ℕ)
  pub unmarshal : List ℕ → Option SignalMsg

abbrev pub max_signal_len : ℕ
max_signal_len = 65536

-- The length, then the message; the second write is made only after the first.
unfoldable pub write_signal_msg : Json → Base → SignalMsg → Base × Bool
unfolding put_u32 base_write
write_signal_msg j w msg = elim (j.marshal msg) [
  | none ↦ (w, false)
  | some data' ↦
      let (w1, ok) = base_write w (put_u32 (length data' % 4294967296)) in
      let last = base_write w1 data' in if ok then last else (w1, false)
]

unfoldable pub read_sized_signal : Json → ℕ → List ℕ → Option (SignalMsg × List ℕ)
unfolding read_full
read_sized_signal j len bytes =
    if ltb max_signal_len len then none else elim (read_full len bytes) [
      | none ↦ none
      | some (data', rest) ↦ elim (j.unmarshal data') [ none ↦ none | some msg ↦ some (msg, rest) ]
    ]

-- From the bytes that are to come; none is an error.
unfoldable pub read_signal_msg : Json → List ℕ → Option (SignalMsg × List ℕ)
unfolding read_sized_signal get_u32
read_signal_msg j (a ∷ b ∷ c ∷ d ∷ bytes) = read_sized_signal j (get_u32 a b c d) bytes
read_signal_msg j _ = none

abbrev pub no_signal : SignalMsg
no_signal = record {
  nat_info = none;
  punch_ready = false;
  method = punch_none;
  tid = 0;
  success = false;
  session_token = [];
  error = "";
}

abbrev pub nat_signal : NatInfo → ℕ → SignalMsg
nat_signal my_nat tid = record no_signal { nat_info = some my_nat; tid = tid }

abbrev pub error_signal : String → SignalMsg
error_signal text = record no_signal { error = text }

-- What ClientSignaling returns: the server's data, the token, the method and its own id.
pub record Signaled : Type 0 where
  pub nat : NatInfo
  pub token : List ℕ
  pub method : PunchMethod
  pub tid : ℕ

pub data ClientResult : Type 0 where
  signaled : Signaled → ClientResult
  response_unread no_nat_info no_token ready_unread : ClientResult
  server_error not_ready : String → ClientResult

-- The part after the response has been found good.
unfoldable pub await_ready : Signaled → Option SignalMsg → ClientResult
await_ready found none = ready_unread
await_ready found (some ready) = if ready.punch_ready then signaled found else not_ready ready.error

-- ClientSignaling after its first message was sent, from the two messages that it reads.
unfoldable pub client_signaling : ℕ → Option SignalMsg → Option SignalMsg → ClientResult
unfolding await_ready
client_signaling tid none ready = response_unread
client_signaling tid (some resp) ready =
    if str_eq resp.error ""
    then elim resp.nat_info [
      | none ↦ no_nat_info
      | some nat ↦ elim resp.session_token [
        | [] ↦ no_token
        | t ∷ ts ↦
            await_ready (record { nat = nat; token = t ∷ ts; method = resp.method; tid = tid })
              ready
      ]
    ]
    else server_error resp.error

-- The call of onPunchReady.
pub record Prepared : Type 0 where
  pub my_nat : NatInfo
  pub client_nat : NatInfo
  pub method : PunchMethod
  pub tid : ℕ

pub data ServerResult : Type 0 where
  completed request_unread nat_info_missing no_method socket_failed nat_not_sent setup_failed
        ready_not_sent :
      ServerResult

-- What the handler has done: the messages it has sent, its call of onPunchReady, its result.
pub record ServerRun : Type 0 where
  pub sent : List SignalMsg
  pub prepared : Option Prepared
  pub result : ServerResult

-- What the code outside gives: the socket's data or an error's text, the error of onPunchReady, and
-- whether the two messages are sent. (A send of an error is not checked.)
pub record Outside : Type 0 where
  pub punch_socket : String ⊎ NatInfo
  pub setup_error : Option String
  pub nat_sent : Bool
  pub ready_sent : Bool

-- From the message with the server's data on.
unfoldable pub offer : Outside → List ℕ → Prepared → ServerRun
offer o token p =
    let nat = record no_signal {
      nat_info = some p.my_nat;
      method = p.method;
      session_token = token;
      tid = p.tid;
    } in
    if o.nat_sent
    then elim o.setup_error [
      | some text ↦ record {
        sent = nat ∷ (error_signal ("server punch setup failed: " ++ text) ∷ []);
        prepared = some p;
        result = setup_failed;
      }
      | none ↦
          if o.ready_sent
          then record {
            sent = nat ∷ (record no_signal { punch_ready = true } ∷ []);
            prepared = some p;
            result = completed;
          }
          else record { sent = nat ∷ []; prepared = some p; result = ready_not_sent }
    ]
    else record { sent = []; prepared = none; result = nat_not_sent }

-- The server's data: of a new socket if it is a cone, else those found at the start.
abbrev pub server_nat : NatType → NatInfo → String ⊎ NatInfo → String ⊎ NatInfo
server_nat cached info made =
    if is_cone cached
    then elim made [ inl text ↦ inl text | inr nat ↦ inr (record nat { type = cached }) ]
    else inr (record info { type = cached })

abbrev pub is_none_method : PunchMethod → Bool
is_none_method punch_none = true
is_none_method _ = false

-- The handler once the client's data are there.
unfoldable pub answer_signal : NatType → NatInfo → List ℕ → Outside → NatInfo → ℕ → ServerRun
unfolding offer determine_punch_method is_cone
answer_signal cached info token o client_nat tid =
    let method = determine_punch_method client_nat.type cached in
    if is_none_method method
    then record {
      sent =
          error_signal (
            "no viable punch method: client="
            ++ (nat_name client_nat.type ++ (" server=" ++ nat_name cached)))
          ∷ [];
      prepared = none;
      result = no_method;
    }
    else elim (server_nat cached info o.punch_socket) [
      | inl text ↦ record {
        sent = error_signal ("create punch socket: " ++ text) ∷ [];
        prepared = none;
        result = socket_failed;
      }
      | inr my_nat ↦
          offer o token
            (record { my_nat = my_nat; client_nat = client_nat; method = method; tid = tid })
    ]

unfoldable pub server_signaling :
    NatType → NatInfo → List ℕ → Outside → Option SignalMsg → ServerRun
unfolding answer_signal
server_signaling cached info token o none = record {
  sent = [];
  prepared = none;
  result = request_unread;
}
server_signaling cached info token o (some msg) = elim msg.nat_info [
  | none ↦ record {
    sent = error_signal "missing NAT info" ∷ [];
    prepared = none;
    result = nat_info_missing;
  }
  | some client_nat ↦ answer_signal cached info token o client_nat msg.tid
]
