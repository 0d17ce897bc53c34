-- ===== src/Server/Data/Granted.antt =====
-- Only granted requests reach a target.
use mathlib.Core.List.{Memᴰ}
use f2p.Prelude.{
  subst, ◌≡◌, refl, ◌⊎◌, Bool, true, false, List, [], ◌∷◌, some, arith, if◌then◌else◌, String,
  str_eq, eq_iff, ◌||◌,
}
use f2p.Proto.{UnifiedMessage, service_request, eq_type}
use f2p.Config.{Config, ServiceConfig}
use f2p.Server.{
  new_registry, Answer, validate_service_request, answer_message, Handshake, proxied, not_received,
  not_granted, not_sent, bad_format, wrong_type, finish_handshake, handle_service_handshake,
}
use f2p.Server.Requests.{
  Asks, Answered, accepted, bad_request, not_found, disabled, unsupported, no_password,
  wrong_password,
}
use f2p.Server.Requests.Decision.{validate_service_request-Answered}
use f2p.Server.Data.{
  Proxy, piped, dial_failed, DataRun, zstd_failed, forward, forwarded, connect_and_proxy,
  handle_data_connection,
}

-- A request for an enabled service that supports the protocol, with its password if it has one.
pub record Entitled (c : Config) (m : UnifiedMessage) (s : ServiceConfig) : Type 0 where
  pub asks : Asks c m s
  pub enabled : s.enabled ≡ true
  pub supports : Memᴰ m.protocol s.protocol
  pub password : (s.password ≡ "") ⊎ (m.service_password ≡ s.password)

granted-Entitled :
    (c : Config) (m : UnifiedMessage) (a : Answer)
    → Answered c m a
    → (s : ServiceConfig) (ok : Bool) → finish_handshake a ok ≡ proxied s
    → Entitled c m s
granted-Entitled c m _ (accepted s' asks on supports pw) s true h =
    let e : s' ≡ s = cc in
    subst (Entitled c m) e
      (record { asks = asks; enabled = on; supports = supports; password = pw })
granted-Entitled c m _ (accepted s' asks on supports pw) s false h = ground arith
granted-Entitled c m _ (bad_request text x) s ok h = ground arith
granted-Entitled c m _ (not_found text x y) s ok h = ground arith
granted-Entitled c m _ (disabled s' text x y) s ok h = ground arith
granted-Entitled c m _ (unsupported s' text x y z) s ok h = ground arith
granted-Entitled c m _ (no_password s' text x y z w) s ok h = ground arith
granted-Entitled c m _ (wrong_password s' text x y z w) s ok h = ground arith

abbrev guarded : Bool → Bool → List UnifiedMessage → Handshake → List UnifiedMessage × Handshake
guarded b1 b2 l o = if b1 then (if b2 then ([], bad_format) else (l, o)) else ([], wrong_type)

by_tests :
    (b1 b2 : Bool) (l : List UnifiedMessage) (o : Handshake) (s : ServiceConfig)
    → (guarded b1 b2 l o).1 ≡ proxied s
    → o ≡ proxied s
by_tests true true l o s h = ground arith
by_tests true false l o s h = h
by_tests false b2 l o s h = ground arith

proxied-Entitled :
    (c : Config) (m : UnifiedMessage) (ok : Bool) (s : ServiceConfig)
    → (handle_service_handshake c (new_registry c) (some m) ok).1 ≡ proxied s
    → Entitled c m s
unfolding handle_service_handshake
proxied-Entitled c m ok s h =
    let answer = validate_service_request c (new_registry c) m in
    granted-Entitled c m answer (validate_service_request-Answered c m) s ok (
      by_tests (eq_type m.type service_request) (str_eq m.service_name "" || str_eq m.protocol "")
        (answer_message answer ∷ []) (finish_handshake answer ok) s h)

dialed-connect_and_proxy :
    (dials : String → String → Bool) (pr t protocol target : String) (p : Proxy)
    → connect_and_proxy dials pr t ≡ p
    → (p ≡ piped protocol target) ⊎ (p ≡ dial_failed protocol target)
    → (t ≡ target) × (pr ≡ protocol) × ((pr ≡ "tcp") ⊎ (pr ≡ "udp"))
unfolding connect_and_proxy
dialed-connect_and_proxy dials pr t protocol target p h k =
    ground (arith, eq_iff pr "tcp", eq_iff pr "udp")

-- An end that forwards comes from a handshake that found a service.
forwarded-found :
    (dials : String → String → Bool) (pr : String) (o : Handshake) (p : Proxy)
    → forward dials pr o ≡ forwarded p
    → (s : ServiceConfig) × (o ≡ proxied s) × (connect_and_proxy dials pr s.target ≡ p)
forwarded-found dials pr (proxied s) p h = (s, refl, cc)
forwarded-found dials pr not_received p h = absurd (ground arith)
forwarded-found dials pr wrong_type p h = absurd (ground arith)
forwarded-found dials pr bad_format p h = absurd (ground arith)
forwarded-found dials pr not_granted p h = absurd (ground arith)
forwarded-found dials pr not_sent p h = absurd (ground arith)

abbrev chosen : Bool → Bool → DataRun → DataRun
chosen use_zstd zstd_ok run =
    if use_zstd then (if zstd_ok then run else record { sent = []; end_of = zstd_failed }) else run

forwarded-chosen :
    (use_zstd zstd_ok : Bool) (run : DataRun) (p : Proxy)
    → (chosen use_zstd zstd_ok run).end_of ≡ forwarded p
    → run.end_of ≡ forwarded p
forwarded-chosen true true run p h = h
forwarded-chosen true false run p h = absurd (ground arith)
forwarded-chosen false zstd_ok run p h = h

-- A target that the server dials for a data stream is the target of the last service under the
-- requested name, which is enabled, supports the protocol and has the password that was given if it has
-- one; the protocol that is dialed is the requested one, tcp or udp.
pub dialed-Entitled :
    (c : Config) (dials : String → String → Bool) (use_zstd zstd_ok : Bool) (m : UnifiedMessage)
    (sent_ok : Bool) (p : Proxy) (protocol target : String)
    → (handle_data_connection c (new_registry c) dials use_zstd zstd_ok (some m) sent_ok).end_of
      ≡ forwarded p
    → (p ≡ piped protocol target) ⊎ (p ≡ dial_failed protocol target)
    → (s : ServiceConfig) × Entitled c m s
      × (s.target ≡ target)
      × (m.protocol ≡ protocol)
      × ((protocol ≡ "tcp") ⊎ (protocol ≡ "udp"))
unfolding handle_data_connection
dialed-Entitled c dials use_zstd zstd_ok m sent_ok p protocol target h k =
    let hs = handle_service_handshake c (new_registry c) (some m) sent_ok in
    let run : DataRun = record { sent = hs.0; end_of = forward dials m.protocol hs.1 } in
    let (s, e, f) =
      forwarded-found dials m.protocol hs.1 p (forwarded-chosen use_zstd zstd_ok run p h) in
    let (t, pr, net) = dialed-connect_and_proxy dials m.protocol s.target protocol target p f k in
    (s, proxied-Entitled c m sent_ok s e, t, pr, ground arith)
