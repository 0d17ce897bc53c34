-- ===== src/Server/Direct.antt =====
-- internal/server/handlers_holepunch.go: the request for a hole punch, and the punch with the direct
-- connection that follows it. What the STUN servers, the peers and QUIC do is an argument.
pub mod Leaks
use f2p.Prelude.{ℕ, Bool, true, false, List, [], ◌∷◌, Option, none, some, if◌then◌else◌, String}
use f2p.Holepunch.{NatInfo, SignalMsg}
use f2p.Holepunch.Signaling.{Outside, Prepared, ServerRun, server_signaling}
use f2p.Holepunch.Sockets.{Net, close}
use f2p.Holepunch.Punch.{PunchedSocket, PunchResult, punched}
use f2p.Holepunch.Punch
use f2p.Holepunch.Execute.{execute_punch, close_given}
use f2p.Holepunch.Direct.{AcceptOutside, Authed, authenticated, accept_and_auth_quic}

-- natInfo and natDetected, of the server and of the client.
pub record NatState : Type 0 where
  pub nat_info : Option NatInfo
  pub nat_detected : Bool

-- detectNATType, from what DetectNAT gives; after an error nothing is changed.
unfoldable pub detect_nat_type : Option NatInfo → NatState → NatState
detect_nat_type none s = s
detect_nat_type (some info) s = record { nat_info = some info; nat_detected = true }

-- Without servers in the configuration, the package's own.
abbrev pub default_stun_servers : List String
default_stun_servers =
    "stun.l.google.com:19302" ∷ "stun1.l.google.com:19302" ∷ "stun.cloudflare.com:3478" ∷ []

abbrev pub stun_servers_of : List String → List String
stun_servers_of [] = default_stun_servers
stun_servers_of (s ∷ ss) = s ∷ ss

-- handleHolePunchSignaling: the stream is reset, or the signalling runs; a punch is started exactly
-- when it has called back. The session token is what the random reader gives, or an error.
pub data PunchRequest : Type 0 where
  reset_stream : PunchRequest
  signals : ServerRun → PunchRequest

unfoldable pub handle_hole_punch_signaling :
    NatState → Option (List ℕ) → Outside → Option SignalMsg → PunchRequest
unfolding server_signaling
handle_hole_punch_signaling s token o request =
    if s.nat_detected
    then elim s.nat_info [
      | none ↦ reset_stream
      | some info ↦ elim token [
        | none ↦ reset_stream
        | some t ↦ signals (server_signaling info.type info t o request)
      ]
    ]
    else reset_stream

-- handlePunchAndQUIC up to the handling of the connection's streams.
pub data Direct : Type 0 where
  punch_failed : PunchResult → Direct
  listen_failed : PunchedSocket → Direct
  auth_failed : PunchedSocket → Authed → Direct
  connected : PunchedSocket → Direct

abbrev pub after_auth : PunchedSocket → Authed → Direct
after_auth p authenticated = connected p
after_auth p other = auth_failed p other

unfoldable pub after_punch :
    Bool → AcceptOutside → List ℕ → Option ℕ → Net × PunchResult → Net × Direct
unfolding close close_given accept_and_auth_quic
after_punch listens a token sock (net, punched p) =
    if listens
    then (net, after_auth p (accept_and_auth_quic a token).result)
    else (close p.conn net, listen_failed p)
after_punch listens a token sock (net, failure) = (close_given sock net, punch_failed failure)

unfoldable pub handle_punch_and_quic :
    Punch.Outside → Bool → AcceptOutside → List ℕ → Prepared → Option ℕ → Net → Net × Direct
unfolding execute_punch after_punch
handle_punch_and_quic o listens a token p sock net =
    after_punch listens a token sock
      (execute_punch o p.my_nat.type p.client_nat p.method p.tid sock net)
