-- ===== src/Holepunch/Signaling/Agreement.antt =====
-- What the two sides of the signalling agree on, and the messages' round trip.
use f2p.Prelude.{
  ℕ, ◌≡◌, ◌≢◌, refl, sym, ap, subst, ◌∙◌, ◌⊎◌, inl, inr, Bool, true, false, List, [], ◌∷◌, Option,
  none, some, arith, Bool-cases, String,
}
use f2p.Holepunch.{NatType, NatInfo, punch_none, SignalMsg, determine_punch_method}
use f2p.Holepunch.Signaling.{
  nat_signal, Signaled, ClientResult, signaled, client_signaling, Prepared, completed, ServerRun,
  Outside, offer, server_nat, is_none_method, answer_signal, server_signaling,
}

abbrev pub first : List SignalMsg → Option SignalMsg
first [] = none
first (m ∷ ms) = some m

abbrev pub second : List SignalMsg → Option SignalMsg
second [] = none
second (m ∷ ms) = first ms

-- What the client concludes from the messages that the server sent, in order.
abbrev pub client_after : ℕ → ServerRun → ClientResult
client_after tid run = client_signaling tid (first run.sent) (second run.sent)

-- The server has prepared the punch that the client has in mind.
pub record Agreed (my_nat : NatInfo) (token : List ℕ) (found : Signaled) (run : ServerRun)
    : Type 0 where
  pub prepared : Prepared
  pub called : run.prepared ≡ some prepared
  pub finished : run.result ≡ completed
  pub same_client : prepared.client_nat ≡ my_nat
  pub same_server : prepared.my_nat ≡ found.nat
  pub same_method : prepared.method ≡ found.method
  pub same_tid : prepared.tid ≡ found.tid
  pub same_token : found.token ≡ token

abbrev signaled_or : Signaled → ClientResult → Signaled
signaled_or d (signaled found) = found
signaled_or d _ = d

parts-Agreed :
    (k : String ⊎ NatInfo) (setup : Option String) (a b : Bool) (token : List ℕ) (p : Prepared)
    (found : Signaled)
    → client_after p.tid (
        offer
          (record { punch_socket = k; setup_error = setup; nat_sent = a; ready_sent = b })
          token
          p)
      ≡ signaled found
    → Agreed p.client_nat token found (
        offer
          (record { punch_socket = k; setup_error = setup; nat_sent = a; ready_sent = b })
          token
          p)
      × (found.method ≡ p.method)
unfolding offer client_signaling
parts-Agreed k setup false b token p found e = ground arith
parts-Agreed k (some text) true b [] p found e = ground arith
parts-Agreed k (some text) true b (t ∷ ts) p found e = ground arith
parts-Agreed k none true false [] p found e = ground arith
parts-Agreed k none true false (t ∷ ts) p found e = ground arith
parts-Agreed k none true true [] p found e = ground arith
parts-Agreed k none true true (t ∷ ts) p found e =
    let same = ap (signaled_or found) e in
    (
      record {
        prepared = p;
        called = refl;
        finished = refl;
        same_client = refl;
        same_server = ap (λ s. s.nat) same;
        same_method = ap (λ s. s.method) same;
        same_tid = ap (λ s. s.tid) same;
        same_token = sym (ap (λ s. s.token) same);
      },
      sym (ap (λ s. s.method) same),
    )

-- The handler offers a punch, or the client does not succeed.
answer_cases :
    (cached : NatType) (info client_nat : NatInfo) (token : List ℕ) (o : Outside) (tid : ℕ)
    (found : Signaled)
    → ((my_nat : NatInfo) × (answer_signal cached info token o client_nat tid
          ≡ offer o token (record {
            my_nat = my_nat;
            client_nat = client_nat;
            method = determine_punch_method client_nat.type cached;
            tid = tid;
          }))
        × (determine_punch_method client_nat.type cached ≢ punch_none))
      ⊎ (client_after tid (answer_signal cached info token o client_nat tid) ≢ signaled found)
unfolding answer_signal client_signaling
answer_cases cached info client_nat token o tid found =
    elim (Bool-cases (is_none_method (determine_punch_method client_nat.type cached))) [
      | inl e ↦ inr (λ f. ground (arith, e, f))
      | inr e ↦ go e (server_nat cached info o.punch_socket) refl
    ]
  where
    go :
        is_none_method (determine_punch_method client_nat.type cached) ≡ false
        → (n : String ⊎ NatInfo) → server_nat cached info o.punch_socket ≡ n
        → ((my_nat : NatInfo) × (answer_signal cached info token o client_nat tid
              ≡ offer o token (record {
                my_nat = my_nat;
                client_nat = client_nat;
                method = determine_punch_method client_nat.type cached;
                tid = tid;
              }))
            × (determine_punch_method client_nat.type cached ≢ punch_none))
          ⊎ (client_after tid (answer_signal cached info token o client_nat tid) ≢ signaled found)
    go e (inl text) f = inr (λ g. ground (arith, e, f, g))
    go e (inr nat) f =
        inl (nat, ground (arith, e, f), λ g. absurd (ground (arith, e, ap is_none_method g)))

-- When the client's side of the signalling succeeds on the messages that the server sent, the server
-- has finished too and has called for a punch with the same method and transaction id, between the
-- client's data as the client sent them and the data that the client was given; the method is the one
-- for the two kinds of NAT, and the token is the server's.
pub server_signaling-Agreed :
    (cached : NatType) (info my_nat : NatInfo) (token : List ℕ) (o : Outside) (tid : ℕ)
    (found : Signaled)
    → client_after tid (server_signaling cached info token o (some (nat_signal my_nat tid)))
      ≡ signaled found
    → Agreed my_nat token found
        (server_signaling cached info token o (some (nat_signal my_nat tid)))
      × (found.method ≡ determine_punch_method my_nat.type cached)
      × (found.method ≢ punch_none)
unfolding server_signaling
server_signaling-Agreed cached info my_nat token o tid found e =
    elim (answer_cases cached info my_nat token o tid found) [
      | inr bad ↦ absurd (bad e)
      | inl (nat, same, some_method) ↦
          let (agreed, method) =
            parts-Agreed o.punch_socket o.setup_error o.nat_sent o.ready_sent token _ found
              (ap (client_after tid) (sym same) ∙ e) in
          (
            subst (Agreed my_nat token found) (sym same) agreed,
            method,
            λ f. some_method (sym method ∙ f),
          )
    ]
