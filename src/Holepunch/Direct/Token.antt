-- ===== src/Holepunch/Direct/Token.antt =====
-- A direct connection is accepted by both sides exactly when the token is the session's.
use f2p.Prelude.{
  ◌==◌, ◌∙◌, ℕ, ◌≤◌, ◌≡◌, ◌≢◌, refl, ap, ◌↔◌, ◌⊎◌, inl, inr, true, List, [], ◌∷◌, Option, none,
  some, arith, length, take, if◌then◌else◌, Bool-cases, take_all,
}
use f2p.Wire.{read_full}
use f2p.Holepunch.Stun.{same_bytes}
use f2p.Holepunch.Direct.{
  authenticated, auth_rejected, token_mismatch, DialOutside, direct_dial_quic, AcceptOutside,
  accept_and_auth_quic, end_accept, end_dial,
}

pub same_bytes_iff : (s t : List ℕ) → (same_bytes s t ≡ true) ↔ (s ≡ t)
same_bytes_iff [] [] = ground arith
same_bytes_iff [] (b ∷ t) = ground arith
same_bytes_iff (a ∷ s) [] = ground arith
same_bytes_iff (a ∷ s) (b ∷ t) = ground (arith, same_bytes_iff s t)

-- The server accepts a connection exactly when its first stream has come and brings at least 16 bytes,
-- the first 16 of which are the token that it expects.
pub accept_and_auth_quic-authenticated :
    (o : AcceptOutside) (expected : List ℕ)
    → ((accept_and_auth_quic o expected).result ≡ authenticated) ↔ (
        (o.accepted ≡ true)
        × (o.stream_accepted ≡ true)
        × (16 ≤ length o.incoming)
        × (take 16 o.incoming ≡ expected))
unfolding accept_and_auth_quic end_accept read_full
accept_and_auth_quic-authenticated o expected =
    ground (arith, same_bytes_iff (take 16 o.incoming) expected)

written-end_dial :
    (token : List ℕ) (r : Option (List ℕ × List ℕ)) → (end_dial token r).written ≡ token
unfolding end_dial
written-end_dial token none = refl
written-end_dial token (some ([], rest)) = refl
written-end_dial token (some (r ∷ resp, rest)) = ground arith

module _ (d : DialOutside) (token : List ℕ) (dialed : d.dialed ≡ true)
    (opened : d.stream_opened ≡ true) (sent : d.token_written ≡ true) where
  written-direct_dial_quic : (direct_dial_quic d token).written ≡ token
  unfolding direct_dial_quic
  written-direct_dial_quic = ground (arith, written-end_dial token (read_full 1 d.response))

  answered :
      (b : ℕ)
      → d.response ≡ b ∷ []
      → direct_dial_quic d token ≡ record {
        written = token;
        closed_with = if b == 1 then none else some 1;
        result = if b == 1 then authenticated else auth_rejected;
      }
  unfolding direct_dial_quic end_dial read_full
  answered b e = ground arith

module _ (a : AcceptOutside) (expected : List ℕ) (accepted : a.accepted ≡ true)
    (opened : a.stream_accepted ≡ true) (len : length a.incoming ≡ 16) where
  compared : accept_and_auth_quic a expected ≡ (
      if same_bytes a.incoming expected
      then record { written = 1 ∷ []; closed_with = none; result = authenticated }
      else record { written = 0 ∷ []; closed_with = some 1; result = token_mismatch })
  unfolding accept_and_auth_quic end_accept read_full
  compared = ground (arith, take_all 16 a.incoming)

-- Where both sides reach each other and each reads what the other wrote, they agree: both take the
-- connection when the client's 16-byte token is the server's, and otherwise both close it with an error.
pub tokens_decide :
    (d : DialOutside) (a : AcceptOutside) (token expected : List ℕ)
    → d.dialed ≡ true
    → d.stream_opened ≡ true
    → d.token_written ≡ true
    → a.accepted ≡ true
    → a.stream_accepted ≡ true
    → length token ≡ 16
    → a.incoming ≡ (direct_dial_quic d token).written
    → d.response ≡ (accept_and_auth_quic a expected).written
    → ((token ≡ expected)
        × ((direct_dial_quic d token).result ≡ authenticated)
        × ((direct_dial_quic d token).closed_with ≡ none)
        × ((accept_and_auth_quic a expected).result ≡ authenticated)
        × ((accept_and_auth_quic a expected).closed_with ≡ none))
      ⊎ ((token ≢ expected)
          × ((direct_dial_quic d token).result ≢ authenticated)
          × ((direct_dial_quic d token).closed_with ≡ some 1)
          × ((accept_and_auth_quic a expected).result ≢ authenticated)
          × ((accept_and_auth_quic a expected).closed_with ≡ some 1))
tokens_decide d a token expected h1 h2 h3 h4 h5 len from_client from_server =
    let e : a.incoming ≡ token = from_client ∙ written-direct_dial_quic d token h1 h2 h3 in
    let c = compared a expected h4 h5 (ap length e ∙ len) in
    elim (Bool-cases (same_bytes a.incoming expected)) [
      | inl t ↦
          inl (
            ground
              (arith, e, c, t, same_bytes_iff a.incoming expected, answered d token h1 h2 h3 1))
      | inr f ↦
          inr (
            ground
              (arith, e, c, f, same_bytes_iff a.incoming expected, answered d token h1 h2 h3 0))
    ]
