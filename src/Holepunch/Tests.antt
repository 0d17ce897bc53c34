-- ===== src/Holepunch/Tests.antt =====
-- The theorems of the hole punching at concrete inputs.
use f2p.Prelude.{ℕ, ◌≡◌, ◌≢◌, refl, true, List, [], ◌∷◌, none, some, arith, inl}
use f2p.Holepunch.{cone, symmetric_hard, NatInfo, punch_none, sym_to_cone, determine_punch_method}
use f2p.Holepunch.Signaling.{
  nat_signal, Signaled, signaled, Outside, server_signaling, client_signaling,
}
use f2p.Holepunch.Signaling.Agreement.{Agreed, client_after, server_signaling-Agreed}
use f2p.Holepunch.Stun.{parse_stun_binding_response}
use f2p.Holepunch.Stun.Layout.{Attribute, other, plain, xor_mapped, response, endpoint}
use f2p.Holepunch.Stun.Attributes.{parse_stun_binding_response_lem}
use f2p.Holepunch.Detection.{Mapped, classify}
use f2p.Holepunch.Detection.Kinds.{Explained, classify-Explained}

abbrev server_info : NatInfo
server_info = record { type = symmetric_hard; public_ip = "192.0.2.1"; public_port = 5000 }

abbrev client_info : NatInfo
client_info = record { type = cone; public_ip = "198.51.100.7"; public_port = 6000 }

abbrev all_well : Outside
all_well = record {
  punch_socket = inl "no socket";
  setup_error = none;
  nat_sent = true;
  ready_sent = true;
}

abbrev found : Signaled
found = record { nat = server_info; token = 1 ∷ 2 ∷ []; method = sym_to_cone; tid = 77 }

agreed_run :
    client_after 77 (
      server_signaling symmetric_hard server_info
        (1 ∷ 2 ∷ [])
        all_well
        (some (nat_signal client_info 77)))
    ≡ signaled found
unfolding server_signaling client_signaling
agreed_run = refl

server_signaling-Agreed_example :
    Agreed client_info (1 ∷ 2 ∷ []) found (
      server_signaling symmetric_hard server_info
        (1 ∷ 2 ∷ [])
        all_well
        (some (nat_signal client_info 77)))
    × (found.method ≡ determine_punch_method client_info.type symmetric_hard)
    × (found.method ≢ punch_none)
server_signaling-Agreed_example =
    server_signaling-Agreed symmetric_hard server_info client_info (1 ∷ 2 ∷ []) all_well 77 found
      agreed_run

abbrev txid : List ℕ
txid = 1 ∷ 2 ∷ 3 ∷ 4 ∷ 5 ∷ 6 ∷ 7 ∷ 8 ∷ 9 ∷ 10 ∷ 11 ∷ 12 ∷ []

-- An attribute that is skipped with its padding, a plain address and an obscured one.
abbrev three_attributes : List Attribute
three_attributes =
    record { content = other 0x8022 (65 ∷ 66 ∷ 67 ∷ []); padding = 32 ∷ [] }
    ∷ record { content = plain 0x0A000001 4096 []; padding = [] }
    ∷ record { content = xor_mapped 0xC0000201 5000 []; padding = [] }
    ∷ []

parse_stun_binding_response_lem_example :
    parse_stun_binding_response (response txid three_attributes (9 ∷ [])) txid
    ≡ some (endpoint 0xC0000201 5000)
parse_stun_binding_response_lem_example =
    parse_stun_binding_response_lem txid (9 ∷ []) three_attributes refl
      (
        ((omega arith, inl (λ e. omega arith, λ e. omega arith)), omega arith, omega arith, refl),
        (
          ((omega arith, omega arith), omega arith, omega arith, refl),
          (((omega arith, omega arith), omega arith, omega arith, refl), tt),
        ),
      )
      (omega arith)

abbrev mapped : ℕ → Mapped
mapped port = record { ip = "192.0.2.1"; port = port }

classify-Explained_example :
    Explained
      (mapped 5000)
      (mapped 5004 ∷ [])
      (some (mapped 5009))
      (classify (mapped 5000) (mapped 5004 ∷ []) (some (mapped 5009)))
classify-Explained_example =
    classify-Explained (mapped 5000) (mapped 5004 ∷ []) (some (mapped 5009))
