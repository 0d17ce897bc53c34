-- ===== src/Holepunch/Detection.antt =====
-- DetectNAT of internal/holepunch/stun.go: what the mapped addresses say of the NAT. The sockets and the
-- answers of the servers are arguments.
pub mod Kinds
use f2p.Prelude.{
  ℕ, ◌-◌, Bool, true, false, ◌&&◌, List, [], ◌∷◌, Option, none, some, if◌then◌else◌, String, str_eq,
  length, ltb, leb, ◌==◌, map,
}
use f2p.Prelude.Int.{pos, sub_ℕ, ltb_ℤ}
use f2p.Prelude.Maps.{elem}
use f2p.Holepunch.{
  NatInfo, NatType, unknown, cone, symmetric_easy_inc, symmetric_easy_dec, symmetric_hard,
}

-- An answer of a server, the IP as its text.
pub record Mapped : Type 0 where
  pub ip : String
  pub port : ℕ

unfoldable pub unique_strings : List String → List String → List String
unfolding elem
unique_strings seen [] = []
unique_strings seen (s ∷ ss) =
    let new = s ∷ unique_strings (s ∷ seen) ss in
    let old = unique_strings seen ss in if elem str_eq s seen then old else new

-- The answers that came, in order.
abbrev pub answers : List (Option Mapped) → List Mapped
answers [] = []
answers (none ∷ qs) = answers qs
answers (some m ∷ qs) = m ∷ answers qs

unfoldable pub all_same_port : ℕ → List Mapped → Bool
all_same_port base [] = true
all_same_port base (m ∷ ms) = if m.port == base then all_same_port base ms else false

-- The ends of the sorted ports.
unfoldable pub max_port : ℕ → List Mapped → ℕ
max_port p [] = p
max_port p (m ∷ ms) = max_port (if ltb p m.port then m.port else p) ms

unfoldable pub min_port : ℕ → List Mapped → ℕ
min_port p [] = p
min_port p (m ∷ ms) = min_port (if ltb m.port p then m.port else p) ms

-- The last test, with a second socket; none: the socket or its query failed.
unfoldable pub compare_extra : ℕ → ℕ → NatInfo → Option Mapped → NatInfo
compare_extra max min info none = record info { type = symmetric_hard }
compare_extra max min info (some extra) =
    let inc = sub_ℕ extra.port max in
    let dec = sub_ℕ min extra.port in
    if ltb_ℤ (pos 0) inc && ltb_ℤ inc (pos 100)
    then record info { type = symmetric_easy_inc; public_port = extra.port }
    else (if ltb_ℤ (pos 0) dec && ltb_ℤ dec (pos 100)
        then record info { type = symmetric_easy_dec; public_port = extra.port }
        else record info { type = symmetric_hard })

-- Two answers or more: the first, and the others.
unfoldable pub classify : Mapped → List Mapped → Option Mapped → NatInfo
unfolding unique_strings all_same_port max_port min_port compare_extra
classify r rest extra =
    let info : NatInfo = record { type = unknown; public_ip = r.ip; public_port = r.port } in
    let spread = max_port r.port rest - min_port r.port rest in
    if all_same_port r.port rest
    then record info { type = cone }
    else (if ltb 1 (length (unique_strings [] (r.ip ∷ map (λ m. m.ip) rest)))
        then record info { type = symmetric_hard }
        else (if ltb 100 spread
            then record info { type = symmetric_hard }
            else compare_extra (max_port r.port rest) (min_port r.port rest) info extra))

pub data Detection : Type 0 where
  too_few_servers no_socket no_response : Detection
  one_response detected : NatInfo → Detection

abbrev pub from_answers : List Mapped → Option Mapped → Detection
from_answers [] extra = no_response
from_answers (r ∷ []) extra =
    one_response (record { type = unknown; public_ip = r.ip; public_port = r.port })
from_answers (r ∷ (s ∷ rest)) extra = detected (classify r (s ∷ rest) extra)

-- One query a server, from one socket; `listens` tells whether it could be made.
unfoldable pub detect_nat : Bool → List (Option Mapped) → Option Mapped → Detection
unfolding classify
detect_nat listens queries extra =
    if ltb (length queries) 2
    then too_few_servers
    else (if listens then from_answers (answers queries) extra else no_socket)
