-- ===== src/Pipe/Tests.antt =====
-- The theorems about a pipe at concrete inputs.
use f2p.Prelude.{◌+◌, ℕ, false, List, [], ◌∷◌, none, some}
use f2p.Pipe.{Round, Event, copies_a_to_b, copies_b_to_a, ticks, both_with_idle}
use f2p.Pipe.Copied.{IsBothCopied, both_with_idle-IsBothCopied}

abbrev reads : List ℕ → ℕ → Round
reads bytes at = record {
  bytes = bytes;
  read_fails = false;
  write_fails_at = none;
  at = at;
  written_at = at + 1;
}

-- The second write to the one side stops after a byte.
abbrev busy : List Event
busy =
    copies_a_to_b (reads (1 ∷ 2 ∷ []) 5)
    ∷ copies_b_to_a (reads (9 ∷ []) 6)
    ∷ ticks 10
    ∷ copies_a_to_b (record (reads (3 ∷ 4 ∷ []) 12) { write_fails_at = some 1 })
    ∷ []

both_with_idle-IsBothCopied_example : IsBothCopied (both_with_idle 60 0 busy)
both_with_idle-IsBothCopied_example = both_with_idle-IsBothCopied 60 0 busy
