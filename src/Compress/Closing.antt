-- ===== src/Compress/Closing.antt =====
-- Close of internal/compress/zstd.go; the rest of what it does is a log line. What the connection's own
-- Close returns is an argument.
use f2p.Prelude.{
  ℕ, ◌+◌, ◌≡◌, refl, ap, Bool, true, false, List, [], ◌∷◌, Option, none, All, String, if◌then◌else◌,
}

pub record Closing : Type 0 where
  pub close_once : Bool
  pub close_err : Option String
  pub base_closes : ℕ

abbrev pub not_closed : Closing
not_closed = record { close_once = false; close_err = none; base_closes = 0 }

unfoldable pub close : Option String → Closing → Closing × Option String
close base_err c =
    let closed : Closing = record {
      close_once = true;
      close_err = base_err;
      base_closes = c.base_closes + 1;
    } in
    if c.close_once then (c, c.close_err) else (closed, base_err)

-- A series of calls, and what they return.
abbrev pub close_all : List (Option String) → Closing → Closing × List (Option String)
close_all [] c = (c, [])
close_all (e ∷ es) c = let (c', r) = close e c in let (c'', rs) = close_all es c' in (c'', r ∷ rs)

abbrev closed_with : Option String → ℕ → Closing
closed_with e k = record { close_once = true; close_err = e; base_closes = k }

close_all-closed_with :
    (es : List (Option String)) (e : Option String) (k : ℕ)
    → ((close_all es (closed_with e k)).0 ≡ closed_with e k)
      × All (λ r. r ≡ e) (close_all es (closed_with e k)).1
unfolding close
close_all-closed_with [] e k = (refl, tt)
close_all-closed_with (f ∷ es) e k =
    let (same, all) = close_all-closed_with es e k in (same, (refl, all))

-- However often a duplex is closed, its connection is closed once, and every call returns what that one
-- close returned.
pub close_all_once :
    (e : Option String) (es : List (Option String))
    → ((close_all (e ∷ es) not_closed).0.base_closes ≡ 1)
      × All (λ r. r ≡ e) (close_all (e ∷ es) not_closed).1
unfolding close
close_all_once e es =
    let (same, all) = close_all-closed_with es e 1 in
    (ap (λ (c : Closing). c.base_closes) same, (refl, all))
