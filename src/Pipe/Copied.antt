-- ===== src/Pipe/Copied.antt =====
-- What arrives on the one side of a pipe is what was read on the other.
use f2p.Prelude.{
  if◌then◌else◌, ltb, ◌-◌, ◌&&◌, ℕ, ◌≡◌, refl, ap, sym, ◌∙◌, Bool, true, false, List, [], ◌∷◌, ◌++◌,
  Option, none, some, take, drop, arith, append-nil, append_assoc, take-append-drop,
}
use f2p.Pipe.{
  Copy, Pipe, Round, Event, copies_a_to_b, copies_b_to_a, ticks, copy_round, finish, tick, step,
  run, start, both_with_idle,
}

-- Everything that was read has been written, but for a part of the last read when the loop has ended.
abbrev pub IsCopied : Copy → Type 0
IsCopied c = (lost : List ℕ) × (c.put ++ lost ≡ c.got) × (c.running ≡ true → lost ≡ [])

abbrev pub IsBothCopied : Pipe → Type 0
IsBothCopied p = IsCopied p.a_to_b × IsCopied p.b_to_a

round_of : List ℕ → Bool → Option ℕ → ℕ → ℕ → Round
round_of bytes fails at_byte at written = record {
  bytes = bytes;
  read_fails = fails;
  write_fails_at = at_byte;
  at = at;
  written_at = written;
}

by_parts :
    (bytes : List ℕ) (fails : Bool) (k : Option ℕ) (at written : ℕ) (c : Copy)
    → c.put ≡ c.got
    → IsCopied (copy_round (round_of bytes fails k at written) c)
unfolding copy_round round_of
by_parts [] fails k at w c h = ([], append-nil c.put ∙ h, λ e. refl)
by_parts (b ∷ bs) fails none at w c h =
    ([], append-nil (c.put ++ (b ∷ bs)) ∙ ap (λ l. l ++ (b ∷ bs)) h, λ e. refl)
by_parts (b ∷ bs) fails (some k) at w c h = (
  drop k (b ∷ bs),
  append_assoc c.put (take k (b ∷ bs)) (drop k (b ∷ bs))
      ∙ (ap (λ l. c.put ++ l) (take-append-drop k (b ∷ bs)) ∙ ap (λ l. l ++ (b ∷ bs)) h),
  λ e. ground arith,
)

running-put : (c : Copy) → c.running ≡ true → IsCopied c → c.put ≡ c.got
running-put c h (lost, e, l) = sym (append-nil c.put) ∙ (ap (λ x. c.put ++ x) (sym (l h)) ∙ e)

copy_round-IsCopied :
    (r : Round) (c : Copy) → c.running ≡ true → IsCopied c → IsCopied (copy_round r c)
unfolding round_of
copy_round-IsCopied r c h k =
    by_parts r.bytes r.read_fails r.write_fails_at r.at r.written_at c (running-put c h k)

on_test :
    (P : Pipe → Type 0) (b : Bool) (x y : Pipe) → (b ≡ true → P x) → P y → P (if b then x else y)
on_test P true x y hx hy = hx refl
on_test P false x y hx hy = hy

finish-IsBothCopied : (c : Copy) (p : Pipe) → IsBothCopied p → IsBothCopied (finish c p)
unfolding finish
finish-IsBothCopied c p h = on_test IsBothCopied c.running p _ (λ e. h) h

step-IsBothCopied :
    (idle : ℕ) (e : Event) (p : Pipe) → IsBothCopied p → IsBothCopied (step idle e p)
unfolding step tick
step-IsBothCopied idle (copies_a_to_b r) p h =
    on_test IsBothCopied p.a_to_b.running _ p
      (λ e.
        finish-IsBothCopied (copy_round r p.a_to_b) _ (copy_round-IsCopied r p.a_to_b e h.0, h.1))
      h
step-IsBothCopied idle (copies_b_to_a r) p h =
    on_test IsBothCopied p.b_to_a.running _ p
      (λ e.
        finish-IsBothCopied (copy_round r p.b_to_a) _ (h.0, copy_round-IsCopied r p.b_to_a e h.1))
      h
step-IsBothCopied idle (ticks at) p h =
    on_test IsBothCopied (p.watching && ltb idle (at - p.last_seen)) _ p (λ e. h) h

run-IsBothCopied :
    (idle : ℕ) (es : List Event) (p : Pipe) → IsBothCopied p → IsBothCopied (run idle es p)
unfolding run
run-IsBothCopied idle [] p h = h
run-IsBothCopied idle (e ∷ es) p h = run-IsBothCopied idle es _ (step-IsBothCopied idle e p h)

-- Whatever the order of events, what a pipe has written to a side is a prefix of what it has read from
-- the other side, and all of it as long as the loop of that direction runs.
pub both_with_idle-IsBothCopied :
    (idle now : ℕ) (es : List Event) → IsBothCopied (both_with_idle idle now es)
unfolding both_with_idle start
both_with_idle-IsBothCopied idle now es =
    run-IsBothCopied idle es (start idle now) (([], refl, λ e. refl), ([], refl, λ e. refl))
