-- ===== src/Message/Dispatcher/Delivery.antt =====
-- What one turn of `WaitFor` answers, on every branch.
use f2p.Prelude.{
  ℕ, ◌≡◌, refl, sym, ◌∙◌, Bool, true, false, List, [], ◌∷◌, ◌++◌, Option, none, some, All,
  Bool-cases, Option-cases, inl, inr, append-nil,
}
use mathlib.Core.List.{Memᴰ}
use f2p.Proto.{MessageType, eq_type}
use f2p.Proto.Equality.{eq_type_iff, eq_type_self}
use f2p.Message.{Error}
use f2p.Message.Dispatcher.{
  Dispatcher, Entry, scan_queue, is_expired, take_from, scan, Turn, message, failure, blocks,
  read_error, dispatcher_closed, context_done, wait_turn, turn_by,
}
use f2p.Message.Dispatcher.Parts.{scan_queue_splits, IsLive}

-- No requested type has a message that is still alive.
abbrev pub NoneLive : ℕ → List MessageType → Dispatcher → Type 0
NoneLive now types d =
    (t : MessageType) → Memᴰ t types → All (λ e. is_expired now e ≡ true) (d.queues t)

-- What a scan that hands out an entry says of it, and one that does not.
abbrev pub Picks : ℕ → List MessageType → Dispatcher → Option Entry → Type 0
Picks now types d none = NoneLive now types d
Picks now types d (some e) =
    (is_expired now e ≡ false) × ((t : MessageType) × Memᴰ t types × Memᴰ e (d.queues t))

pub mem_middle : (gone rest : List Entry) (e : Entry) → Memᴰ e (gone ++ (e ∷ rest))
mem_middle [] rest e = Memᴰ.head refl
mem_middle (x ∷ gone) rest e = Memᴰ.tail (mem_middle gone rest e)

no_member : (e : Entry) → Memᴰ e [] → ⊥
no_member e m = elim m [ ]

no_type : (t : MessageType) → Memᴰ t [] → ⊥
no_type t m = elim m [ ]

module _ (now : ℕ) (t : MessageType) (types : List MessageType) (d : Dispatcher) where
  -- An entry found in the first type's queue.
  Picks-first :
      (e : Entry) → (scan_queue now (d.queues t)).0 ≡ some e → Picks now (t ∷ types) d (some e)
  Picks-first e h =
      let cut = scan_queue_splits now (d.queues t) in
      let live : IsLive now (some e) = rw h at cut.4 in
      let split : d.queues t ≡ cut.0 ++ (e ∷ (scan_queue now (d.queues t)).1) = cut.1 ∙ rw h in
      (live, (t, Memᴰ.head refl, rw split (mem_middle cut.0 _ e)))

  expired_first :
      (scan_queue now (d.queues t)).0 ≡ none → All (λ e. is_expired now e ≡ true) (d.queues t)
  expired_first h =
      let cut = scan_queue_splits now (d.queues t) in
      let split : d.queues t ≡ cut.0 = cut.1 ∙ rw (h, cut.5 h, append-nil) in rw split cut.3

  queue_after :
      (u : MessageType) → eq_type t u ≡ false → (take_from now t d).0.queues u ≡ d.queues u
  unfolding take_from
  queue_after u e = rw e

  queue_after_self : (take_from now t d).0.queues t ≡ (scan_queue now (d.queues t)).1
  unfolding take_from
  queue_after_self = rw (eq_type_self t)

  module _ (h : (scan_queue now (d.queues t)).0 ≡ none) where
    emptied : (take_from now t d).0.queues t ≡ []
    emptied = queue_after_self ∙ (scan_queue_splits now (d.queues t)).5 h

    expired_at : (u : MessageType) → t ≡ u → All (λ e. is_expired now e ≡ true) (d.queues u)
    expired_at u p = rw (← p) (expired_first h)

    rest_expired : NoneLive now types (take_from now t d).0 → NoneLive now (t ∷ types) d
    rest_expired k u (Memᴰ.head p) = expired_at u (sym p)
    rest_expired k u (Memᴰ.tail m) = elim (Bool-cases (eq_type t u)) [
      | inl x ↦ expired_at u ((eq_type_iff t u).0 x)
      | inr x ↦ rw (queue_after u x) at (k u m)
    ]

    -- With nothing live in the first queue, the answer of the other types stands.
    Picks-rest :
        (found : Option Entry)
        → Picks now types (take_from now t d).0 found
        → Picks now (t ∷ types) d found
    Picks-rest none k = rest_expired k
    Picks-rest (some e) (live, (u, m, here)) = elim (Bool-cases (eq_type t u)) [
      | inl x ↦ absurd (no_member e (rw (← (eq_type_iff t u).0 x, emptied) at here))
      | inr x ↦ (live, (u, Memᴰ.tail m, rw (queue_after u x) at here))
    ]

take_from-found :
    (now : ℕ) (t : MessageType) (d : Dispatcher)
    → (take_from now t d).1 ≡ (scan_queue now (d.queues t)).0
unfolding take_from
take_from-found now t d = refl

pub scan-Picks :
    (now : ℕ) (types : List MessageType) (d : Dispatcher) → Picks now types d (scan now types d).1
unfolding scan
scan-Picks now [] d = λ t m. absurd (no_type t m)
scan-Picks now (t ∷ types) d =
    let d' : Dispatcher = (take_from now t d).0 in
    let rest = scan-Picks now types d' in
    elim (Option-cases (take_from now t d).1) [
      | inl h ↦
          rw h (
            Picks-rest now t types d (sym (take_from-found now t d) ∙ h) (scan now types d').1 rest)
      | inr (e, h) ↦ rw h (Picks-first now t types d e (sym (take_from-found now t d) ∙ h))
    ]

-- A scan leaves the error, the closing flag and the token alone.
abbrev Keeps : Dispatcher → Dispatcher → Type 0
Keeps d d' = (d'.error ≡ d.error) × (d'.closed ≡ d.closed) × (d'.notify ≡ d.notify)

take-Keeps : (now : ℕ) (t : MessageType) (d : Dispatcher) → Keeps d (take_from now t d).0
unfolding take_from
take-Keeps now t d = (refl, refl, refl)

pub scan-Keeps :
    (now : ℕ) (types : List MessageType) (d : Dispatcher) → Keeps d (scan now types d).0
unfolding scan
scan-Keeps now [] d = (refl, refl, refl)
scan-Keeps now (t ∷ types) d =
    let d' : Dispatcher = (take_from now t d).0 in
    let (e, c, n) = scan-Keeps now types d' in
    let (e', c', n') = take-Keeps now t d in
    elim (Option-cases (take_from now t d).1) [
      | inl h ↦ rw h (e ∙ e', c ∙ c', n ∙ n')
      | inr (x, h) ↦ rw h (e', c', n')
    ]

-- What an answer says of the dispatcher that was asked.
abbrev pub Answers : ℕ → List MessageType → Dispatcher → Turn → Type 0
Answers now types d (message e) = Picks now types d (some e)
Answers now types d (failure (read_error x)) = NoneLive now types d × (d.error ≡ some x)
Answers now types d (failure dispatcher_closed) =
    NoneLive now types d × (d.error ≡ none) × (d.closed ≡ true)
Answers now types d (failure context_done) = ⊥
Answers now types d blocks = NoneLive now types d × (d.error ≡ none) × (d.closed ≡ false)

turn_by-Answers :
    (now : ℕ) (types : List MessageType) (d : Dispatcher)
    → (err : Option Error) (closed : Bool) (found : Option Entry) → d.error ≡ err
    → d.closed ≡ closed
    → Picks now types d found
    → Answers now types d (turn_by err closed found)
turn_by-Answers now types d err closed (some e) he hc h = h
turn_by-Answers now types d (some x) closed none he hc h = (h, he)
turn_by-Answers now types d none true none he hc h = (h, he, hc)
turn_by-Answers now types d none false none he hc h = (h, he, hc)

-- A turn of WaitFor hands out a message of a requested type that has not expired, if there is one;
-- otherwise it reports the read error, else that the dispatcher is closed, and else it blocks.
pub wait_turn-Answers :
    (now : ℕ) (types : List MessageType) (d : Dispatcher)
    → Answers now types d (wait_turn now types d).1
unfolding wait_turn
wait_turn-Answers now types d =
    let (e, c, _) = scan-Keeps now types d in
    turn_by-Answers now types d _ _ (scan now types d).1 (sym e) (sym c) (scan-Picks now types d)

All-member :
    (now : ℕ) (q : List Entry) (e : Entry)
    → All (λ x. is_expired now x ≡ true) q
    → Memᴰ e q
    → is_expired now e ≡ true
All-member now [] e h m = elim m [ ]
All-member now (x ∷ q) e h (Memᴰ.head p) = rw p h.0
All-member now (x ∷ q) e h (Memᴰ.tail m) = All-member now q e h.1 m

live_refutes :
    (now : ℕ) (types : List MessageType) (d : Dispatcher) (t : MessageType) (e : Entry)
    → Memᴰ t types
    → Memᴰ e (d.queues t)
    → is_expired now e ≡ false
    → NoneLive now types d
    → ⊥
live_refutes now types d t e m here live h = cc (All-member now (d.queues t) e (h t m) here)

-- A live message of a requested type is never held back: the turn hands out a message, also after
-- Close and after a read error.
pub wait_turn_live :
    (now : ℕ) (types : List MessageType) (d : Dispatcher) (t : MessageType) (e : Entry)
    → Memᴰ t types
    → Memᴰ e (d.queues t)
    → is_expired now e ≡ false
    → (e' : Entry) × ((wait_turn now types d).1 ≡ message e')
wait_turn_live now types d t e m here live = go (wait_turn now types d).1 refl
  where
    stuck : NoneLive now types d → ⊥
    stuck = live_refutes now types d t e m here live

    go :
        (turn : Turn)
        → (wait_turn now types d).1 ≡ turn
        → (e' : Entry) × ((wait_turn now types d).1 ≡ message e')
    go (message e') p = (e', p)
    go (failure (read_error x)) p = absurd (stuck (rw p at (wait_turn-Answers now types d)).0)
    go (failure dispatcher_closed) p = absurd (stuck (rw p at (wait_turn-Answers now types d)).0)
    go (failure context_done) p = absurd (rw p at (wait_turn-Answers now types d))
    go blocks p = absurd (stuck (rw p at (wait_turn-Answers now types d)).0)
