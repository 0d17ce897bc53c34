-- ===== src/Message/Dispatcher/Queues.antt =====
-- What an arrival and a scan do to one queue of the dispatcher.
use f2p.Prelude.{
  ℕ, ◌+◌, ◌%◌, ◌^◌, ◌≤◌, ◌≡◌, refl, false, List, [], ◌∷◌, ◌++◌, Option, none, some, length, arith,
  All, length-append, All-append, Bool-cases, inl, inr, append-nil,
}
use f2p.Prelude.Sublists.{
  sublist_append, sublist_of_split, sublist_drop_front, length-sublist, sublist_trans, All-sublist,
}
use mathlib.Core.List.{Sublistᴰ}
use mathlib.Core.List.Sublistᴰ
use f2p.Proto.{MessageType, UnifiedMessage, eq_type}
use f2p.Proto.Equality.{eq_type_iff, eq_type_self}
use f2p.Message.Dispatcher.{
  Dispatcher, Entry, prune, evict, scan_queue, enqueue, take_from, scan, or_next, new_dispatcher,
  per_type_limit,
}
use f2p.Message.Dispatcher.Parts.{prune_splits, evict_splits, scan_queue_splits, found_list}
use f2p.Message.Dispatcher.History.{only, kept_and_dropped}

abbrev pub HasType : MessageType → Entry → Type 0
HasType t e = e.msg.type ≡ t

-- Every queue holds messages of its own type, ten at most.
pub record IsSound (d : Dispatcher) : Type 0 where
  pub typed : (t : MessageType) → All (HasType t) (d.queues t)
  pub bounded : (t : MessageType) → length (d.queues t) ≤ per_type_limit

All-left : (t : MessageType) (xs ys : List Entry) → All (HasType t) (xs ++ ys) → All (HasType t) xs
All-left t [] ys h = tt
All-left t (x ∷ xs) ys h = (h.0, All-left t xs ys h.1)

abbrev pub entry_of : ℕ → UnifiedMessage → Entry
entry_of now msg = record { msg = msg; enqueue_at = now }

-- An arrival drops from the front of its type's queue and goes behind it; other queues stay.
pub record Arrives (now : ℕ) (msg : UnifiedMessage) (d d' : Dispatcher) (u : MessageType)
    : Type 0 where
  pub ordered : Sublistᴰ (d'.queues u) (d.queues u ++ only u (entry_of now msg))
  pub bounded : length (d.queues u) ≤ per_type_limit → length (d'.queues u) ≤ per_type_limit
  pub counted :
      kept_and_dropped u d' % 2 ^ 64
      ≡ (kept_and_dropped u d + length (only u (entry_of now msg))) % 2 ^ 64

-- The lengths around a cut.
length_split : (xs gone ys : List Entry) → xs ≡ gone ++ ys → length xs ≡ length gone + length ys
length_split xs gone ys e = rw e (length-append gone ys)

enqueue_same :
    (now : ℕ) (msg : UnifiedMessage) (d : Dispatcher)
    → Arrives now msg d (enqueue now msg d) msg.type
unfolding enqueue
enqueue_same now msg d =
    let (gone, split, size, _) = prune_splits now (d.queues msg.type) in
    let (gone', split', size', room) = evict_splits (prune now (d.queues msg.type)).0 in
    let n = length_split (d.queues msg.type) gone _ split in
    let n' = length_split (prune now (d.queues msg.type)).0 gone' _ split' in
    let last = length-append (evict (prune now (d.queues msg.type)).0).0 (entry_of now msg ∷ []) in
    record {
      ordered = rw (eq_type_self msg.type) (
          sublist_append
            (sublist_trans (sublist_of_split _ gone' _ split')
              (sublist_of_split (d.queues msg.type) gone _ split))
            (Sublistᴰ.refl (entry_of now msg ∷ [])));
      bounded = λ h. rw (eq_type_self msg.type) (omega (arith, n, n', last, room));
      counted = rw (eq_type_self msg.type) (omega (arith, n, n', last, size, size'));
    }

enqueue_other :
    (now : ℕ) (msg : UnifiedMessage) (d : Dispatcher) (u : MessageType)
    → eq_type msg.type u ≡ false
    → Arrives now msg d (enqueue now msg d) u
unfolding enqueue
enqueue_other now msg d u e = record {
  ordered = rw (e, append-nil) (Sublistᴰ.refl (d.queues u));
  bounded = λ h. rw e h;
  counted = rw e (omega arith);
}

-- An arrival at any queue.
pub enqueue-Arrives :
    (now : ℕ) (msg : UnifiedMessage) (d : Dispatcher) (u : MessageType)
    → Arrives now msg d (enqueue now msg d) u
enqueue-Arrives now msg d u = elim (Bool-cases (eq_type msg.type u)) [
  | inl e ↦ rw (← (eq_type_iff msg.type u).0 e) (enqueue_same now msg d)
  | inr e ↦ enqueue_other now msg d u e
]

abbrev pub picked : MessageType → Option Entry → List Entry
picked u none = []
picked u (some e) = only u e

-- A scan takes entries from the front of the queues, and hands out at most one of them.
pub record Scans (d d' : Dispatcher) (found : Option Entry) (u : MessageType) : Type 0 where
  pub ordered : Sublistᴰ (picked u found ++ d'.queues u) (d.queues u)
  pub counted :
      (kept_and_dropped u d' + length (picked u found)) % 2 ^ 64 ≡ kept_and_dropped u d % 2 ^ 64

picked_typed :
    (t : MessageType) (found : Option Entry)
    → All (HasType t) (found_list found)
    → picked t found ≡ found_list found
picked_typed t none h = refl
picked_typed t (some e) (h, _) = rw (h, eq_type_self t)

picked_other :
    (t u : MessageType) (found : Option Entry)
    → eq_type t u ≡ false
    → All (HasType t) (found_list found)
    → picked u found ≡ []
picked_other t u none e h = refl
picked_other t u (some x) e (h, _) = rw (h, e)

module _ (now : ℕ) (t : MessageType) (d : Dispatcher) (sound : IsSound d) where
  abbrev scanned : Option Entry × List Entry × ℕ
  scanned = scan_queue now (d.queues t)

  -- The entry that is found stood in the queue, so it has the queue's type.
  found_typed : All (HasType t) (found_list scanned.0)
  found_typed =
      let cut = scan_queue_splits now (d.queues t) in
      All-left t (found_list scanned.0) scanned.1
        (All-sublist (HasType t) (sublist_of_split (d.queues t) cut.0 _ cut.1) (sound.typed t))

  take_same : Scans d (take_from now t d).0 scanned.0 t
  unfolding take_from
  take_same =
      let cut = scan_queue_splits now (d.queues t) in
      let n = length_split (d.queues t) cut.0 _ cut.1 in
      let m = length-append (found_list scanned.0) scanned.1 in
      record {
        ordered =
            rw (eq_type_self t, picked_typed t scanned.0 found_typed)
              (sublist_of_split (d.queues t) cut.0 _ cut.1);
        counted =
            rw (eq_type_self t, picked_typed t scanned.0 found_typed) (omega (arith, n, m, cut.2));
      }

  take_other : (u : MessageType) → eq_type t u ≡ false → Scans d (take_from now t d).0 scanned.0 u
  unfolding take_from
  take_other u e = record {
    ordered = rw (e, picked_other t u scanned.0 e found_typed) (Sublistᴰ.refl (d.queues u));
    counted = rw (e, picked_other t u scanned.0 e found_typed) (omega arith);
  }

  take_from-Scans : (u : MessageType) → Scans d (take_from now t d).0 (take_from now t d).1 u
  unfolding take_from
  take_from-Scans u = elim (Bool-cases (eq_type t u)) [
    | inl e ↦ rw (← (eq_type_iff t u).0 e) take_same
    | inr e ↦ take_other u e
  ]

Scans_then :
    (d d' d'' : Dispatcher) (found : Option Entry) (u : MessageType)
    → Scans d d' none u
    → Scans d' d'' found u
    → Scans d d'' found u
Scans_then d d' d'' found u h k = record {
  ordered = sublist_trans k.ordered h.ordered;
  counted = omega (arith, h.counted, k.counted);
}

Scans-queue :
    {d d' : Dispatcher} {found : Option Entry} {u : MessageType}
    → Scans d d' found u
    → Sublistᴰ (d'.queues u) (d.queues u)
Scans-queue {d} {d'} {found} {u} h =
    sublist_trans (sublist_drop_front (picked u found) (d'.queues u)) h.ordered

pub Scans-IsSound :
    (d d' : Dispatcher) (found : Option Entry)
    → ((u : MessageType) → Scans d d' found u)
    → IsSound d
    → IsSound d'
Scans-IsSound d d' found h sound = record {
  typed = λ u. All-sublist (HasType u) (Scans-queue (h u)) (sound.typed u);
  bounded = λ u. omega (arith, length-sublist (Scans-queue (h u)), sound.bounded u);
}

or_next-Scans :
    (d d' : Dispatcher) (rest : Dispatcher × Option Entry) (found : Option Entry) (u : MessageType)
    → Scans d d' found u
    → Scans d' rest.0 rest.1 u
    → Scans d (or_next d' rest found).0 (or_next d' rest found).1 u
or_next-Scans d d' rest none u h k = Scans_then d d' rest.0 rest.1 u h k
or_next-Scans d d' rest (some e) u h k = h

-- A whole scan of `WaitFor`.
pub scan-Scans :
    (now : ℕ) (types : List MessageType) (d : Dispatcher)
    → IsSound d
    → (u : MessageType) → Scans d (scan now types d).0 (scan now types d).1 u
unfolding scan
scan-Scans now [] d sound u = record { ordered = Sublistᴰ.refl (d.queues u); counted = omega arith }
scan-Scans now (t ∷ types) d sound u =
    let one = take_from-Scans now t d sound in
    let d' : Dispatcher = (take_from now t d).0 in
    or_next-Scans d d' (scan now types d') (take_from now t d).1 u (one u)
      (scan-Scans now types d' (Scans-IsSound d d' _ one sound) u)

pub new_dispatcher-IsSound : IsSound new_dispatcher
unfolding new_dispatcher
new_dispatcher-IsSound = record { typed = λ t. tt; bounded = λ t. omega arith }

pub Arrives-IsSound :
    (now : ℕ) (msg : UnifiedMessage) (d d' : Dispatcher)
    → ((u : MessageType) → Arrives now msg d d' u)
    → IsSound d
    → IsSound d'
Arrives-IsSound now msg d d' h sound = record {
  typed = λ u.
      All-sublist (HasType u) (h u).ordered
        (All-append (HasType u) _ _ (sound.typed u) (only_typed u));
  bounded = λ u. (h u).bounded (sound.bounded u);
}
  where
    only_typed : (u : MessageType) → All (HasType u) (only u (entry_of now msg))
    only_typed u = elim (Bool-cases (eq_type msg.type u)) [
      | inl e ↦ rw e ((eq_type_iff msg.type u).0 e, tt)
      | inr e ↦ rw e tt
    ]
