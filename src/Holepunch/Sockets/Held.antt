-- ===== src/Holepunch/Sockets/Held.antt =====
-- Which sockets are open: what closing, creating and sending do to them.
use f2p.Prelude.{
  ℕ, zero, suc, ◌+◌, ◌≤◌, ◌≡◌, refl, ◌∙◌, inl, inr, Bool, true, false, ◌&&◌, ◌||◌, not, List, [],
  ◌∷◌, ◌++◌, Option, none, some, arith, if◌then◌else◌, ◌==◌, Option-cases,
}
use f2p.Prelude.Maps.{elem}
use f2p.Holepunch.Sockets.{
  Addr, Net, is_open, listen_udp, without, close, close_all, close_sockets, create_sockets,
  new_udp_socket_array, write_to, send_all,
}

abbrev pub has : ℕ → List ℕ → Bool
has s socks = elem ◌==◌ s socks

elem-without : (x s : ℕ) (l : List ℕ) → has x (without s l) ≡ (if x == s then false else has x l)
unfolding elem without
elem-without x s [] = ground arith
elem-without x s (y ∷ l) = ground (arith, elem-without x s l)

pub has-append : (x : ℕ) (l m : List ℕ) → has x (l ++ m) ≡ (has x l || has x m)
unfolding elem
has-append x [] m = refl
has-append x (y ∷ l) m = ground (arith, has-append x l m)

pub is_open-close :
    (x s : ℕ) (net : Net) → is_open x (close s net) ≡ (if x == s then false else is_open x net)
unfolding is_open close
is_open-close x s net = elem-without x s net.opened

pub is_open-close_all :
    (x : ℕ) (socks : List ℕ) (net : Net)
    → is_open x (close_all socks net) ≡ (if has x socks then false else is_open x net)
unfolding close_all elem
is_open-close_all x [] net = refl
is_open-close_all x (s ∷ socks) net =
    ground (arith, is_open-close_all x socks (close s net), is_open-close x s net)

pub is_open-close_sockets :
    (x keep : ℕ) (socks : List ℕ) (net : Net)
    → is_open x (close_sockets socks keep net)
      ≡ (if has x socks && not (x == keep) then false else is_open x net)
unfolding close_sockets elem
is_open-close_sockets x keep [] net = refl
is_open-close_sockets x keep (s ∷ socks) net = ground (
  arith,
  is_open-close_sockets x keep socks (if s == keep then net else close s net),
  is_open-close x s net,
)

pub is_open-write_to :
    (x s : ℕ) (payload : List ℕ) (a : Addr) (net : Net)
    → is_open x (write_to s payload a net) ≡ is_open x net
unfolding is_open write_to
is_open-write_to x s payload a net = refl

pub is_open-send_all :
    (x : ℕ) (socks payload : List ℕ) (a : Addr) (net : Net)
    → is_open x (send_all socks payload a net) ≡ is_open x net
unfolding send_all
is_open-send_all x [] payload a net = refl
is_open-send_all x (s ∷ socks) payload a net =
    is_open-send_all x socks payload a (write_to s payload a net)
    ∙ is_open-write_to x s payload a net

-- No socket with a number that is still to be given is open.
abbrev pub IsFresh : Net → Type 0
IsFresh net = (x : ℕ) → net.next ≤ x → is_open x net ≡ false

-- These sockets are open beyond those of the base, and nothing else has changed.
pub record IsHeld (base : Net) (socks : List ℕ) (net : Net) : Type 0 where
  pub opened : (x : ℕ) → is_open x net ≡ (has x socks || is_open x base)
  pub own : (x : ℕ) → has x socks ≡ true → is_open x base ≡ false
  pub fresh : IsFresh net

abbrev pub Listened : Net → List ℕ → Net × Option ℕ → Type 0
Listened base socks (net, none) = IsHeld base socks net
Listened base socks (net, some s) = IsHeld base (socks ++ (s ∷ [])) net

opened_next-IsHeld :
    (base : Net) (socks : List ℕ) (net : Net) (refusals : List Bool)
    → IsHeld base socks net
    → IsHeld base (socks ++ (net.next ∷ [])) (record {
      next = net.next + 1;
      opened = net.next ∷ net.opened;
      sent = net.sent;
      refusals = refusals;
    })
unfolding is_open elem
opened_next-IsHeld base socks net refusals h = record {
  opened = λ x. ground (arith, h.opened x, has-append x socks (net.next ∷ []));
  own = λ x e. ground (arith, h.opened x, h.own x, h.fresh x, has-append x socks (net.next ∷ []));
  fresh = λ x e. ground (arith, h.fresh x);
}

pub listen_udp-Listened :
    (base : Net) (socks : List ℕ) (net : Net)
    → IsHeld base socks net
    → Listened base socks (listen_udp net)
unfolding listen_udp is_open
listen_udp-Listened base socks net h = by_refusals net.refusals
  where
    refused : (refusals : List Bool) → IsHeld base socks (record net { refusals = refusals })
    refused refusals = record { opened = h.opened; own = h.own; fresh = h.fresh }

    by_refusals :
        (refusals : List Bool)
        → Listened base socks (listen_udp (record net { refusals = refusals }))
    by_refusals [] = opened_next-IsHeld base socks net [] h
    by_refusals (false ∷ refusals) = opened_next-IsHeld base socks net refusals h
    by_refusals (true ∷ refusals) = refused refusals

-- What the creation of an array ends with: nothing more is open, or these are.
abbrev pub Created : Net → Net × Option (List ℕ) → Type 0
Created base (net, none) = (x : ℕ) → is_open x net ≡ is_open x base
Created base (net, some socks) = IsHeld base socks net

closed_again :
    (base : Net) (socks : List ℕ) (net : Net)
    → IsHeld base socks net
    → (x : ℕ) → is_open x (close_all socks net) ≡ is_open x base
closed_again base socks net h x = ground (arith, h.opened x, h.own x, is_open-close_all x socks net)

Created-after :
    (base : Net) (socks : List ℕ) (r : Net × Option ℕ) (more : Net → List ℕ → Net × Option (List ℕ))
    → Listened base socks r
    → ((net : Net) (l : List ℕ) → IsHeld base l net → Created base (more net l))
    → Created base
        (elim r.1 [ none ↦ (close_all socks r.0, none) | some s ↦ more r.0 (socks ++ (s ∷ [])) ])
Created-after base socks (net, none) more h k = closed_again base socks net h
Created-after base socks (net, some s) more h k = k net (socks ++ (s ∷ [])) h

create_sockets-Created :
    (n : ℕ) (base : Net) (socks : List ℕ) (net : Net)
    → IsHeld base socks net
    → Created base (create_sockets n socks net)
unfolding create_sockets
create_sockets-Created zero base socks net h = h
create_sockets-Created (suc n) base socks net h =
    Created-after base socks (listen_udp net) (λ net' l. create_sockets n l net')
      (listen_udp-Listened base socks net h) (λ net' l k. create_sockets-Created n base l net' k)

-- NewUDPSocketArray leaves nothing open when it fails, and otherwise only the sockets it returns.
pub new_udp_socket_array-Created :
    (n : ℕ) (net : Net) → IsFresh net → Created net (new_udp_socket_array n net)
unfolding new_udp_socket_array elem
new_udp_socket_array-Created n net h =
    create_sockets-Created n net [] net
      (record { opened = λ x. refl; own = λ x e. ground arith; fresh = h })

pub sent-close_all : (socks : List ℕ) (net : Net) → (close_all socks net).sent ≡ net.sent
unfolding close_all close
sent-close_all [] net = refl
sent-close_all (s ∷ socks) net = sent-close_all socks (close s net)

pub sent-close_sockets :
    (keep : ℕ) (socks : List ℕ) (net : Net) → (close_sockets socks keep net).sent ≡ net.sent
unfolding close_sockets close
sent-close_sockets keep [] net = refl
sent-close_sockets keep (s ∷ socks) net =
    ground (arith, sent-close_sockets keep socks (if s == keep then net else close s net))

sent-listen_udp : (net : Net) → (listen_udp net).0.sent ≡ net.sent
unfolding listen_udp
sent-listen_udp net = ground arith

sent-create_sockets :
    (n : ℕ) (socks : List ℕ) (net : Net) → (create_sockets n socks net).0.sent ≡ net.sent
unfolding create_sockets
sent-create_sockets zero socks net = refl
sent-create_sockets (suc n) socks net = elim (Option-cases (listen_udp net).1) [
  | inl e ↦ ground (arith, sent-listen_udp net, sent-close_all socks (listen_udp net).0)
  | inr (s, e) ↦
      ground
        (arith, sent-listen_udp net, sent-create_sockets n (socks ++ (s ∷ [])) (listen_udp net).0)
]

pub sent-new_udp_socket_array : (n : ℕ) (net : Net) → (new_udp_socket_array n net).0.sent ≡ net.sent
unfolding new_udp_socket_array
sent-new_udp_socket_array n net = sent-create_sockets n [] net
