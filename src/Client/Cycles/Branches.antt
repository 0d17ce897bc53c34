-- ===== src/Client/Cycles/Branches.antt =====
-- What holds in every branch of a cycle holds of the cycle.
use f2p.Prelude.{ℕ, ◌≡◌, refl, Bool, true, false, Option, none, some, if◌then◌else◌}
use f2p.Client.HolePunch.{
  Attempt, established, not_detected, not_signaled, no_socket, not_punched, not_dialed,
}
use f2p.Client.Connecting.{Link, SetupEnd}
use f2p.Client.Cycles.{CycleEnd, with_setup, Waited, became_direct, gave_up, fuel_ran_out}

module _ {A : Type 0} (P : A → Type 0) where
  pub on_option :
      (o : Option ℕ) (n : A) (k : ℕ → A)
      → P n
      → ((s : ℕ) → o ≡ some s → P (k s))
      → P (elim o [ none ↦ n | some s ↦ k s ])
  on_option none n k hn hk = hn
  on_option (some s) n k hn hk = hk s refl

  pub on_bool : (b : Bool) (x y : A) → P x → P y → P (if b then x else y)
  on_bool true x y hx hy = hx
  on_bool false x y hx hy = hy

  pub on_wait :
      (w : Waited) (x y z : A)
      → P x
      → P y
      → P z
      → P (elim w [ became_direct ↦ x | gave_up ↦ y | fuel_ran_out ↦ z ])
  on_wait became_direct x y z hx hy hz = hx
  on_wait gave_up x y z hx hy hz = hy
  on_wait fuel_ran_out x y z hx hy hz = hz

module _ (P : Link × CycleEnd → Type 0) where
  pub on_attempt :
      (a : Attempt) (x : Link × SetupEnd) (k : Attempt → Link × CycleEnd)
      → P (with_setup x)
      → ((b : Attempt) → P (k b))
      → P (elim a [ established sock ↦ with_setup x | failure ↦ k failure ])
  on_attempt (established sock) x k h g = h
  on_attempt not_detected x k h g = g not_detected
  on_attempt (not_signaled r) x k h g = g (not_signaled r)
  on_attempt no_socket x k h g = g no_socket
  on_attempt (not_punched r) x k h g = g (not_punched r)
  on_attempt (not_dialed p r) x k h g = g (not_dialed p r)
