-- ===== src/Proto/Equality.antt =====
-- The test on message types decides equality.
use f2p.Prelude.{◌≡◌, refl, ◌↔◌, true, arith, ==_iff}
use f2p.Proto.{MessageType, number, eq_type, password_required}

number_injective : (a b : MessageType) → number a ≡ number b → a ≡ b
number_injective password_required _ h = ground arith
number_injective _ _ h = ground arith

pub eq_type_iff : (a b : MessageType) → (eq_type a b ≡ true) ↔ (a ≡ b)
unfolding eq_type
eq_type_iff a b = (
  λ h. number_injective a b ((==_iff (number a) (number b)).0 h),
  λ e. (==_iff (number a) (number b)).1 (rw e refl),
)

pub eq_type_self : (a : MessageType) → eq_type a a ≡ true
eq_type_self a = (eq_type_iff a a).1 refl
