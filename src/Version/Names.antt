-- ===== src/Version/Names.antt =====
-- The shape of the protocols' names.
use mathlib.Core.List.{reverse-append, append_cancel_left}
use f2p.Prelude.{
  ℕ, ◌≡◌, ◌≢◌, refl, sym, subst, ap, ◌∙◌, ◌⊎◌, inl, inr, true, false, List, [], ◌∷◌, ◌++◌, Option,
  some, none, arith, ◌==◌, Bool-cases, All, ==_iff,
}
use f2p.Prelude.Text.{codes, trim_right, trim_step}
use f2p.Version.{
  slash, get_protocol, normalize_base, control_protocol, data_protocol, data_protocol_zstd,
  signaling_protocol, is_zstd,
}

-- The server recognises the compressed data protocol by its suffix, whatever the configured base is:
-- its own name for it has the suffix, and its name of the plain data protocol has not.
pub is_zstd-data_protocol :
    (base : List ℕ)
    → (is_zstd (data_protocol_zstd base) ≡ true) × (is_zstd (data_protocol base) ≡ false)
unfolding is_zstd data_protocol_zstd data_protocol
is_zstd-data_protocol base = (
  rw (reverse-append (normalize_base base) (codes "/data+zstd"), is_zstd) refl,
  rw (reverse-append (normalize_base base) (codes "/data"), is_zstd) refl,
)

endings_differ : (n s t : List ℕ) → s ≢ t → n ++ s ≢ n ++ t
endings_differ n s t h e = h (append_cancel_left n s t e)

-- For one base the four protocols have four names.
pub protocols_differ :
    (base : List ℕ)
    → (control_protocol base ≢ data_protocol base)
      × (control_protocol base ≢ data_protocol_zstd base)
      × (control_protocol base ≢ signaling_protocol base)
      × (data_protocol base ≢ data_protocol_zstd base)
      × (data_protocol base ≢ signaling_protocol base)
      × (data_protocol_zstd base ≢ signaling_protocol base)
unfolding control_protocol data_protocol data_protocol_zstd signaling_protocol
protocols_differ base =
    let n = normalize_base base in
    (
      endings_differ n (codes "/control") (codes "/data") (λ e. ground (arith, e)),
      endings_differ n (codes "/control") (codes "/data+zstd") (λ e. ground (arith, e)),
      endings_differ n (codes "/control") (codes "/holepunch") (λ e. ground (arith, e)),
      endings_differ n (codes "/data") (codes "/data+zstd") (λ e. ground (arith, e)),
      endings_differ n (codes "/data") (codes "/holepunch") (λ e. ground (arith, e)),
      endings_differ n (codes "/data+zstd") (codes "/holepunch") (λ e. ground (arith, e)),
    )

abbrev pub last_char : List ℕ → Option ℕ
last_char [] = none
last_char (c ∷ []) = some c
last_char (c ∷ (d ∷ s)) = last_char (d ∷ s)

trim_step-last :
    (d c : ℕ) (t : List ℕ) → last_char t ≢ some d → last_char (trim_step d c t) ≢ some d
unfolding trim_step
trim_step-last d c [] h = λ e. ground (arith, e)
trim_step-last d c (x ∷ t) h = h

trim_right-last : (d : ℕ) (s : List ℕ) → last_char (trim_right d s) ≢ some d
unfolding trim_right
trim_right-last d [] = λ e. ground (arith, e)
trim_right-last d (c ∷ s) = trim_step-last d c (trim_right d s) (trim_right-last d s)

-- What is trimmed keeps its first character, or consists of what is trimmed.
abbrev Trimmed : ℕ → List ℕ → List ℕ → Type 0
Trimmed d s [] = All (λ x. x ≡ d) s
Trimmed d [] (e ∷ t) = ⊥
Trimmed d (c ∷ s) (e ∷ t) = c ≡ e

trim_step-Trimmed : (d c : ℕ) (s t : List ℕ) → Trimmed d s t → Trimmed d (c ∷ s) (trim_step d c t)
unfolding trim_step
trim_step-Trimmed d c s [] h = elim (Bool-cases (c == d)) [
  | inl e ↦ rw e ((==_iff c d).0 e, h)
  | inr e ↦ rw e refl
]
trim_step-Trimmed d c s (e ∷ t) h = refl

trim_right-Trimmed : (d : ℕ) (s : List ℕ) → Trimmed d s (trim_right d s)
unfolding trim_right
trim_right-Trimmed d [] = tt
trim_right-Trimmed d (c ∷ s) = trim_step-Trimmed d c s (trim_right d s) (trim_right-Trimmed d s)

-- A name that starts with a slash and does not end with one.
abbrev pub IsRooted : List ℕ → Type 0
IsRooted n = ((rest : List ℕ) × (n ≡ slash ∷ rest)) × (last_char n ≢ some slash)

IsRooted-or_slashes :
    (s n : List ℕ)
    → Trimmed slash (slash ∷ s) n
    → last_char n ≢ some slash
    → IsRooted n ⊎ ((n ≡ []) × All (λ x. x ≡ slash) (slash ∷ s))
IsRooted-or_slashes s [] t l = inr (refl, t)
IsRooted-or_slashes s (e ∷ n) t l = inl ((n, ap (λ x. x ∷ n) (sym t)), l)

trimmed_name :
    (s : List ℕ)
    → IsRooted (trim_right slash (slash ∷ s))
      ⊎ ((trim_right slash (slash ∷ s) ≡ []) × All (λ x. x ≡ slash) (slash ∷ s))
trimmed_name s =
    IsRooted-or_slashes s (trim_right slash (slash ∷ s)) (trim_right-Trimmed slash (slash ∷ s))
      (trim_right-last slash (slash ∷ s))

normalize_base_cons :
    (c : ℕ) (base : List ℕ)
    → ((c ≡ slash) × (normalize_base (c ∷ base) ≡ trim_right slash (slash ∷ base)))
      ⊎ ((c ≢ slash) × (normalize_base (c ∷ base) ≡ trim_right slash (slash ∷ (c ∷ base))))
unfolding normalize_base
normalize_base_cons c base = elim (Bool-cases (c == slash)) [
  | inl e ↦ inl ((==_iff c slash).0 e, rw (e, (==_iff c slash).0 e) refl)
  | inr e ↦ inr ((λ f. cc (e, (==_iff c slash).1 f)), rw e refl)
]

-- The normalised base starts with a slash and does not end with one; except that a base of one slash
-- or more and nothing else becomes empty.
pub normalize_base-IsRooted :
    (base : List ℕ)
    → IsRooted (normalize_base base)
      ⊎ ((normalize_base base ≡ []) × (base ≢ []) × All (λ x. x ≡ slash) base)
unfolding normalize_base
normalize_base-IsRooted [] = inl ((codes get_protocol, refl), λ e. ground (arith, e))
normalize_base-IsRooted (c ∷ base) = elim (normalize_base_cons c base) [
  | inl (e, f) ↦ elim (trimmed_name base) [
    | inl r ↦ inl (subst IsRooted (sym f) r)
    | inr (n, all) ↦ inr (f ∙ n, (λ g. ground (arith, g)), (e, all.1))
  ]
  | inr (e, f) ↦ elim (trimmed_name (c ∷ base)) [
    | inl r ↦ inl (subst IsRooted (sym f) r)
    | inr (n, all) ↦ absurd (e all.1.0)
  ]
]
