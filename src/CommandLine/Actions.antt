-- ===== src/CommandLine/Actions.antt =====
-- What the program does with its arguments.
use f2p.Prelude.{
  ◌≡◌, ◌⊎◌, refl, Bool, true, false, not, ◌||◌, ◌&&◌, Option, none, some, arith, if◌then◌else◌,
  String,
}
use f2p.Config.{Config}
use f2p.Config.Validation.{Validity, valid, invalid, validate_config}
use f2p.CommandLine.{
  Options, Action, prints_help, load_fails, generates, changes_password, regenerates_identity,
  runs_server, runs_client, rejects, after_validation, run_main,
}

-- What has to hold for an action.
abbrev pub Justified :
    Options
    → (String → Bool)
    → (String → Option Config)
    → Option (String × String)
    → Action
    → Type 0
Justified o exists load fresh prints_help = o.show_help ≡ true
Justified o exists load fresh load_fails = load o.config_path ≡ none
Justified o exists load fresh (generates path) = (o.generate_config ≡ true) ⊎ (exists path ≡ false)
Justified o exists load fresh (changes_password c) =
    (o.change_password ≡ true) × (load o.config_path ≡ some c)
Justified o exists load fresh (regenerates_identity c) =
    (o.regenerate_identity ≡ true) × (load o.config_path ≡ some c)
Justified o exists load fresh (runs_server c) =
    (exists o.config_path ≡ true)
    × (c.is_server ≡ true)
    × (c₀ : Config) × (load o.config_path ≡ some c₀)
    × (validate_config fresh c₀ ≡ valid c)
Justified o exists load fresh (runs_client c) =
    (exists o.config_path ≡ true)
    × (c.is_server ≡ false)
    × (c₀ : Config) × (load o.config_path ≡ some c₀)
    × (validate_config fresh c₀ ≡ valid c)
Justified o exists load fresh (rejects e) =
    (c₀ : Config) × (load o.config_path ≡ some c₀) × (validate_config fresh c₀ ≡ invalid e)

if-cases :
    (P : Action → Type 0) (b : Bool) (x y : Action)
    → (b ≡ true → P x)
    → (b ≡ false → P y)
    → P (if b then x else y)
if-cases P true x y f g = f refl
if-cases P false x y f g = g refl

module _ (o : Options) (exists : String → Bool) (load : String → Option Config)
    (fresh : Option (String × String)) where
  after_validation-Justified :
      (c : Config) (v : Validity)
      → load o.config_path ≡ some c
      → validate_config fresh c ≡ v
      → exists o.config_path ≡ true
      → Justified o exists load fresh (after_validation v)
  after_validation-Justified c (invalid e) l h x = (c, l, h)
  after_validation-Justified c (valid d) l h x =
      if-cases (λ a. Justified o exists load fresh a) d.is_server (runs_server d) (runs_client d)
        (λ t. (x, t, c, l, h)) (λ f. (x, f, c, l, h))

  after_load :
      (l : Option Config)
      → load o.config_path ≡ l
      → ((o.change_password ≡ false)
          → (o.regenerate_identity ≡ false)
          → exists o.config_path ≡ true)
      → Justified o exists load fresh (elim l [
        | none ↦ load_fails
        | some c ↦
            if o.change_password
            then changes_password c
            else (if o.regenerate_identity
                then regenerates_identity c
                else after_validation (validate_config fresh c))
      ])
  after_load none e h = e
  after_load (some c) e h =
      if-cases (λ a. Justified o exists load fresh a) o.change_password _ _ (λ t. (t, e))
        (λ f.
          if-cases (λ a. Justified o exists load fresh a) o.regenerate_identity _ _ (λ t. (t, e))
            (λ g. after_validation-Justified c (validate_config fresh c) e refl (h f g)))

  -- What the program does is justified: it generates a configuration only on request or where there is
  -- no file, changes a password or an identity only when asked to and in the loaded configuration, and
  -- runs a server or a client only with an existing file that has loaded and is valid, in its mode.
  pub run_main-Justified : Justified o exists load fresh (run_main o exists load fresh)
  unfolding run_main
  run_main-Justified =
      if-cases (λ a. Justified o exists load fresh a) o.show_help _ _ (λ t. t)
        (λ s.
          if-cases (λ a. Justified o exists load fresh a)
            (o.generate_config
              || ((not o.change_password && not o.regenerate_identity)
                  && not (exists o.config_path)))
            _ _ (λ t. ground arith)
            (λ f. after_load (load o.config_path) refl (λ x y. ground arith)))
