-- ===== src/Config/Loading.antt =====
-- What `Load` promises of the sizes, and what the compression makes of them.
use f2p.Prelude.{
  ℕ, ◌*◌, ◌≤◌, ◌<◌, ◌≡◌, String, Option, some, none, arith, Option-cases, inl, inr, sym, subst,
  Bool-cases, ltb,
}
use f2p.Prelude.Int.{ℤ, pos, negsuc, pos_part}
use f2p.Config.{
  Config, CommonConfig, MetaData, Toml, loaded, load, load_common, clamp, value_or, fit_min_size,
}
use f2p.Compress.{configure_zstd_params}
use f2p.Compress.Params.{configure_keeps}

-- The ranges that the configuration's documentation gives.
pub record IsInRange (c : CommonConfig) : Type 0 where
  pub level : ℕ
  pub min : ℕ
  pub chunk : ℕ
  pub level_eq : c.zstd_level ≡ pos level
  pub min_eq : c.zstd_min_size_b ≡ pos min
  pub chunk_eq : c.zstd_chunk_size_kb ≡ pos chunk
  pub level_range : (1 ≤ level) × (level ≤ 20)
  pub min_range : (32 ≤ min) × (min ≤ 2048)
  pub chunk_range : (8 ≤ chunk) × (chunk ≤ 128)
  pub below : min < chunk * 1024

clamp_range :
    (low high : ℕ) (x : ℤ)
    → low ≤ high
    → (n : ℕ) × (clamp (pos low) (pos high) x ≡ pos n) × (low ≤ n) × (n ≤ high)
unfolding clamp
clamp_range low high (negsuc x) h = (low, ground arith, omega arith, omega arith)
clamp_range low high (pos x) h = elim (Bool-cases (ltb x low)) [
  | inl e ↦ (low, ground arith, omega arith, omega arith)
  | inr e ↦ elim (Bool-cases (ltb high x)) [
    | inl f ↦ (high, ground arith, omega arith, omega arith)
    | inr f ↦ (x, ground arith, ground arith, ground arith)
  ]
]

-- A value in its range is not changed.
pub clamp_keeps : (low high x : ℕ) → low ≤ x → x ≤ high → clamp (pos low) (pos high) (pos x) ≡ pos x
unfolding clamp
clamp_keeps low high x h k = ground arith

pub fit_keeps : (min chunk : ℕ) → min < chunk * 1024 → fit_min_size (pos min) (pos chunk) ≡ pos min
unfolding fit_min_size
fit_keeps min chunk h = ground arith

pub load_common-IsInRange : (meta : MetaData) (c : CommonConfig) → IsInRange (load_common meta c)
unfolding load_common
load_common-IsInRange meta c =
    let (level, level_eq, l1, l2) =
      clamp_range 1 20 (value_or meta.zstd_level (pos 20) c.zstd_level) (omega arith) in
    let (min, min_eq, m1, m2) =
      clamp_range 32 2048 (value_or meta.zstd_min_size_b (pos 256) c.zstd_min_size_b)
        (omega arith) in
    let (chunk, chunk_eq, c1, c2) =
      clamp_range 8 128 (value_or meta.zstd_chunk_size_kb (pos 32) c.zstd_chunk_size_kb)
        (omega arith) in
    record {
      level = level;
      min = min;
      chunk = chunk;
      level_eq = level_eq;
      min_eq = rw (min_eq, chunk_eq) (fit_keeps min chunk (omega arith));
      chunk_eq = chunk_eq;
      level_range = (l1, l2);
      min_range = (m1, m2);
      chunk_range = (c1, c2);
      below = omega arith;
    }

load-loaded :
    (t : Toml) (file : Option String) (c : Config)
    → load t file ≡ loaded c
    → (meta : MetaData) × (decoded : CommonConfig) × (c.common ≡ load_common meta decoded)
unfolding load
load-loaded t none c e = ground arith
load-loaded t (some text) c e = elim (Option-cases (t.decode text)) [
  | inl f ↦ ground arith
  | inr ((d, meta), f) ↦ (meta, d.common, ground (arith, e, f))
]

-- Every configuration that `Load` returns has the zstd level in 1..20, the smallest compressed size
-- in 32..2048, the chunk size in 8..128 KB and above the smallest size, whatever the file says; and
-- the compression package takes exactly these values, none of which it replaces.
pub load-configure :
    (t : Toml) (file : Option String) (c : Config)
    → load t file ≡ loaded c
    → (r : IsInRange c.common) × (configure_zstd_params c.common.zstd_level c.common.zstd_min_size_b
          (pos (pos_part c.common.zstd_chunk_size_kb * 1024))
        ≡ record { level = pos r.level; min_size = r.min; chunk_size = r.chunk * 1024 })
load-configure t file c e =
    let (meta, d, f) = load-loaded t file c e in
    let r : IsInRange c.common = subst IsInRange (sym f) (load_common-IsInRange meta d) in
    (
      r,
      rw (r.level_eq, r.min_eq, r.chunk_eq)
          (configure_keeps (pos r.level) r.min (r.chunk * 1024) (omega (arith, r.min_range.0))
            r.below),
    )
