-- ===== src/Compress/Params.antt =====
-- The parameters that `ConfigureZstdParams` stores.
use f2p.Prelude.{ℕ, ◌≤◌, ◌<◌, ◌≡◌, ◌⊎◌, arith}
use f2p.Prelude.Int.{ℤ, pos}
use f2p.Compress.{configure_zstd_params}

-- Whatever it is given, both sizes that `ConfigureZstdParams` stores are positive, and the minimum is
-- below the chunk size or is 32: chunks below 33 bytes are then never compressed.
pub configure_positive :
    (level min_size chunk_size : ℤ)
    → let p = configure_zstd_params level min_size chunk_size in
      (1 ≤ p.chunk_size) × (1 ≤ p.min_size) × ((p.min_size < p.chunk_size) ⊎ (p.min_size ≡ 32))
unfolding configure_zstd_params
configure_positive level min_size chunk_size = ground arith

-- Sizes that are positive and in order are stored as they are.
pub configure_keeps :
    (level : ℤ) (min chunk : ℕ)
    → 1 ≤ min
    → min < chunk
    → configure_zstd_params level (pos min) (pos chunk)
      ≡ record { level = level; min_size = min; chunk_size = chunk }
unfolding configure_zstd_params
configure_keeps level min chunk h k = ground arith
