-- ===== src/Settings/Bounds.antt =====
-- The bounds of the settings that redcli/main.cpp derives.
use encoder_rle4k_cpu.Base.{subst, ◌≡◌, refl, Option, none, some, arith, if◌then◌else◌}
use encoder_rle4k_cpu.Base.Int.{ℤ, pos, ◌≤ℤ◌, ltb_ℤ, max_ℤ}
use encoder_rle4k_cpu.Config.{BenchConfig}
use encoder_rle4k_cpu.Settings.{with_env_threads, clamp_config, threads, at_least, at_most}

-- A phase's thread count is from 1 to 10.
abbrev pub Between : ℤ → ℤ → ℤ → Type 0
Between lo hi x = (lo ≤ℤ x) × (x ≤ℤ hi)

one_to_ten : (x : ℤ) → Between (pos 1) (pos 10) (at_most (pos 10) (at_least (pos 1) x))
one_to_ten x = (ground arith, ground arith)

at_least_one : (x : ℤ) → Between (pos 1) (pos 10) x → Between (pos 1) (pos 10) (max_ℤ (pos 1) x)
unfolding max_ℤ
at_least_one x b = (ground arith, ground arith)

other_threads :
    (x rt : ℤ)
    → Between (pos 1) (pos 10) rt
    → Between (pos 1) (pos 10) (
        if ltb_ℤ (pos 0) (at_most (pos 10) (at_least (pos 0) x))
        then at_most (pos 10) (at_least (pos 0) x)
        else rt)
other_threads x rt b = (ground arith, ground arith)

cache_bound :
    (lo hi : ℤ)
    → pos 1
      ≤ℤ max_ℤ
          (max_ℤ (pos 1) (at_least (pos 1) lo))
          (if ltb_ℤ hi (at_least (pos 1) lo) then at_least (pos 1) lo else hi)
unfolding max_ℤ
cache_bound lo hi = ground arith

cache_covers :
    (lo hi : ℤ)
    → lo
      ≤ℤ max_ℤ
          (max_ℤ (pos 1) (at_least (pos 1) lo))
          (if ltb_ℤ hi (at_least (pos 1) lo) then at_least (pos 1) lo else hi)
unfolding max_ℤ
cache_covers lo hi = ground arith

env_cache :
    {W : Type 0} (env : Option ℤ) (cfg : BenchConfig W)
    → (with_env_threads env cfg).cache_blocks_min ≡ cfg.cache_blocks_min
unfolding with_env_threads
env_cache none cfg = refl
env_cache (some t) cfg = ground arith

-- Whatever the configuration and the environment say, each phase has 1 to 10 threads, a window has a row
-- at least, and the number of rows of a window is not below the configured minimum.
pub threads-bounds :
    {W : Type 0} (env : Option ℤ) (cfg : BenchConfig W)
    → let t = threads (clamp_config (with_env_threads env cfg)) in
      Between (pos 1) (pos 10) t.rt_threads
      × Between (pos 1) (pos 10) t.et_threads
      × Between (pos 1) (pos 10) t.dt_threads
      × (pos 1 ≤ℤ t.cache_blocks)
      × (cfg.cache_blocks_min ≤ℤ t.cache_blocks)
unfolding threads clamp_config with_env_threads max_ℤ
threads-bounds env cfg =
    let c = with_env_threads env cfg in
    let rt = at_least_one _ (one_to_ten c.raster_threads) in
    (
      rt,
      other_threads c.encode_threads _ rt,
      other_threads c.decode_threads _ rt,
      cache_bound c.cache_blocks_min c.cache_blocks_max,
      subst (λ x. x ≤ℤ (threads (clamp_config c)).cache_blocks) (env_cache env cfg)
          (cache_covers c.cache_blocks_min c.cache_blocks_max),
    )
