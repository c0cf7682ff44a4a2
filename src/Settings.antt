-- ===== src/Settings.antt =====
-- The settings of a run that redcli/main.cpp (`rle4k_cmd_run`) derives: thread counts and cache sizes.
pub mod Bounds
use encoder_rle4k_cpu.Base.{ℕ, ◌+◌, ◌-◌, ◌*◌, ◌/◌, Option, none, some, ◌==◌, ltb, if◌then◌else◌}
use encoder_rle4k_cpu.Base.Int.{ℤ, pos, negsuc, ltb_ℤ, max_ℤ}
use encoder_rle4k_cpu.Config.{BenchConfig}

-- `if (x < lo) x = lo;` and `if (x > hi) x = hi;`
abbrev pub at_least : ℤ → ℤ → ℤ
at_least lo x = if ltb_ℤ x lo then lo else x

abbrev pub at_most : ℤ → ℤ → ℤ
at_most hi x = if ltb_ℤ hi x then hi else x

module _ {W : Type 0} where
  -- The thread count of the environment, where it is positive.
  unfoldable pub with_env_threads : Option ℤ → BenchConfig W → BenchConfig W
  with_env_threads none cfg = cfg
  with_env_threads (some t) cfg = if ltb_ℤ (pos 0) t then record cfg { raster_threads = t } else cfg

  -- The bounds, in the order of the source.
  unfoldable pub clamp_config : BenchConfig W → BenchConfig W
  clamp_config cfg =
      let cache_min = at_least (pos 1) cfg.cache_blocks_min in
      record cfg {
        raster_threads = at_most (pos 10) (at_least (pos 1) cfg.raster_threads);
        encode_threads = at_most (pos 10) (at_least (pos 0) cfg.encode_threads);
        decode_threads = at_most (pos 10) (at_least (pos 0) cfg.decode_threads);
        cache_blocks_min = cache_min;
        cache_blocks_max =
            if ltb_ℤ cfg.cache_blocks_max cache_min then cache_min else cfg.cache_blocks_max;
      }

pub record Threads : Type 0 where
  pub rt_threads : ℤ
  pub et_threads : ℤ
  pub dt_threads : ℤ
  pub cache_blocks : ℤ

-- `rt_threads`, `et_threads`, `dt_threads` and `cache_blocks` of a file.
unfoldable pub threads : {W : Type 0} → BenchConfig W → Threads
unfolding max_ℤ
threads cfg =
    let rt = max_ℤ (pos 1) cfg.raster_threads in
    record {
      rt_threads = rt;
      et_threads = if ltb_ℤ (pos 0) cfg.encode_threads then cfg.encode_threads else rt;
      dt_threads = if ltb_ℤ (pos 0) cfg.decode_threads then cfg.decode_threads else rt;
      cache_blocks = max_ℤ (max_ℤ (pos 1) cfg.cache_blocks_min) cfg.cache_blocks_max;
    }
