-- ===== src/WorkerPool/Size.antt =====
-- How many threads the phases of redcli/main.cpp spawn, with the settings of a run.
use encoder_rle4k_cpu.Base.{ℕ, ◌+◌, ◌^◌, ◌≤◌, ◌<◌, Option, arith}
use encoder_rle4k_cpu.Base.Int.{ℤ, pos, ◌≤ℤ◌, max_ℤ, min_ℤ}
use encoder_rle4k_cpu.Config.{BenchConfig}
use encoder_rle4k_cpu.Settings.{with_env_threads, clamp_config, threads}
use encoder_rle4k_cpu.Settings.Bounds.{threads-bounds}
use encoder_rle4k_cpu.WorkerPool.{worker_count, spawned_threads}

-- From one thread to ten, no more than rows, and too few for the counter of the queue to overflow.
abbrev pub FewThreads : ℕ → ℕ → Type 0
FewThreads nwin n = (0 < n) × (n ≤ 10) × (n ≤ nwin) × (nwin + n < 2 ^ 31)

spawned_threads-FewThreads :
    (nthreads : ℤ) (nwin : ℕ)
    → 0 < nwin
    → nwin + 10 < 2 ^ 31
    → pos 1 ≤ℤ nthreads
    → FewThreads nwin (spawned_threads nthreads nwin)
unfolding worker_count max_ℤ min_ℤ
spawned_threads-FewThreads nthreads nwin some_row small asked =
    (ground arith, ground arith, ground arith, ground arith)

-- Whatever the configuration and the environment say, each phase spawns on a window with rows from one
-- to ten threads and no more than there are rows, and so few that the counter of its queue does not
-- overflow, where the window has less than 2 ^ 31 - 10 rows. A window has a row at least, and may have
-- as many as the configured minimum.
pub threads-FewThreads :
    {W : Type 0} (env : Option ℤ) (cfg : BenchConfig W) (nwin : ℕ)
    → 0 < nwin
    → nwin + 10 < 2 ^ 31
    → let t = threads (clamp_config (with_env_threads env cfg)) in
      FewThreads nwin (spawned_threads t.rt_threads nwin)
      × FewThreads nwin (spawned_threads t.et_threads nwin)
      × FewThreads nwin (spawned_threads t.dt_threads nwin)
      × (pos 1 ≤ℤ t.cache_blocks)
      × (cfg.cache_blocks_min ≤ℤ t.cache_blocks)
threads-FewThreads env cfg nwin some_row small =
    let (rt, et, dt, cache, covers) = threads-bounds env cfg in
    (
      spawned_threads-FewThreads _ nwin some_row small rt.0,
      spawned_threads-FewThreads _ nwin some_row small et.0,
      spawned_threads-FewThreads _ nwin some_row small dt.0,
      cache,
      covers,
    )
