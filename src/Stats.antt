-- ===== src/Stats.antt =====
-- redcli/rle4k_stats.h: the timer that the phases and the loader use, and the statistics of a block.
-- A reading of the clock is a number of ticks, of which `per_us` make a microsecond.
use encoder_rle4k_cpu.Base.{
  ℕ, ◌-◌, ◌/◌, ◌%◌, ◌^◌, ◌≤◌, ◌<◌, ◌≡◌, refl, ap, ◌∙◌, Bool, true, false, List, [], ◌∷◌, arith, leb,
  if◌then◌else◌,
}
use encoder_rle4k_cpu.Bitmap.{Bitmap}

-- `performance_timer`
pub record Timer : Type 0 where
  pub start_time : ℕ
  pub end_time : ℕ
  pub running : Bool

abbrev pub new_timer : Timer
new_timer = record { start_time = 0; end_time = 0; running = false }

unfoldable pub start : ℕ → Timer → Timer
start now t = record t { start_time = now; running = true }

unfoldable pub stop : ℕ → Timer → Timer
stop now t = if t.running then record t { end_time = now; running = false } else t

unfoldable pub reset : Timer → Timer
reset t = record t { running = false }

-- `(uint32_t)` of the whole microseconds from one time to another, which may lie before it.
abbrev pub elapsed_from : ℕ → ℕ → ℕ → ℕ
elapsed_from per_us from to =
    if leb from to
    then (to - from) / per_us % 2 ^ 32
    else (2 ^ 32 - (from - to) / per_us % 2 ^ 32) % 2 ^ 32

unfoldable pub elapsed_us : ℕ → ℕ → Timer → ℕ
elapsed_us per_us now t = elapsed_from per_us t.start_time (if t.running then now else t.end_time)

-- Stops at these times, the last one first.
unfoldable pub stops : List ℕ → Timer → Timer
unfolding stop
stops [] t = t
stops (now ∷ earlier) t = stop now (stops earlier t)

-- Only the first stop counts.
stops-stopped :
    (later : List ℕ) (t0 t1 : ℕ) (t : Timer)
    → stops later (stop t1 (start t0 t))
      ≡ record { start_time = t0; end_time = t1; running = false }
unfolding stops stop start
stops-stopped [] t0 t1 t = refl
stops-stopped (now ∷ later) t0 t1 t = ap (stop now) (stops-stopped later t0 t1 t)

-- A timer that was started and then stopped once or more reads the whole microseconds between the start
-- and the first stop, whenever it is read and whatever it read before, where these fit in 32 bits.
pub elapsed_us-stops :
    (per_us now t0 t1 : ℕ) (later : List ℕ) (t : Timer)
    → t0 ≤ t1
    → (t1 - t0) / per_us < 2 ^ 32
    → elapsed_us per_us now (stops later (stop t1 (start t0 t))) ≡ (t1 - t0) / per_us
unfolding elapsed_us
elapsed_us-stops per_us now t0 t1 later t ordered small =
    ap (elapsed_us per_us now) (stops-stopped later t0 t1 t) ∙ within per_us t0 t1 ordered small
  where
    within :
        (per_us t0 t1 : ℕ)
        → t0 ≤ t1
        → (t1 - t0) / per_us < 2 ^ 32
        → elapsed_from per_us t0 t1 ≡ (t1 - t0) / per_us
    within per_us t0 t1 ordered small = ground arith

-- `block_performance_stats`
pub record BlockPerformanceStats : Type 0 where
  pub rasterization_time_us : ℕ
  pub compression_time_us : ℕ
  pub original_size : ℕ
  pub compressed_size : ℕ
  pub compression_ratio : ℕ

unfoldable pub block_performance_stats : Bitmap → BlockPerformanceStats
block_performance_stats bmp = record {
  rasterization_time_us = bmp.raster_elapsed_us;
  compression_time_us = bmp.encode_elapsed_us;
  original_size = bmp.source_length;
  compressed_size = bmp.data_length;
  compression_ratio = bmp.compression_ratio;
}

abbrev pub no_stats : BlockPerformanceStats
no_stats = record {
  rasterization_time_us = 0;
  compression_time_us = 0;
  original_size = 0;
  compressed_size = 0;
  compression_ratio = 0;
}

-- `memset(this, 0, sizeof(*this))`
unfoldable pub reset_stats : BlockPerformanceStats → BlockPerformanceStats
reset_stats s = no_stats
