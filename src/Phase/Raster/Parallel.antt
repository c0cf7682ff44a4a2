-- ===== src/Phase/Raster/Parallel.antt =====
-- Rasterizing by the worker threads of redcli/main.cpp, in any interleaving.
use encoder_rle4k_cpu.Base.{ℕ, ◌+◌, ◌^◌, ◌<◌, ◌≡◌, Bool, Option, some, arith}
use encoder_rle4k_cpu.Bitmap.{Bitmap, Result}
use encoder_rle4k_cpu.WorkerPool.{Pool, spawn, Steps, alive}
use encoder_rle4k_cpu.WorkerPool.Held.{Commutes}
use encoder_rle4k_cpu.WorkerPool.Refine.{joined-run_from}
use encoder_rle4k_cpu.Phase.Slots.{set_comm, slot_body-Commutes}
use encoder_rle4k_cpu.Phase.Raster.{
  Raw, empty_window, raster_row, raster_write, raster_body, raster_window, total_bytes,
}

module _ (rasterize : ℕ → ℕ → Result (Option Bitmap)) (col row0 : ℕ) (do_hash : Bool) where
  raster_body-Commutes : Commutes (raster_body rasterize col row0 do_hash)
  unfolding raster_body
  raster_body-Commutes =
      slot_body-Commutes (raster_row rasterize col row0 do_hash) raster_write (λ i j a b s ne.
        ground (arith, set_comm s.digests i j a.0 b.0, set_comm s.blocks i j a.1 b.1))

-- When the workers of a window of `nwin` rows have all left their loops, in any interleaving of any
-- number `n` (at least one, and the counter must not overflow) of them, what they share is what `raster_window` returns, with the bytes of its blocks.
pub joined-raster_window :
    (rasterize : ℕ → ℕ → Result (Option Bitmap)) (col row0 : ℕ) (do_hash : Bool) (nwin n : ℕ)
    {k : ℕ} {q : Pool Raw}
    → nwin + n < 2 ^ 31
    → 0 < n
    → Steps (raster_body rasterize col row0 do_hash) (spawn nwin n (empty_window nwin)) k q
    → alive q.workers ≡ 0
    → raster_window rasterize col row0 do_hash nwin ≡ some (q.shared, total_bytes q.shared.blocks)
unfolding raster_window
joined-raster_window rasterize col row0 do_hash nwin n {q = q} small some_worker r joined = rw (
    joined-run_from (raster_body rasterize col row0 do_hash) nwin n (empty_window nwin)
      (raster_body-Commutes rasterize col row0 do_hash) small some_worker r joined)
