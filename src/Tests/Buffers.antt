-- ===== src/Tests/Buffers.antt =====
-- The settings and buffers that a run of redcli derives, at concrete inputs.
use encoder_rle4k_cpu.Base.{ℕ, ◌+◌, ◌*◌, ◌<◌, ◌≤◌, ◌≡◌, refl, true, [], some, arith, if◌then◌else◌}
use encoder_rle4k_cpu.Base.Int.{pos, negsuc, ◌≤ℤ◌}
use encoder_rle4k_cpu.BufferPool.{Manager, new_manager}
use encoder_rle4k_cpu.System.{World}
use encoder_rle4k_cpu.Config.{BenchConfig, default_config}
use encoder_rle4k_cpu.Settings.{Threads, with_env_threads, clamp_config, threads}
use encoder_rle4k_cpu.WorkerPool.{spawned_threads}
use encoder_rle4k_cpu.WorkerPool.Size.{FewThreads, threads-FewThreads}
use encoder_rle4k_cpu.Run.Geometry.{with_strip_width}
use encoder_rle4k_cpu.Run.Command.{prepare_buffers}
use encoder_rle4k_cpu.Run.Prepared.{with_strip_width-prepare_buffers}
use encoder_rle4k_cpu.Tests.Machine.{numbers, machine}

abbrev config : BenchConfig ℕ
config = record (default_config numbers) {
  raster_threads = pos 64;
  encode_threads = negsuc 0;
  decode_threads = pos 3;
  cache_blocks_min = pos 8;
  cache_blocks_max = pos 2;
}

threads-FewThreads_example :
    let t : Threads = threads (clamp_config (with_env_threads (some (pos 4)) config)) in
    FewThreads 7 (spawned_threads t.rt_threads 7)
    × FewThreads 7 (spawned_threads t.et_threads 7)
    × FewThreads 7 (spawned_threads t.dt_threads 7)
    × (pos 1 ≤ℤ t.cache_blocks)
    × (pos 8 ≤ℤ t.cache_blocks)
threads-FewThreads_example = threads-FewThreads (some (pos 4)) config 7 (omega arith) (omega arith)

abbrev world : World machine
world = record { disk = []; out = []; err = []; buffers = new_manager }

with_strip_width-prepare_buffers_example :
    (sized : BenchConfig ℕ) × (with_strip_width config ≡ some sized)
    × ((q : ℕ) × (sized.strip_width ≡ pos (q * 512))
        × (1920 * 32 + 512 ≤ q * 512)
        × (q * 512 < 1920 * 32 + 512 + 512))
    × let after : Manager = (prepare_buffers numbers machine sized world).buffers in
      (after.initialized ≡ true)
      × ((1920 * 32 + 512) * 512 ≤ 8 * after.current_buffer_size)
      × ((if world.buffers.initialized then world.buffers.current_buffer_size else 0)
          ≤ after.current_buffer_size)
with_strip_width-prepare_buffers_example =
    with_strip_width-prepare_buffers numbers machine config world 1920 512 32 512 512 refl refl refl
      refl refl refl (omega arith) (omega arith) (omega arith) (omega arith) (omega arith)
