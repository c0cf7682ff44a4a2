-- ===== src/Run/Times.antt =====
-- The times of a run of redcli/main.cpp: of the loader, and the sums over the windows and repetitions of
-- a column.
use encoder_rle4k_cpu.Base.{ℕ, zero, suc, ◌<◌, ◌≡◌, refl, Option, some, arith, if◌then◌else◌}
use encoder_rle4k_cpu.Base.Int.{pos}
use encoder_rle4k_cpu.Double.{Double, nought}
use encoder_rle4k_cpu.Stats.{new_timer, start, stop, elapsed_us}
use encoder_rle4k_cpu.WorkerPool.{worker_count, spawned_threads}
use encoder_rle4k_cpu.Column.{Switches, run_windows}
use encoder_rle4k_cpu.Column.Windows.{run_windows_total}
use encoder_rle4k_cpu.Settings.{Threads}
use encoder_rle4k_cpu.Phase.Times.{PhaseClock, phase_wall_ms, phase_cpu_ms, phase_check_ms}
use encoder_rle4k_cpu.Run.{PhaseKind, rasterizing, encoding, decoding}

-- `wrd`, and the sums over the windows and repetitions of a column.
pub record ColumnTimes (W : Type 0) : Type 0 where
  pub wrd : W
  pub wed_sum : W
  pub wdd_sum : W
  pub wchk_sum : W
  pub enc_cpu_sum : W
  pub dec_cpu_sum : W

module _ (D : Double) (per_us : ℕ) where
  -- `load_t.start(); …; load_t.stop();` and `load_t.elapsed_us() / 1000.0`
  unfoldable pub load_ms : ℕ × ℕ → D.W
  unfolding elapsed_us start stop
  load_ms (t0, t1) =
      D.div (D.of_ℤ (pos (elapsed_us per_us t1 (stop t1 (start t0 new_timer))))) (D.literal 10000 1)

  abbrev pub no_times : ColumnTimes D.W
  no_times = record {
    wrd = nought D;
    wed_sum = nought D;
    wdd_sum = nought D;
    wchk_sum = nought D;
    enc_cpu_sum = nought D;
    dec_cpu_sum = nought D;
  }

  module _ (th : Threads) (sw : Switches) (clock : PhaseKind → (row0 rep : ℕ) → PhaseClock) where
    -- The repetitions of phase 2 that are left, from `rep` on.
    unfoldable pub encode_times : (row0 nwin left rep : ℕ) → ColumnTimes D.W → ColumnTimes D.W
    unfolding phase_wall_ms phase_cpu_ms worker_count
    encode_times row0 nwin zero rep t = t
    encode_times row0 nwin (suc left) rep t =
        let c : PhaseClock = clock encoding row0 rep in
        encode_times row0 nwin left (suc rep) (record t {
          wed_sum = D.add t.wed_sum (phase_wall_ms per_us D c);
          enc_cpu_sum =
              D.add t.enc_cpu_sum (phase_cpu_ms per_us D (spawned_threads th.et_threads nwin) c);
        })

    -- The repetitions of phase 3.
    unfoldable pub decode_times : (row0 nwin left rep : ℕ) → ColumnTimes D.W → ColumnTimes D.W
    unfolding phase_wall_ms phase_cpu_ms phase_check_ms worker_count
    decode_times row0 nwin zero rep t = t
    decode_times row0 nwin (suc left) rep t =
        let c : PhaseClock = clock decoding row0 rep in
        decode_times row0 nwin left (suc rep) (record t {
          wdd_sum = D.add t.wdd_sum (phase_wall_ms per_us D c);
          dec_cpu_sum =
              D.add t.dec_cpu_sum (phase_cpu_ms per_us D (spawned_threads th.dt_threads nwin) c);
          wchk_sum = D.add t.wchk_sum (phase_check_ms per_us D sw.do_check c);
        })

    -- A window: phase 1 once, and the others as often as they are repeated.
    unfoldable pub window_times : (row0 nwin : ℕ) → ColumnTimes D.W → ColumnTimes D.W
    unfolding encode_times decode_times phase_wall_ms
    window_times row0 nwin t =
        let rastered : ColumnTimes D.W = record t {
          wrd = D.add t.wrd (phase_wall_ms per_us D (clock rasterizing row0 0));
        } in
        let encoded : ColumnTimes D.W =
          if sw.do_encode then encode_times row0 nwin sw.repeat 0 rastered else rastered in
        if sw.do_decode then decode_times row0 nwin sw.repeat 0 encoded else encoded

    unfoldable pub column_times : (cache_blocks nrows : ℕ) → Option (ColumnTimes D.W)
    unfolding window_times run_windows
    column_times cache_blocks nrows =
        run_windows (λ row0 nwin t. some (window_times row0 nwin t)) cache_blocks nrows nrows 0
          no_times

    -- A window has a row at least, so the loop ends.
    pub column_times_total :
        (cache_blocks nrows : ℕ)
        → 0 < cache_blocks
        → (t : ColumnTimes D.W) × (column_times cache_blocks nrows ≡ some t)
    unfolding column_times
    column_times_total cache_blocks nrows some_block =
        let (t, e, done) =
          run_windows_total (λ row0 nwin t. some (window_times row0 nwin t)) cache_blocks nrows
            (λ row0 t. Unit {0}) some_block
            (λ row0 nwin t positive inside p. (window_times row0 nwin t, refl, tt)) nrows 0 no_times
            (omega arith) (omega arith) tt in
        (t, e)
