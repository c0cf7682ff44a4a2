-- ===== src/Phase/Times.antt =====
-- The times that the phases of redcli/main.cpp measure: the wall clock from the first thread to the
-- last join, and what each thread adds up of the blocks that it works on.
pub mod Exact
use encoder_rle4k_cpu.Base.{
  ℕ, zero, suc, ◌*◌, Bool, true, false, not, ◌&&◌, List, [], ◌∷◌, Option, none, some, get_elem?,
  get_or, set, replicate, if◌then◌else◌,
}
use encoder_rle4k_cpu.Base.Int.{ℤ, pos, sub_ℕ}
use encoder_rle4k_cpu.Double.{Double, nought}
use encoder_rle4k_cpu.Bitmap.{Bitmap}
use encoder_rle4k_cpu.Digest.{Digest}
use encoder_rle4k_cpu.Stats.{new_timer, start, stop, elapsed_us}
use encoder_rle4k_cpu.WorkerPool.Turns.{Turn}
use encoder_rle4k_cpu.Phase.Decode.{is_missing}

-- The turns of a phase that are measured: those whose row reaches the timer. Phase 1 has no others; the
-- other two `continue` where there is no block.
unfoldable pub measured : (ℕ → Bool) → List Turn → List Turn
measured reaches [] = []
measured reaches (u ∷ us) =
    let rest = measured reaches us in if reaches u.row then u ∷ rest else rest

-- The clock's readings of a phase: `t0`, after the joins, those of its measured turns, and `c0` and the
-- one after the check.
pub record PhaseClock : Type 0 where
  pub spawned : ℕ
  pub joined : ℕ
  pub turns : List Turn
  pub check_started : ℕ
  pub checked : ℕ

-- A reading of the clock is a number of ticks, of which `per_us` make a microsecond.
module _ (per_us : ℕ) where
  -- `rt.start(); …; rt.stop();` and `rt.elapsed_us()`
  unfoldable pub turn_us : Turn → ℕ
  unfolding elapsed_us start stop
  turn_us u = elapsed_us per_us u.stopped (stop u.stopped (start u.started new_timer))

  module _ (D : Double) where
    unfoldable pub rle4k_wall_ms : (t0 now : ℕ) → D.W
    rle4k_wall_ms t0 now = D.div (D.of_ℤ (sub_ℕ now t0)) (D.of_ℤ (pos (1000 * per_us)))

    -- `cpu_us[t] += rt.elapsed_us();`, for each turn.
    unfoldable pub cpu_after : List Turn → List D.W → List D.W
    unfolding turn_us
    cpu_after [] cpu_us = cpu_us
    cpu_after (u ∷ us) cpu_us =
        cpu_after us (
          set cpu_us u.thread
            (D.add (get_or cpu_us u.thread (nought D)) (D.of_ℤ (pos (turn_us u)))))

    -- `for (double c : cpu_us) cpu_ms += c / 1000.0;`
    unfoldable pub add_ms : List D.W → D.W → D.W
    add_ms [] cpu_ms = cpu_ms
    add_ms (c ∷ cs) cpu_ms = add_ms cs (D.add cpu_ms (D.div c (D.literal 10000 1)))

    -- `cpu_ms` of a phase with `nthreads` threads.
    unfoldable pub phase_cpu_ms : ℕ → PhaseClock → D.W
    unfolding cpu_after add_ms
    phase_cpu_ms nthreads clock =
        add_ms (cpu_after clock.turns (replicate nthreads (nought D))) (nought D)

    -- What the phase returns.
    unfoldable pub phase_wall_ms : PhaseClock → D.W
    unfolding rle4k_wall_ms
    phase_wall_ms clock = rle4k_wall_ms clock.spawned clock.joined

    -- `check_ms` of phase 3.
    unfoldable pub phase_check_ms : Bool → PhaseClock → D.W
    unfolding rle4k_wall_ms
    phase_check_ms check clock =
        if check then rle4k_wall_ms clock.check_started clock.checked else nought D
