-- ===== src/Tests/Pool.antt =====
-- The queue and the worker pool of redcli at concrete inputs.
use encoder_rle4k_cpu.Base.{
  ℕ, ◌^◌, ◌≤◌, true, List, length, replicate, ◌+◌, ◌*◌, ◌≡◌, refl, ap, [], ◌∷◌, Option, some, arith,
  get_elem?, ltb, run_from, if◌then◌else◌,
}
use encoder_rle4k_cpu.Base.Int.{pos, negsuc, signed32}
use encoder_rle4k_cpu.RowQueue.{new_queue, pop}
use encoder_rle4k_cpu.RowQueue.Order.{pops, get_elem?-pops}
use encoder_rle4k_cpu.WorkerPool.{finished, Pool, spawn, take, run, Steps, here, next}
use encoder_rle4k_cpu.WorkerPool.Held.{Commutes}
use encoder_rle4k_cpu.WorkerPool.Refine.{joined-run_from}
use encoder_rle4k_cpu.WorkerPool.Turns.{Turn, turns_of, times_done, joined-times_done}
use encoder_rle4k_cpu.Double.{nought}
use encoder_rle4k_cpu.Phase.Times.{measured, cpu_after}
use encoder_rle4k_cpu.Phase.Times.Exact.{
  AddsExactly, sum_ℕ, total_us, Timed, as_doubles, cpu_after-total_us,
}
use encoder_rle4k_cpu.Tests.Machine.{numbers}

get_elem?-pops_example :
    get_elem? (pops 3 (new_queue (pos 2))) 2 ≡ some (if ltb 2 2 then pos 2 else negsuc 0)
get_elem?-pops_example = get_elem?-pops 3 2 2 (omega arith) (omega arith)

-- A pool of two workers that have both left the loop.
abbrev pub joined {ℓ} : {S : Type ℓ} → S → Pool S
joined s = record {
  queue = record { total = pos 1; next = 3 };
  workers = finished ∷ finished ∷ [];
  shared = s;
}

-- Two workers on one row: the second finds no row while the first works on it.
pub one_row {ℓ} :
    {S : Type ℓ} (body : ℕ → S → Option S) (s s' : S)
    → body 0 s ≡ some s'
    → Steps body (spawn 1 2 s) 4 (joined s')
unfolding spawn new_queue pop signed32
one_row body s s' e =
    next (next (next (next here (take 0 refl)) (take 1 refl)) (run 0 0 refl e)) (take 0 refl)

-- A body that adds up the rows.
abbrev sum_rows : ℕ → ℕ → Option ℕ
sum_rows i s = some (s + i + 5)

sum_rows-Commutes : Commutes sum_rows
sum_rows-Commutes i j s = let e : s + i + 5 + j + 5 ≡ s + j + 5 + i + 5 = omega arith in ap some e

joined-run_from_example : run_from sum_rows 1 0 2 ≡ some (joined {S = ℕ} 7).shared
joined-run_from_example =
    joined-run_from sum_rows 1 2 2 sum_rows-Commutes (omega arith) (omega arith)
      (one_row sum_rows 2 7 refl) refl

-- The two readings of each step.
abbrev ticks : ℕ → ℕ × ℕ
ticks k = (1000 * k, 1000 * k + 700)

joined-times_done_example :
    times_done 0 (turns_of sum_rows (spawn 1 2 2) ticks (one_row sum_rows 2 7 refl)) ≡ 1
joined-times_done_example =
    joined-times_done sum_rows 1 2 2 ticks 0 (omega arith) (omega arith) (one_row sum_rows 2 7 refl)
      refl

numbers-AddsExactly : AddsExactly numbers
numbers-AddsExactly = record { zero_is = refl; adds = λ a b small. refl }

abbrev turns : List Turn
turns = measured (λ row. true) (turns_of sum_rows (spawn 1 2 2) ticks (one_row sum_rows 2 7 refl))

timed : Timed 10 turns
unfolding measured turns_of one_row
timed = (omega arith, omega arith, tt)

short : total_us 10 turns ≤ 2 ^ 53
unfolding measured turns_of one_row
short = omega arith

cpu_after-total_us_example :
    (ys : List ℕ) × (cpu_after 10 numbers turns (replicate 2 (nought numbers))
      ≡ as_doubles numbers ys)
    × (length ys ≡ 2)
    × (sum_ℕ ys ≡ total_us 10 turns)
cpu_after-total_us_example =
    cpu_after-total_us numbers 10 sum_rows 1 2 2 ticks (λ row. true) numbers-AddsExactly
      (one_row sum_rows 2 7 refl) timed short
