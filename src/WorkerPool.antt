-- ===== src/WorkerPool.antt =====
-- The worker threads of redcli/main.cpp: each phase spawns up to ten threads that run one loop, pop a
-- row of the window, stop below 0, and otherwise run the phase's body on that row. The threads
-- interleave in any order. A body reads and writes the shared vectors at its own row only, and is one
-- step here; a body that throws (`none`) has no step.
pub mod Held
pub mod Counts
pub mod Invariant
pub mod Refine
pub mod Halt
pub mod Size
pub mod Turns
use encoder_rle4k_cpu.Base.{
  ℕ, suc, ◌≡◌, List, [], ◌∷◌, Option, some, arith, get_elem?, set, replicate, ltb, leb,
  if◌then◌else◌,
}
use encoder_rle4k_cpu.Base.Int.{ℤ, pos, negsuc, pos_part, max_ℤ, min_ℤ}
use encoder_rle4k_cpu.RowQueue.{RowQueue, new_queue, pop}

-- Where a worker stands in its loop.
pub data Worker : Type 0 where
  popping : Worker  -- before `work.pop()`
  working : (row : ℕ) → Worker  -- with the row in `local`
  finished : Worker  -- past the `break`

-- `if (local < 0) break;`
abbrev pub after_pop : ℤ → Worker
after_pop (pos i) = working i
after_pop (negsuc _) = finished

pub record Pool {ℓ} (S : Type ℓ) : Type ℓ where
  pub queue : RowQueue
  pub workers : List Worker
  pub shared : S

-- `std::max(1, std::min(nthreads, std::min(nwin, 10)))`
unfoldable pub worker_count : ℤ → ℤ → ℤ
unfolding max_ℤ min_ℤ
worker_count nthreads nwin = max_ℤ (pos 1) (min_ℤ nthreads (min_ℤ nwin (pos 10)))

-- The threads of a phase on a window of `nwin` rows.
abbrev pub spawned_threads : ℤ → ℕ → ℕ
spawned_threads nthreads nwin = pos_part (worker_count nthreads (pos nwin))

unfoldable pub spawn {ℓ} : {S : Type ℓ} → ℕ → ℕ → S → Pool S
unfolding new_queue
spawn total n s = record {
  queue = new_queue (pos total);
  workers = replicate n popping;
  shared = s;
}

module _ {ℓ} {S : Type ℓ} (body : ℕ → S → Option S) where
  -- One step of worker `t`.
  pub data Step (p : Pool S) : Pool S → Type ℓ where
    take :
        (t : ℕ)
        → get_elem? p.workers t ≡ some popping
        → Step p (record p {
          queue = (pop p.queue).1;
          workers = set p.workers t (after_pop (pop p.queue).0);
        })
    run :
        (t i : ℕ) {s : S}
        → get_elem? p.workers t ≡ some (working i)
        → body i p.shared ≡ some s
        → Step p (record p { workers = set p.workers t popping; shared = s })

  -- A run of `k` steps, in any interleaving.
  pub data Steps (p : Pool S) : ℕ → Pool S → Type ℓ where
    here : Steps p 0 p
    next : {k : ℕ} {q r : Pool S} → Steps p k q → Step q r → Steps p (suc k) r

-- The workers that have not left the loop; all are joined when there is none.
abbrev pub alive : List Worker → ℕ
alive [] = 0
alive (finished ∷ ws) = alive ws
alive (w ∷ ws) = suc (alive ws)
