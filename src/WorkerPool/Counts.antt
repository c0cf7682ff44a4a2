-- ===== src/WorkerPool/Counts.antt =====
-- What a step of a worker of redcli/main.cpp does to the queue, and to the numbers of workers that
-- hold a row or are still in the loop.
use encoder_rle4k_cpu.Base.{
  ℕ, zero, suc, ◌+◌, ◌^◌, ◌≤◌, ◌<◌, ◌≡◌, refl, List, [], ◌∷◌, some, arith, get_elem?, set,
}
use encoder_rle4k_cpu.Base.Int.{pos, negsuc, signed32_small}
use encoder_rle4k_cpu.RowQueue.{RowQueue, pop}
use encoder_rle4k_cpu.WorkerPool.{Worker, popping, working, finished, alive}

-- What `pop` does to a queue of `total` rows whose counter stands at `k`.
pub pop-row :
    (q : RowQueue) (total : ℕ)
    → q.total ≡ pos total
    → q.next < total
    → total < 2 ^ 31
    → ((pop q).0 ≡ pos q.next) × ((pop q).1.total ≡ pos total) × ((pop q).1.next ≡ q.next + 1)
unfolding pop
pop-row q total e lt small = rw (signed32_small q.next (omega arith), e) (ground arith)

pub pop-end :
    (q : RowQueue) (total : ℕ)
    → q.total ≡ pos total
    → total ≤ q.next
    → q.next + 1 < 2 ^ 31
    → ((pop q).0 ≡ negsuc 0) × ((pop q).1.total ≡ pos total) × ((pop q).1.next ≡ q.next + 1)
unfolding pop
pop-end q total e le small = rw (signed32_small q.next (omega arith), e) (ground arith)

pub pop-total : (q : RowQueue) → (pop q).1.total ≡ q.total
unfolding pop
pop-total q = refl

-- The number of workers that hold a row.
abbrev pub held : List Worker → ℕ
held [] = 0
held (working i ∷ ws) = suc (held ws)
held (popping ∷ ws) = held ws
held (finished ∷ ws) = held ws

module _ (k : ℕ) where
  pub counts-take :
      (ws : List Worker) (t : ℕ)
      → get_elem? ws t ≡ some popping
      → (held (set ws t (working k)) ≡ held ws + 1) × (alive (set ws t (working k)) ≡ alive ws)
  counts-take [] t h = cc
  counts-take (popping ∷ ws) zero h = omega arith
  counts-take (working i ∷ ws) zero h = cc
  counts-take (finished ∷ ws) zero h = cc
  counts-take (popping ∷ ws) (suc t) h = omega (arith, counts-take ws t h)
  counts-take (working i ∷ ws) (suc t) h = omega (arith, counts-take ws t h)
  counts-take (finished ∷ ws) (suc t) h = omega (arith, counts-take ws t h)

  pub counts-run :
      (ws : List Worker) (t : ℕ)
      → get_elem? ws t ≡ some (working k)
      → (held ws ≡ held (set ws t popping) + 1) × (alive (set ws t popping) ≡ alive ws)
  counts-run [] t h = cc
  counts-run (popping ∷ ws) zero h = cc
  counts-run (working i ∷ ws) zero h = omega arith
  counts-run (finished ∷ ws) zero h = cc
  counts-run (popping ∷ ws) (suc t) h = omega (arith, counts-run ws t h)
  counts-run (working i ∷ ws) (suc t) h = omega (arith, counts-run ws t h)
  counts-run (finished ∷ ws) (suc t) h = omega (arith, counts-run ws t h)

pub counts-finish :
    (ws : List Worker) (t : ℕ)
    → get_elem? ws t ≡ some popping
    → (held (set ws t finished) ≡ held ws) × (alive ws ≡ alive (set ws t finished) + 1)
counts-finish [] t h = cc
counts-finish (popping ∷ ws) zero h = omega arith
counts-finish (working i ∷ ws) zero h = cc
counts-finish (finished ∷ ws) zero h = cc
counts-finish (popping ∷ ws) (suc t) h = omega (arith, counts-finish ws t h)
counts-finish (working i ∷ ws) (suc t) h = omega (arith, counts-finish ws t h)
counts-finish (finished ∷ ws) (suc t) h = omega (arith, counts-finish ws t h)
