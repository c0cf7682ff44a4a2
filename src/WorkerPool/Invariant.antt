-- ===== src/WorkerPool/Invariant.antt =====
-- What holds after every step of the worker threads of redcli/main.cpp: a tally of rows and workers,
-- and that the rows still held and those not yet issued are what is left of the sequential loop.
use encoder_rle4k_cpu.Base.{
  ℕ, suc, ◌+◌, ◌-◌, ◌^◌, ◌≤◌, ◌<◌, ◌≡◌, ◌∙◌, ◌⊎◌, Option, some, arith, get_elem?, set, ◌>>=◌,
  bind_assoc, run_from, dec_lt,
}
use encoder_rle4k_cpu.Base.Int.{pos, negsuc}
use encoder_rle4k_cpu.RowQueue.{RowQueue, pop}
use encoder_rle4k_cpu.WorkerPool.{popping, working, after_pop, Pool, Step, take, run, alive}
use encoder_rle4k_cpu.WorkerPool.Held.{
  Commutes, run_held, run_held-set, run_held-get, run_held_comm, run_held-finish,
}
use encoder_rle4k_cpu.WorkerPool.Counts.{
  pop-total, pop-row, pop-end, counts-take, counts-run, counts-finish,
}

-- `n` workers on a window of `total` rows: the counter passes the end once for each worker that left.
pub record Tally {ℓ} {S : Type ℓ} (total n : ℕ) (p : Pool S) : Type 0 where
  pub rows : p.queue.total ≡ pos total
  pub bounded : p.queue.next + alive p.workers ≤ total + n
  pub ended : (alive p.workers ≡ n) ⊎ (total ≤ p.queue.next)

-- A pop either issues the next row, or finds the end.
pub data Popped (total : ℕ) (q : RowQueue) : Type 0 where
  issued : q.next < total → (pop q).0 ≡ pos q.next → (pop q).1.next ≡ q.next + 1 → Popped total q
  drained : total ≤ q.next → (pop q).0 ≡ negsuc 0 → (pop q).1.next ≡ q.next + 1 → Popped total q

module _ {ℓ} {S : Type ℓ} (body : ℕ → S → Option S) (total n : ℕ) (small : total + n < 2 ^ 31) where
  pub take-Popped :
      (p : Pool S) (t : ℕ)
      → get_elem? p.workers t ≡ some popping
      → Tally total n p
      → Popped total p.queue
  take-Popped p t h v = elim (dec_lt p.queue.next total) [
    | yes lt ↦ let (e0, _, e2) = pop-row p.queue total v.rows lt (omega arith) in issued lt e0 e2
    | no ge ↦
        let (e0, _, e2) =
          pop-end p.queue total v.rows (omega arith)
            (omega (arith, counts-finish p.workers t h, v.bounded)) in
        drained (omega arith) e0 e2
  ]

  take-Tally :
      (p : Pool S) (t : ℕ)
      → get_elem? p.workers t ≡ some popping
      → Popped total p.queue
      → Tally total n p
      → Tally total n (record p {
        queue = (pop p.queue).1;
        workers = set p.workers t (after_pop (pop p.queue).0);
      })
  take-Tally p t h (issued lt e0 e2) v = record {
    rows = pop-total p.queue ∙ v.rows;
    bounded = rw (e0, e2) (omega (arith, counts-take p.queue.next p.workers t h, v.bounded));
    ended = rw (e0, e2) (omega (arith, counts-take p.queue.next p.workers t h, v.ended));
  }
  take-Tally p t h (drained le e0 e2) v = record {
    rows = pop-total p.queue ∙ v.rows;
    bounded = rw (e0, e2) (omega (arith, counts-finish p.workers t h, v.bounded));
    ended = rw (e0, e2) (omega arith);
  }

  pub Step-Tally : {p q : Pool S} → Step body p q → Tally total n p → Tally total n q
  Step-Tally {p} (take t h) v = take-Tally p t h (take-Popped p t h v) v
  Step-Tally {p} (run t i h e) v = record {
    rows = v.rows;
    bounded = omega (arith, v.bounded, counts-run i p.workers t h);
    ended = omega (arith, v.ended, counts-run i p.workers t h);
  }

  module _ (s0 : S) (c : Commutes body) where
    abbrev pub Pending : Pool S → Type ℓ
    Pending p =
        (run_held body p.workers p.shared >>= run_from body (total - p.queue.next) p.queue.next)
        ≡ run_from body total 0 s0

    pending-issue :
        (p : Pool S) (t : ℕ)
        → get_elem? p.workers t ≡ some popping
        → p.queue.next < total
        → (run_held body (set p.workers t (working p.queue.next)) p.shared
            >>= run_from body (total - (p.queue.next + 1)) (p.queue.next + 1))
          ≡ (run_held body p.workers p.shared >>= run_from body (total - p.queue.next) p.queue.next)
    unfolding run_from
    pending-issue p t h lt =
        let k : ℕ = p.queue.next in
        let left : total - k ≡ suc (total - (k + 1)) = omega arith in
        rw
          (
            left,
            run_held-set body c p.workers t k p.shared h,
            run_held_comm body c p.workers k p.shared,
          )
          (bind_assoc (run_held body p.workers p.shared) (body k) _)

    take-Pending :
        (p : Pool S) (t : ℕ)
        → get_elem? p.workers t ≡ some popping
        → Popped total p.queue
        → Pending p
        → Pending (record p {
          queue = (pop p.queue).1;
          workers = set p.workers t (after_pop (pop p.queue).0);
        })
    unfolding run_from
    take-Pending p t h (issued lt e0 e2) v = rw (e0, e2) (pending-issue p t h lt ∙ v)
    take-Pending p t h (drained le e0 e2) v =
        let none_left : total - p.queue.next ≡ 0 = omega arith in
        let still_none : total - (p.queue.next + 1) ≡ 0 = omega arith in
        rw (e0, e2, still_none, run_held-finish body p.workers t p.shared h) (rw none_left at v)

    pub Step-Pending : {p q : Pool S} → Step body p q → Tally total n p → Pending p → Pending q
    Step-Pending {p} (take t h) a v = take-Pending p t h (take-Popped p t h a) v
    Step-Pending {p} (run t i h e) a v = rw (← v, run_held-get body c p.workers t i p.shared h, e)
