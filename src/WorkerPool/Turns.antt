-- ===== src/WorkerPool/Turns.antt =====
-- The turns that the worker threads of redcli/main.cpp take on the rows of a window.
use encoder_rle4k_cpu.Base.{
  ℕ, zero, Option, suc, ◌+◌, ◌^◌, ◌<◌, ◌≡◌, refl, List, [], ◌∷◌, ◌++◌, some, arith, get_elem?, set,
  replicate, ltb, ◌==◌, ◌&&◌, if◌then◌else◌,
}
use encoder_rle4k_cpu.RowQueue.{pop}
use encoder_rle4k_cpu.WorkerPool.{
  Worker, popping, working, finished, after_pop, Pool, spawn, take, run, Steps, here, next, alive,
}
use encoder_rle4k_cpu.WorkerPool.Invariant.{Tally, Popped, issued, drained, take-Popped}
use encoder_rle4k_cpu.WorkerPool.Refine.{Steps-Tally}

-- A worker's turn on a row: what the clock read before and after the work.
pub record Turn : Type 0 where
  pub thread : ℕ
  pub row : ℕ
  pub started : ℕ
  pub stopped : ℕ

module _ {ℓ} {S : Type ℓ} (body : ℕ → S → Option S) (p : Pool S) (clock : ℕ → ℕ × ℕ) where
  -- The turns of a run, in their order; `clock` has the two readings in each step.
  unfoldable pub turns_of : {k : ℕ} {q : Pool S} → Steps body p k q → List Turn
  turns_of here = []
  turns_of (next r (take t h)) = turns_of r
  turns_of (next {k} r (run t i h e)) =
      turns_of r
      ++ (record { thread = t; row = i; started = (clock k).0; stopped = (clock k).1 } ∷ [])

-- How often row `i` is in the turns, and with the workers.
abbrev pub times_done : ℕ → List Turn → ℕ
times_done i [] = 0
times_done i (u ∷ us) = (if i == u.row then 1 else 0) + times_done i us

abbrev times_held : ℕ → List Worker → ℕ
times_held i [] = 0
times_held i (working j ∷ ws) = (if i == j then 1 else 0) + times_held i ws
times_held i (popping ∷ ws) = times_held i ws
times_held i (finished ∷ ws) = times_held i ws

module _ (i : ℕ) where
  times_done-append :
      (us vs : List Turn) → times_done i (us ++ vs) ≡ times_done i us + times_done i vs
  times_done-append [] vs = omega arith
  times_done-append (u ∷ us) vs = omega (arith, times_done-append us vs)

  times_held-take :
      (ws : List Worker) (t k : ℕ)
      → get_elem? ws t ≡ some popping
      → times_held i (set ws t (working k)) ≡ (if i == k then 1 else 0) + times_held i ws
  times_held-take [] t k h = cc
  times_held-take (popping ∷ ws) zero k h = refl
  times_held-take (working j ∷ ws) zero k h = cc
  times_held-take (finished ∷ ws) zero k h = cc
  times_held-take (popping ∷ ws) (suc t) k h = omega (arith, times_held-take ws t k h)
  times_held-take (working j ∷ ws) (suc t) k h = omega (arith, times_held-take ws t k h)
  times_held-take (finished ∷ ws) (suc t) k h = omega (arith, times_held-take ws t k h)

  times_held-run :
      (ws : List Worker) (t k : ℕ)
      → get_elem? ws t ≡ some (working k)
      → times_held i ws ≡ (if i == k then 1 else 0) + times_held i (set ws t popping)
  times_held-run [] t k h = cc
  times_held-run (popping ∷ ws) zero k h = cc
  times_held-run (working j ∷ ws) zero k h = let e : j ≡ k = cc in rw e refl
  times_held-run (finished ∷ ws) zero k h = cc
  times_held-run (popping ∷ ws) (suc t) k h = omega (arith, times_held-run ws t k h)
  times_held-run (working j ∷ ws) (suc t) k h = omega (arith, times_held-run ws t k h)
  times_held-run (finished ∷ ws) (suc t) k h = omega (arith, times_held-run ws t k h)

  times_held-finish :
      (ws : List Worker) (t : ℕ)
      → get_elem? ws t ≡ some popping
      → times_held i (set ws t finished) ≡ times_held i ws
  times_held-finish [] t h = cc
  times_held-finish (popping ∷ ws) zero h = refl
  times_held-finish (working j ∷ ws) zero h = cc
  times_held-finish (finished ∷ ws) zero h = cc
  times_held-finish (popping ∷ ws) (suc t) h = omega (arith, times_held-finish ws t h)
  times_held-finish (working j ∷ ws) (suc t) h = omega (arith, times_held-finish ws t h)
  times_held-finish (finished ∷ ws) (suc t) h = omega (arith, times_held-finish ws t h)

  times_held-replicate : (n : ℕ) → times_held i (replicate n popping) ≡ 0
  times_held-replicate zero = refl
  times_held-replicate (suc n) = omega (arith, times_held-replicate n)

  times_held-joined : (ws : List Worker) → alive ws ≡ 0 → times_held i ws ≡ 0
  times_held-joined [] h = refl
  times_held-joined (finished ∷ ws) h = omega (arith, times_held-joined ws h)
  times_held-joined (popping ∷ ws) h = absurd (omega arith)
  times_held-joined (working j ∷ ws) h = absurd (omega arith)

-- 1 where row `i` is a row of the window that the queue has issued.
abbrev issued_row : (total i issued_rows : ℕ) → ℕ
issued_row total i issued_rows = if ltb i issued_rows && ltb i total then 1 else 0

module _ {ℓ} {S : Type ℓ} (body : ℕ → S → Option S) (total n : ℕ) (small : total + n < 2 ^ 31)
    (s : S) (clock : ℕ → ℕ × ℕ) (i : ℕ) where
  take-issued :
      (p : Pool S) (t : ℕ)
      → get_elem? p.workers t ≡ some popping
      → Popped total p.queue
      → times_held i (set p.workers t (after_pop (pop p.queue).0)) + issued_row total i p.queue.next
        ≡ times_held i p.workers + issued_row total i (pop p.queue).1.next
  take-issued p t h (issued below e0 e2) =
      rw (e0, e2) (ground (arith, times_held-take i p.workers t p.queue.next h))
  take-issued p t h (drained past e0 e2) =
      rw (e0, e2) (ground (arith, times_held-finish i p.workers t h))

  -- A row that is issued is held or done, once.
  Steps-issued :
      {k : ℕ} {q : Pool S} (r : Steps body (spawn total n s) k q)
      → times_done i (turns_of body (spawn total n s) clock r) + times_held i q.workers
        ≡ issued_row total i q.queue.next
  unfolding turns_of spawn
  Steps-issued here = ground (arith, times_held-replicate i n)
  Steps-issued (next {q} r (take t h)) = omega (
    arith,
    Steps-issued r,
    take-issued q t h (take-Popped body total n small q t h (Steps-Tally body total n small s r)),
  )
  Steps-issued (next {q} r (run t j h e)) = omega (
    arith,
    Steps-issued r,
    times_done-append i (turns_of body (spawn total n s) clock r) _,
    times_held-run i q.workers t j h,
  )

-- When all of `n` workers (at least one) have left the loop, each row of the window has been worked on
-- exactly once, and no other row at all, in whatever order the workers took turns. The counter must
-- not overflow.
pub joined-times_done {ℓ} :
    {S : Type ℓ} (body : ℕ → S → Option S) (total n : ℕ) (s : S) (clock : ℕ → ℕ × ℕ) (i : ℕ) {k : ℕ}
    {q : Pool S}
    → total + n < 2 ^ 31
    → 0 < n
    → (r : Steps body (spawn total n s) k q) → alive q.workers ≡ 0
    → times_done i (turns_of body (spawn total n s) clock r) ≡ (if ltb i total then 1 else 0)
joined-times_done body total n s clock i {q = q} small some_worker r joined =
    let t : Tally total n q = Steps-Tally body total n small s r in
    ground (
      arith,
      t.ended,
      Steps-issued body total n small s clock i r,
      times_held-joined i q.workers joined,
    )
