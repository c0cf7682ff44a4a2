-- ===== src/WorkerPool/Refine.antt =====
-- The interleavings of the worker threads of redcli/main.cpp, and one loop over the rows of the window.
use encoder_rle4k_cpu.Base.{
  ℕ, zero, suc, ◌+◌, ◌-◌, ◌^◌, ◌<◌, ◌≡◌, refl, sym, ap, inl, List, [], ◌∷◌, Option, some, arith,
  replicate, run_from,
}
use encoder_rle4k_cpu.WorkerPool.{
  Worker, popping, working, finished, Pool, spawn, Steps, here, next, alive,
}
use encoder_rle4k_cpu.WorkerPool.Held.{Commutes, run_held}
use encoder_rle4k_cpu.WorkerPool.Invariant.{Tally, Step-Tally, Pending, Step-Pending}

pub alive-replicate : (n : ℕ) → alive (replicate n popping) ≡ n
alive-replicate zero = refl
alive-replicate (suc n) = ap suc (alive-replicate n)

module _ {ℓ} {S : Type ℓ} (body : ℕ → S → Option S) where
  run_held-replicate : (n : ℕ) (s : S) → run_held body (replicate n popping) s ≡ some s
  run_held-replicate zero s = refl
  run_held-replicate (suc n) s = run_held-replicate n s

  run_held-joined : (ws : List Worker) (s : S) → alive ws ≡ 0 → run_held body ws s ≡ some s
  run_held-joined [] s h = refl
  run_held-joined (finished ∷ ws) s h = run_held-joined ws s h
  run_held-joined (popping ∷ ws) s h = absurd (omega arith)
  run_held-joined (working i ∷ ws) s h = absurd (omega arith)

pub spawn-Tally {ℓ} : {S : Type ℓ} (total n : ℕ) (s : S) → Tally total n (spawn total n s)
unfolding spawn
spawn-Tally total n s = record {
  rows = refl;
  bounded = omega (arith, alive-replicate n);
  ended = inl (alive-replicate n);
}

module _ {ℓ} {S : Type ℓ} (body : ℕ → S → Option S) (total n : ℕ) (small : total + n < 2 ^ 31)
    (s : S) where
  pub Steps-Tally : {k : ℕ} {q : Pool S} → Steps body (spawn total n s) k q → Tally total n q
  Steps-Tally here = spawn-Tally total n s
  Steps-Tally (next r st) = Step-Tally body total n small st (Steps-Tally r)

  module _ (c : Commutes body) where
    spawn-Pending : Pending body total n small s c (spawn total n s)
    unfolding spawn
    spawn-Pending =
        let whole : total - 0 ≡ total = omega arith in rw (run_held-replicate body n s, whole)

    Steps-Pending :
        {k : ℕ} {q : Pool S} → Steps body (spawn total n s) k q → Pending body total n small s c q
    Steps-Pending here = spawn-Pending
    Steps-Pending (next r st) =
        Step-Pending body total n small s c st (Steps-Tally r) (Steps-Pending r)

-- When all of `n` workers (at least one) have left the loop, in whatever order they took turns, the
-- shared state is the result of the sequential loop over the rows 0 to `total - 1`, and no body of that
-- loop fails. The bodies of two rows must be interchangeable, and the counter must not overflow.
pub joined-run_from {ℓ} :
    {S : Type ℓ} (body : ℕ → S → Option S) (total n : ℕ) (s : S) {k : ℕ} {q : Pool S}
    → Commutes body
    → total + n < 2 ^ 31
    → 0 < n
    → Steps body (spawn total n s) k q
    → alive q.workers ≡ 0
    → run_from body total 0 s ≡ some q.shared
unfolding run_from
joined-run_from body total n s {q} c small some_worker r joined =
    let t : Tally total n q = Steps-Tally body total n small s r in
    let none_left : total - q.queue.next ≡ 0 = omega (arith, t.ended) in
    let p : Pending body total n small s c q = Steps-Pending body total n small s c r in
    sym (rw (run_held-joined body q.workers q.shared joined, none_left) at p)
