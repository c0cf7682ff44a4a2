-- ===== src/WorkerPool/Halt.antt =====
-- How many steps the worker threads of redcli/main.cpp make until they are joined.
use encoder_rle4k_cpu.RowQueue.{pop}
use encoder_rle4k_cpu.Base.{
  ◌≢◌, ◌↔◌, ℕ, zero, suc, ◌+◌, ◌-◌, ◌*◌, ◌^◌, ◌≤◌, ◌<◌, ◌≡◌, refl, subst, sym, ◌∙◌, some_injective,
  ◌⊎◌, inl, inr, List, [], ◌∷◌, Option, some, arith, get_elem?, set, replicate,
}
use encoder_rle4k_cpu.WorkerPool.{
  Worker, popping, working, finished, after_pop, Pool, spawn, Step, take, run, Steps, here, next,
  alive,
}
use encoder_rle4k_cpu.WorkerPool.Counts.{held, counts-take, counts-run, counts-finish}
use encoder_rle4k_cpu.WorkerPool.Invariant.{Tally, Popped, issued, drained, take-Popped}
use encoder_rle4k_cpu.WorkerPool.Refine.{alive-replicate, Steps-Tally}

held-le-alive : (ws : List Worker) → held ws ≤ alive ws
held-le-alive [] = omega arith
held-le-alive (popping ∷ ws) = omega (arith, held-le-alive ws)
held-le-alive (working i ∷ ws) = omega (arith, held-le-alive ws)
held-le-alive (finished ∷ ws) = held-le-alive ws

held-replicate : (n : ℕ) → held (replicate n popping) ≡ 0
held-replicate zero = refl
held-replicate (suc n) = held-replicate n

-- The steps that are left: two for a row that is not issued, one for a row that is held, and one for
-- each worker to leave.
abbrev measure {ℓ} : {S : Type ℓ} → ℕ → Pool S → ℕ
measure total p = 2 * (total - p.queue.next) + held p.workers + alive p.workers

-- Where a worker that has not left stands.
abbrev Turn : List Worker → Type 0
Turn ws =
    (t : ℕ) × ((get_elem? ws t ≡ some popping) ⊎ ((i : ℕ) × (get_elem? ws t ≡ some (working i))))

abbrev later_turn : (w : Worker) (ws : List Worker) → Turn ws → Turn (w ∷ ws)
later_turn w ws (t, h) = (suc t, h)

turn_of_alive : (ws : List Worker) → alive ws ≢ 0 → Turn ws
turn_of_alive [] h = absurd (h refl)
turn_of_alive (popping ∷ ws) h = (0, inl refl)
turn_of_alive (working i ∷ ws) h = (0, inr (i, refl))
turn_of_alive (finished ∷ ws) h = later_turn finished ws (turn_of_alive ws h)

module _ {ℓ} {S : Type ℓ} (total : ℕ) where
  take-measure :
      (p : Pool S) (t : ℕ)
      → get_elem? p.workers t ≡ some popping
      → Popped total p.queue
      → measure total p
        ≡ 1
          + measure total (record p {
            queue = (pop p.queue).1;
            workers = set p.workers t (after_pop (pop p.queue).0);
          })
  take-measure p t h (issued lt e0 e2) =
      rw (e0, e2) (omega (arith, counts-take p.queue.next p.workers t h))
  take-measure p t h (drained le e0 e2) = rw (e0, e2) (omega (arith, counts-finish p.workers t h))

module _ {ℓ} {S : Type ℓ} (body : ℕ → S → Option S) (total n : ℕ) (small : total + n < 2 ^ 31) where
  Step-measure :
      {p q : Pool S} → Step body p q → Tally total n p → measure total p ≡ 1 + measure total q
  Step-measure {p} (take t h) v = take-measure total p t h (take-Popped body total n small p t h v)
  Step-measure {p} (run t i h e) v = omega (arith, counts-run i p.workers t h)

  module _ (s : S) where
    Steps-measure :
        {k : ℕ} {q : Pool S}
        → Steps body (spawn total n s) k q
        → k + measure total q ≡ 2 * total + n
    unfolding spawn
    Steps-measure here = omega (arith, alive-replicate n, held-replicate n)
    Steps-measure (next r st) =
        omega (arith, Steps-measure r, Step-measure st (Steps-Tally body total n small s r))

-- The row of a worker is a row of the window.
abbrev Below : ℕ → Worker → Type 0
Below total popping = Unit {0}
Below total (working i) = i < total
Below total finished = Unit {0}

abbrev AllBelow : ℕ → List Worker → Type 0
AllBelow total [] = Unit {0}
AllBelow total (w ∷ ws) = Below total w × AllBelow total ws

AllBelow-replicate : (total n : ℕ) → AllBelow total (replicate n popping)
AllBelow-replicate total zero = tt
AllBelow-replicate total (suc n) = (tt, AllBelow-replicate total n)

AllBelow-set :
    (total : ℕ) (ws : List Worker) (t : ℕ) (w : Worker)
    → Below total w
    → AllBelow total ws
    → AllBelow total (set ws t w)
AllBelow-set total [] t w p all = tt
AllBelow-set total (x ∷ ws) zero w p (q, all) = (p, all)
AllBelow-set total (x ∷ ws) (suc t) w p (q, all) = (q, AllBelow-set total ws t w p all)

AllBelow-get :
    (total : ℕ) (ws : List Worker) (t i : ℕ)
    → get_elem? ws t ≡ some (working i)
    → AllBelow total ws
    → i < total
AllBelow-get total [] t i h all = cc
AllBelow-get total (x ∷ ws) zero i h (p, all) = let e : x ≡ working i = cc in rw e at p
AllBelow-get total (x ∷ ws) (suc t) i h (p, all) = AllBelow-get total ws t i h all

module _ {ℓ} {S : Type ℓ} (body : ℕ → S → Option S) (total : ℕ) where
  -- At a row of the window, a body does not throw where `Inv` holds of what the workers share, and
  -- `Inv` holds again after it.
  abbrev pub Returns : (S → Type 0) → Type ℓ
  Returns Inv = (i : ℕ) (s : S) → i < total → Inv s → (s' : S) × (body i s ≡ some s') × Inv s'

  module _ (Inv : S → Type 0) (returns : Returns Inv) where
    run-Inv : (i : ℕ) (s s' : S) → i < total → Inv s → body i s ≡ some s' → Inv s'
    run-Inv i s s' lt holds e =
        let (s2, f, kept) = returns i s lt holds in subst Inv (some_injective (sym f ∙ e)) kept

    take-AllBelow :
        (p : Pool S) (t : ℕ)
        → Popped total p.queue
        → AllBelow total p.workers
        → AllBelow total (set p.workers t (after_pop (pop p.queue).0))
    take-AllBelow p t (issued lt e0 e2) all =
        rw e0 (AllBelow-set total p.workers t (working p.queue.next) lt all)
    take-AllBelow p t (drained le e0 e2) all =
        rw e0 (AllBelow-set total p.workers t finished tt all)

    module _ (n : ℕ) (small : total + n < 2 ^ 31) (s : S) (holds : Inv s) where
      Steps-Inv :
          {k : ℕ} {q : Pool S}
          → Steps body (spawn total n s) k q
          → AllBelow total q.workers × Inv q.shared
      unfolding spawn
      Steps-Inv here = (AllBelow-replicate total n, holds)
      Steps-Inv (next {q} r (take t h)) =
          let (below, kept) = Steps-Inv r in
          let popped = take-Popped body total n small q t h (Steps-Tally body total n small s r) in
          (take-AllBelow q t popped below, kept)
      Steps-Inv (next {q} r (run t i h e)) =
          let (below, kept) = Steps-Inv r in
          (
            AllBelow-set total q.workers t popping tt below,
            run-Inv i q.shared _ (AllBelow-get total q.workers t i h below) kept e,
          )

    can_step :
        (p : Pool S)
        → AllBelow total p.workers
        → Inv p.shared
        → alive p.workers ≢ 0
        → (q : Pool S) × Step body p q
    can_step p below kept h = go (turn_of_alive p.workers h)
      where
        go : Turn p.workers → (q : Pool S) × Step body p q
        go (t, inl e) = (_, take t e)
        go (t, inr (i, e)) =
            let (s', done, _) =
              returns i p.shared (AllBelow-get total p.workers t i e below) kept in
            (_, run t i e done)

-- However the `n` workers (at least one) take turns, they have all left the loop exactly when
-- 2 * total + n steps are made, and until then some worker can make a step: where at the rows of the
-- window no body throws while `Inv` holds of what they share, every body keeps `Inv`, and it holds at
-- the start. The counter must not overflow.
pub joined-iff-Steps {ℓ} :
    {S : Type ℓ} (body : ℕ → S → Option S) (total n : ℕ) (s : S) (Inv : S → Type 0) {k : ℕ}
    {q : Pool S}
    → Returns body total Inv
    → Inv s
    → total + n < 2 ^ 31
    → 0 < n
    → Steps body (spawn total n s) k q
    → ((alive q.workers ≡ 0) ↔ (k ≡ 2 * total + n))
      × ((alive q.workers ≢ 0) → (r : Pool S) × Step body q r)
joined-iff-Steps body total n s Inv {q = q} returns holds small some_worker r =
    let m = Steps-measure body total n small s r in
    let t : Tally total n q = Steps-Tally body total n small s r in
    let (below, kept) = Steps-Inv body total Inv returns n small s holds r in
    (
      (λ e. omega (arith, m, t.ended, held-le-alive q.workers), λ e. omega (arith, m)),
      can_step body total Inv returns q below kept,
    )
