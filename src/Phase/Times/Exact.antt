-- ===== src/Phase/Times/Exact.antt =====
-- What the threads of a phase of redcli/main.cpp add up, where `double` adds integers exactly.
use encoder_rle4k_cpu.Base.{
  ℕ, zero, suc, ◌+◌, ◌-◌, ◌/◌, ◌^◌, ◌≤◌, ◌<◌, ◌≡◌, refl, ap, ◌∙◌, Bool, true, false, List, [], ◌∷◌,
  ◌++◌, Option, arith, get_or, set, replicate, length, length-set, length-replicate, get_elem?-lt,
  if◌then◌else◌,
}
use encoder_rle4k_cpu.Base.Int.{pos}
use encoder_rle4k_cpu.Double.{Double, nought}
use encoder_rle4k_cpu.WorkerPool.{popping, Pool, spawn, Steps, take, run, here, next}
use encoder_rle4k_cpu.WorkerPool.Turns.{Turn, turns_of}
use encoder_rle4k_cpu.Stats.{new_timer, stops, elapsed_us-stops}
use encoder_rle4k_cpu.Phase.Times.{measured, turn_us, cpu_after}

-- IEEE 754 binary64: sums of integers up to 2 ^ 53 are exact.
pub record AddsExactly (D : Double) : Type 0 where
  pub zero_is : D.literal 0 0 ≡ D.of_ℤ (pos 0)
  pub adds :
      (a b : ℕ) → a + b ≤ 2 ^ 53 → D.add (D.of_ℤ (pos a)) (D.of_ℤ (pos b)) ≡ D.of_ℤ (pos (a + b))

abbrev pub sum_ℕ : List ℕ → ℕ
sum_ℕ [] = 0
sum_ℕ (x ∷ xs) = x + sum_ℕ xs

-- The whole microseconds from the start of each turn to its end, added up.
abbrev pub total_us : ℕ → List Turn → ℕ
total_us per_us [] = 0
total_us per_us (u ∷ us) = (u.stopped - u.started) / per_us + total_us per_us us

-- Each turn ends after its start, in less than 2 ^ 32 microseconds.
abbrev pub Timed : ℕ → List Turn → Type 0
Timed per_us [] = Unit {0}
Timed per_us (u ∷ us) =
    (u.started ≤ u.stopped) × ((u.stopped - u.started) / per_us < 2 ^ 32) × Timed per_us us

turn_us_lem :
    (per_us : ℕ) (u : Turn)
    → u.started ≤ u.stopped
    → (u.stopped - u.started) / per_us < 2 ^ 32
    → turn_us per_us u ≡ (u.stopped - u.started) / per_us
unfolding turn_us stops
turn_us_lem per_us u ordered small =
    elapsed_us-stops per_us u.stopped u.started u.stopped [] new_timer ordered small

-- Every turn is of one of `n` threads.
abbrev pub AllBelow : ℕ → List Turn → Type 0
AllBelow n [] = Unit {0}
AllBelow n (u ∷ us) = (u.thread < n) × AllBelow n us

module _ (D : Double) where
  -- Integers as doubles.
  abbrev pub as_doubles : List ℕ → List D.W
  as_doubles [] = []
  as_doubles (x ∷ xs) = D.of_ℤ (pos x) ∷ as_doubles xs

  as_doubles-set :
      (xs : List ℕ) (t x : ℕ) → set (as_doubles xs) t (D.of_ℤ (pos x)) ≡ as_doubles (set xs t x)
  as_doubles-set [] t x = refl
  as_doubles-set (y ∷ xs) zero x = refl
  as_doubles-set (y ∷ xs) (suc t) x = ap (◌∷◌ (D.of_ℤ (pos y))) (as_doubles-set xs t x)

  as_doubles-get :
      (xs : List ℕ) (t : ℕ)
      → t < length xs
      → get_or (as_doubles xs) t (nought D) ≡ D.of_ℤ (pos (get_or xs t 0))
  as_doubles-get [] t lt = elim lt [ ]
  as_doubles-get (y ∷ xs) zero lt = refl
  as_doubles-get (y ∷ xs) (suc t) lt = as_doubles-get xs t (omega arith)

sum-set :
    (xs : List ℕ) (t x : ℕ) → t < length xs → sum_ℕ (set xs t x) + get_or xs t 0 ≡ sum_ℕ xs + x
sum-set [] t x lt = absurd (omega arith)
sum-set (y ∷ xs) zero x lt = omega arith
sum-set (y ∷ xs) (suc t) x lt = omega (arith, sum-set xs t x (omega arith))

get-le-sum : (xs : List ℕ) (t : ℕ) → get_or xs t 0 ≤ sum_ℕ xs
get-le-sum [] t = omega arith
get-le-sum (y ∷ xs) zero = omega arith
get-le-sum (y ∷ xs) (suc t) = omega (arith, get-le-sum xs t)

AllBelow-append :
    (n : ℕ) (us vs : List Turn) → AllBelow n us → AllBelow n vs → AllBelow n (us ++ vs)
AllBelow-append n [] vs p q = q
AllBelow-append n (u ∷ us) vs (lt, p) q = (lt, AllBelow-append n us vs p q)

AllBelow-measured :
    (n : ℕ) (reaches : ℕ → Bool) (us : List Turn) → AllBelow n us → AllBelow n (measured reaches us)
unfolding measured
AllBelow-measured n reaches [] p = tt
AllBelow-measured n reaches (u ∷ us) (lt, p) =
    either (reaches u.row) _ _ (lt, AllBelow-measured n reaches us p)
      (AllBelow-measured n reaches us p)
  where
    either :
        (b : Bool) (us vs : List Turn)
        → AllBelow n us
        → AllBelow n vs
        → AllBelow n (if b then us else vs)
    either true us vs p q = p
    either false us vs p q = q

module _ {ℓ} {S : Type ℓ} (body : ℕ → S → Option S) (p : Pool S) (clock : ℕ → ℕ × ℕ) where
  Steps-length : {k : ℕ} {q : Pool S} → Steps body p k q → length q.workers ≡ length p.workers
  Steps-length here = refl
  Steps-length (next {q} r (take t h)) = length-set q.workers t _ ∙ Steps-length r
  Steps-length (next {q} r (run t i h e)) = length-set q.workers t _ ∙ Steps-length r

  pub turns_of-AllBelow :
      {k : ℕ} {q : Pool S}
      → (r : Steps body p k q) → AllBelow (length p.workers) (turns_of body p clock r)
  unfolding turns_of
  turns_of-AllBelow here = tt
  turns_of-AllBelow (next r (take t h)) = turns_of-AllBelow r
  turns_of-AllBelow (next {q} r (run t i h e)) =
      AllBelow-append (length p.workers) (turns_of body p clock r) _ (turns_of-AllBelow r)
        (omega (arith, get_elem?-lt q.workers t h, Steps-length r), tt)

-- The times of the threads are whole numbers of microseconds, and their sum is what was there and what
-- the turns took.
cpu_after-sum :
    (D : Double) (per_us : ℕ) (exact : AddsExactly D) (us : List Turn) (xs : List ℕ)
    → AllBelow (length xs) us
    → Timed per_us us
    → sum_ℕ xs + total_us per_us us ≤ 2 ^ 53
    → (ys : List ℕ) × (cpu_after per_us D us (as_doubles D xs) ≡ as_doubles D ys)
      × (length ys ≡ length xs)
      × (sum_ℕ ys ≡ sum_ℕ xs + total_us per_us us)
unfolding cpu_after
cpu_after-sum D per_us exact [] xs below timed small = (xs, refl, refl, omega arith)
cpu_after-sum D per_us exact (u ∷ us) xs (lt, below) (ordered, brief, timed) small =
    let took : turn_us per_us u ≡ (u.stopped - u.started) / per_us =
      turn_us_lem per_us u ordered brief in
    let x : ℕ = get_or xs u.thread 0 + turn_us per_us u in
    let zs : List ℕ = set xs u.thread x in
    let len : length zs ≡ length xs = length-set xs u.thread x in
    let grown : sum_ℕ zs ≡ sum_ℕ xs + turn_us per_us u = omega (arith, sum-set xs u.thread x lt) in
    let added : D.add (get_or (as_doubles D xs) u.thread (nought D))
          (D.of_ℤ (pos (turn_us per_us u)))
        ≡ D.of_ℤ (pos x) =
      ap (λ w. D.add w (D.of_ℤ (pos (turn_us per_us u)))) (as_doubles-get D xs u.thread lt)
      ∙ exact.adds _ _ (omega (arith, took, small, get-le-sum xs u.thread)) in
    let here_done = ap (set (as_doubles D xs) u.thread) added ∙ as_doubles-set D xs u.thread x in
    let (ys, e, len2, sum2) =
      cpu_after-sum D per_us exact us zs (rw len below) timed (omega (arith, took, small, grown)) in
    (ys, ap (cpu_after per_us D us) here_done ∙ e, len2 ∙ len, omega (arith, took, grown, sum2))

no_times :
    (D : Double) (exact : AddsExactly D) (n : ℕ)
    → replicate n (nought D) ≡ as_doubles D (replicate n 0)
no_times D exact zero = refl
no_times D exact (suc n) =
    ap (◌∷◌ (nought D)) (no_times D exact n)
    ∙ ap (λ w. w ∷ as_doubles D (replicate n 0)) exact.zero_is

sum-replicate : (n : ℕ) → sum_ℕ (replicate n 0) ≡ 0
sum-replicate zero = refl
sum-replicate (suc n) = omega (arith, sum-replicate n)

-- Whatever turns the `n` threads of a phase take, what each has added up is a whole number of
-- microseconds, and together they are the sum, over the measured turns, of the whole microseconds from
-- the start of the turn to its end. Sums of integers up to 2 ^ 53 are exact, the turns take no more than
-- that, and each ends after its start, in less than 2 ^ 32 microseconds.
pub cpu_after-total_us {ℓ} :
    {S : Type ℓ} (D : Double) (per_us : ℕ) (body : ℕ → S → Option S) (total n : ℕ) (s : S)
    (clock : ℕ → ℕ × ℕ) (reaches : ℕ → Bool) {k : ℕ} {q : Pool S}
    → AddsExactly D
    → (r : Steps body (spawn total n s) k q)
    → Timed per_us (measured reaches (turns_of body (spawn total n s) clock r))
    → total_us per_us (measured reaches (turns_of body (spawn total n s) clock r)) ≤ 2 ^ 53
    → let us = measured reaches (turns_of body (spawn total n s) clock r) in
      (ys : List ℕ) × (cpu_after per_us D us (replicate n (nought D)) ≡ as_doubles D ys)
      × (length ys ≡ n)
      × (sum_ℕ ys ≡ total_us per_us us)
unfolding spawn
cpu_after-total_us D per_us body total n s clock reaches exact r timed small =
    let us : List Turn = measured reaches (turns_of body (spawn total n s) clock r) in
    let len : length (replicate {A = ℕ} n 0) ≡ n = length-replicate n 0 in
    let workers : length (spawn total n s).workers ≡ n = length-replicate n popping in
    let below : AllBelow n (turns_of body (spawn total n s) clock r) =
      rw workers at (turns_of-AllBelow body (spawn total n s) clock r) in
    let (ys, e, len2, sum2) =
      cpu_after-sum D per_us exact us (replicate n 0) (rw len (AllBelow-measured n reaches _ below))
        timed (omega (arith, small, sum-replicate n)) in
    (
      ys,
      ap (cpu_after per_us D us) (no_times D exact n) ∙ e,
      len2 ∙ len,
      omega (arith, sum2, sum-replicate n),
    )
