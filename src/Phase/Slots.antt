-- ===== src/Phase/Slots.antt =====
-- Loops over the slots of the shared vectors of redcli/main.cpp: writes at different rows commute, and
-- an invariant of the rounds holds at the end.
use encoder_rle4k_cpu.Base.{
  ℕ, zero, suc, ◌+◌, ◌<◌, ◌≡◌, ◌≢◌, refl, ap, List, [], ◌∷◌, Option, none, some, arith, set, ◌>>=◌,
  bind-eq-some, run_from, ℕ_discrete,
}
use encoder_rle4k_cpu.WorkerPool.Held.{Commutes}

pub set_comm {ℓ} :
    {A : Type ℓ} (xs : List A) (i j : ℕ) (v w : A)
    → i ≢ j
    → set (set xs i v) j w ≡ set (set xs j w) i v
set_comm [] i j v w h = refl
set_comm (x ∷ xs) zero zero v w h = absurd (h refl)
set_comm (x ∷ xs) zero (suc j) v w h = refl
set_comm (x ∷ xs) (suc i) zero v w h = refl
set_comm (x ∷ xs) (suc i) (suc j) v w h = ap (◌∷◌ x) (set_comm xs i j v w (λ e. h (ap suc e)))

module _ {ℓ κ} {S : Type ℓ} {A : Type κ} (job : ℕ → Option A) (write : ℕ → A → S → S) where
  -- A worker's turn: what it computes for its row from what no worker changes, written to the row.
  abbrev pub slot_body : ℕ → S → Option S
  slot_body i s = job i >>= λ a. some (write i a s)

  -- Turns whose writes commute at different rows commute.
  pub slot_body-Commutes :
      ((i j : ℕ) (a b : A) (s : S) → i ≢ j → write j b (write i a s) ≡ write i a (write j b s))
      → Commutes slot_body
  slot_body-Commutes h i j s = elim (ℕ_discrete i j) [
    | yes e ↦ rw e
    | no ne ↦ both ne (job i) (job j)
  ]
    where
      both :
          i ≢ j
          → (x y : Option A)
          → (x >>= (λ a. some (write i a s)) >>= λ t. y >>= λ b. some (write j b t))
            ≡ (y >>= (λ b. some (write j b s)) >>= λ t. x >>= λ a. some (write i a t))
      both ne none none = refl
      both ne none (some b) = refl
      both ne (some a) none = refl
      both ne (some a) (some b) = ap some (h i j a b s ne)

module _ {ℓ} {S : Type ℓ} (body : ℕ → S → Option S) where
  -- A loop whose rounds all succeed under the invariant succeeds, and the invariant holds after it.
  pub run_from_total {κ} :
      (P : ℕ → S → Type κ) (n : ℕ)
      → ((i : ℕ) (s : S) → i < n → P i s → (s' : S) × (body i s ≡ some s') × P (suc i) s')
      → (k i : ℕ) (s : S) → i + k ≡ n
      → P i s
      → (s' : S) × (run_from body k i s ≡ some s') × P n s'
  unfolding run_from
  run_from_total P n keep zero i s e p = let f : i ≡ n = omega arith in (s, refl, rw (← f) p)
  run_from_total P n keep (suc k) i s e p =
      let (s1, e1, p1) = keep i s (omega arith) p in
      let next : suc i ≡ i + 1 = omega arith in
      let (s2, e2, p2) = run_from_total P n keep k (i + 1) s1 (omega arith) (rw next at p1) in
      (s2, rw e1 e2, p2)

  -- The same, of a loop that is known to have succeeded.
  pub run_from_inv {κ} :
      (P : ℕ → S → Type κ) (n : ℕ)
      → ((i : ℕ) (s s' : S) → i < n → P i s → body i s ≡ some s' → P (suc i) s')
      → (k i : ℕ) (s s' : S) → i + k ≡ n
      → P i s
      → run_from body k i s ≡ some s'
      → P n s'
  unfolding run_from
  run_from_inv P n keep zero i s s' e p r =
      let f : i ≡ n = omega arith in let g : s ≡ s' = cc in rw (← f, ← g) p
  run_from_inv P n keep (suc k) i s s' e p r =
      let (s1, e1, r1) = bind-eq-some (body i s) (run_from body k (i + 1)) r in
      let next : suc i ≡ i + 1 = omega arith in
      run_from_inv P n keep k (i + 1) s1 s' (omega arith)
        (rw next at (keep i s s1 (omega arith) p e1)) r1
