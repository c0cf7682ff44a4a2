-- ===== src/WorkerPool/Held.antt =====
-- The rows that the workers of redcli/main.cpp hold, as a sequential program over the shared state.
use encoder_rle4k_cpu.Base.{
  ℕ, zero, suc, ◌≡◌, refl, sym, ap, ◌∙◌, List, [], ◌∷◌, Option, some, get_elem?, set, ◌>>=◌,
  bind_cong, bind_assoc, bind_some,
}
use encoder_rle4k_cpu.WorkerPool.{Worker, popping, working, finished}

module _ {ℓ} {S : Type ℓ} (body : ℕ → S → Option S) where
  -- Two bodies may run in either order.
  abbrev pub Commutes : Type ℓ
  Commutes = (i j : ℕ) (s : S) → (body i s >>= body j) ≡ (body j s >>= body i)

  abbrev pub run_held : List Worker → S → Option S
  run_held [] = some
  run_held (working i ∷ ws) = λ s. body i s >>= run_held ws
  run_held (popping ∷ ws) = run_held ws
  run_held (finished ∷ ws) = run_held ws

module _ {ℓ} {S : Type ℓ} (body : ℕ → S → Option S) (c : Commutes body) where
  swap_first :
      (i j : ℕ) (f : S → Option S) (s : S)
      → (body i s >>= λ a. body j a >>= f) ≡ (body j s >>= λ a. body i a >>= f)
  swap_first i j f s =
      sym (bind_assoc (body i s) (body j) f)
      ∙ ap (λ m. m >>= f) (c i j s)
      ∙ bind_assoc (body j s) (body i) f

  -- The row that worker `t` holds may as well run first.
  pub run_held-set :
      (ws : List Worker) (t k : ℕ) (s : S)
      → get_elem? ws t ≡ some popping
      → run_held body (set ws t (working k)) s ≡ (body k s >>= run_held body ws)
  run_held-set [] t k s h = cc
  run_held-set (popping ∷ ws) zero k s h = refl
  run_held-set (working i ∷ ws) zero k s h = cc
  run_held-set (finished ∷ ws) zero k s h = cc
  run_held-set (popping ∷ ws) (suc t) k s h = run_held-set ws t k s h
  run_held-set (finished ∷ ws) (suc t) k s h = run_held-set ws t k s h
  run_held-set (working i ∷ ws) (suc t) k s h =
      bind_cong (body i s) _ _ (λ a. run_held-set ws t k a h) ∙ swap_first i k (run_held body ws) s

  pub run_held-get :
      (ws : List Worker) (t k : ℕ) (s : S)
      → get_elem? ws t ≡ some (working k)
      → run_held body ws s ≡ (body k s >>= run_held body (set ws t popping))
  run_held-get [] t k s h = cc
  run_held-get (popping ∷ ws) zero k s h = cc
  run_held-get (working i ∷ ws) zero k s h = let e : i ≡ k = cc in rw e
  run_held-get (finished ∷ ws) zero k s h = cc
  run_held-get (popping ∷ ws) (suc t) k s h = run_held-get ws t k s h
  run_held-get (finished ∷ ws) (suc t) k s h = run_held-get ws t k s h
  run_held-get (working i ∷ ws) (suc t) k s h =
      bind_cong (body i s) _ _ (λ a. run_held-get ws t k a h)
      ∙ swap_first i k (run_held body (set ws t popping)) s

  -- A row that is not held may run before or after those that are.
  pub run_held_comm :
      (ws : List Worker) (k : ℕ) (s : S)
      → (body k s >>= run_held body ws) ≡ (run_held body ws s >>= body k)
  run_held_comm [] k s = bind_some (body k s)
  run_held_comm (popping ∷ ws) k s = run_held_comm ws k s
  run_held_comm (finished ∷ ws) k s = run_held_comm ws k s
  run_held_comm (working i ∷ ws) k s =
      swap_first k i (run_held body ws) s
      ∙ bind_cong (body i s) _ _ (λ a. run_held_comm ws k a)
      ∙ sym (bind_assoc (body i s) (run_held body ws) (body k))

pub run_held-finish {ℓ} :
    {S : Type ℓ} (body : ℕ → S → Option S) (ws : List Worker) (t : ℕ) (s : S)
    → get_elem? ws t ≡ some popping
    → run_held body (set ws t finished) s ≡ run_held body ws s
run_held-finish body [] t s h = refl
run_held-finish body (popping ∷ ws) zero s h = refl
run_held-finish body (working i ∷ ws) zero s h = cc
run_held-finish body (finished ∷ ws) zero s h = refl
run_held-finish body (popping ∷ ws) (suc t) s h = run_held-finish body ws t s h
run_held-finish body (finished ∷ ws) (suc t) s h = run_held-finish body ws t s h
run_held-finish body (working i ∷ ws) (suc t) s h =
    bind_cong (body i s) _ _ (λ a. run_held-finish body ws t a h)
