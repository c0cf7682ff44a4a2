-- ===== src/Column/Windows.antt =====
-- The loop over the windows of a column in redcli/main.cpp, and the rows that they take.
use encoder_rle4k_cpu.Base.{
  ℕ, zero, subst, suc, ◌+◌, ◌≤◌, ◌<◌, ◌≡◌, refl, ◌∙◌, ap, true, List, [], ◌∷◌, ◌++◌, Option, some,
  arith, ltb,
}
use encoder_rle4k_cpu.Base.{dec_lt, sym, none, some_injective, bind-eq-some}
use encoder_rle4k_cpu.Column.{window_size, run_windows}

pub window_size-bounds :
    (cache_blocks nrows row0 : ℕ)
    → 0 < cache_blocks
    → row0 < nrows
    → (0 < window_size cache_blocks nrows row0)
      × (window_size cache_blocks nrows row0 ≤ cache_blocks)
      × (row0 + window_size cache_blocks nrows row0 ≤ nrows)
      × (row0 + cache_blocks ≤ nrows → window_size cache_blocks nrows row0 ≡ cache_blocks)
      × (nrows ≤ row0 + cache_blocks → row0 + window_size cache_blocks nrows row0 ≡ nrows)
unfolding window_size
window_size-bounds cache_blocks nrows row0 some_block lt =
    (ground arith, ground arith, ground arith, λ h. ground arith, λ h. ground arith)

module _ {ℓ} {S : Type ℓ} (body : ℕ → ℕ → S → Option S) (cache_blocks nrows : ℕ) where
  run_windows_end :
      (fuel row0 : ℕ) (s : S)
      → nrows ≤ row0
      → run_windows body cache_blocks nrows fuel row0 s ≡ some s
  unfolding run_windows
  run_windows_end zero row0 s past = ground arith
  run_windows_end (suc fuel) row0 s past = ground arith

  run_windows_next :
      (fuel row0 : ℕ) (s s' : S)
      → row0 < nrows
      → body row0 (window_size cache_blocks nrows row0) s ≡ some s'
      → run_windows body cache_blocks nrows (suc fuel) row0 s
        ≡ run_windows body cache_blocks nrows fuel (row0 + cache_blocks) s'
  unfolding run_windows
  run_windows_next fuel row0 s s' lt e =
      let test : ltb row0 nrows ≡ true = ground arith in rw (test, e) refl

  -- An invariant of windows that all succeed under it: the loop succeeds, with fuel for the rows that
  -- are left, and the invariant holds after the last row.
  pub run_windows_total {κ} :
      (P : ℕ → S → Type κ)
      → 0 < cache_blocks
      → ((row0 nwin : ℕ) (s : S)
          → 0 < nwin
          → row0 + nwin ≤ nrows
          → P row0 s
          → (s' : S) × (body row0 nwin s ≡ some s') × P (row0 + nwin) s')
      → (fuel row0 : ℕ) (s : S) → nrows ≤ row0 + fuel
      → row0 ≤ nrows
      → P row0 s
      → (s' : S) × (run_windows body cache_blocks nrows fuel row0 s ≡ some s') × P nrows s'
  run_windows_total P some_block keep zero row0 s enough le p =
      let last : row0 ≡ nrows = omega arith in
      (s, run_windows_end zero row0 s (omega arith), subst (λ r. P r s) last p)
  run_windows_total P some_block keep (suc fuel) row0 s enough le p = elim (dec_lt row0 nrows) [
    | no past ↦
        let last : row0 ≡ nrows = omega arith in
        (s, run_windows_end (suc fuel) row0 s (omega arith), subst (λ r. P r s) last p)
    | yes more ↦
        let nwin = window_size cache_blocks nrows row0 in
        let (positive, _, inside, full, short) =
          window_size-bounds cache_blocks nrows row0 some_block more in
        let (s', e, p') = keep row0 nwin s positive inside p in
        let step = run_windows_next fuel row0 s s' more e in
        elim (dec_lt nrows (row0 + cache_blocks)) [
          | yes beyond ↦ (
            s',
            step ∙ run_windows_end fuel (row0 + cache_blocks) s' (omega arith),
            subst (λ r. P r s') (short (omega arith)) p',
          )
          | no within ↦
              let here = full (omega arith) in
              let (t, r, q) =
                run_windows_total P some_block keep fuel (row0 + cache_blocks) s' (omega arith)
                  (omega arith) (subst (λ w. P (row0 + w) s') here p') in
              (t, step ∙ r, q)
        ]
  ]

  -- The same, of a loop that is known to have succeeded.
  pub run_windows_inv {κ} :
      (P : ℕ → S → Type κ)
      → 0 < cache_blocks
      → ((row0 nwin : ℕ) (s s' : S)
          → row0 + nwin ≤ nrows
          → P row0 s
          → body row0 nwin s ≡ some s'
          → P (row0 + nwin) s')
      → (fuel row0 : ℕ) (s s' : S) → row0 ≤ nrows
      → P row0 s
      → run_windows body cache_blocks nrows fuel row0 s ≡ some s'
      → P nrows s'
  unfolding run_windows
  run_windows_inv P some_block keep zero row0 s s' le p r = elim (dec_lt row0 nrows) [
    | no past ↦
        let same = some_injective (sym (run_windows_end zero row0 s (omega arith)) ∙ r) in
        let last : row0 ≡ nrows = omega arith in
        subst (λ x. P nrows x) same (subst (λ n. P n s) last p)
    | yes more ↦
        let test : ltb row0 nrows ≡ true = ground arith in
        let stuck : none ≡ some s' = rw test at r in cc stuck
  ]
  run_windows_inv P some_block keep (suc fuel) row0 s s' le p r = elim (dec_lt row0 nrows) [
    | no past ↦
        let same = some_injective (sym (run_windows_end (suc fuel) row0 s (omega arith)) ∙ r) in
        let last : row0 ≡ nrows = omega arith in
        subst (λ x. P nrows x) same (subst (λ n. P n s) last p)
    | yes more ↦
        let nwin = window_size cache_blocks nrows row0 in
        let (positive, _, inside, full, short) =
          window_size-bounds cache_blocks nrows row0 some_block more in
        let test : ltb row0 nrows ≡ true = ground arith in
        let (s1, e, rest) = bind-eq-some (body row0 nwin s) _ (rw test at r) in
        let p1 = keep row0 nwin s s1 inside p e in
        elim (dec_lt nrows (row0 + cache_blocks)) [
          | yes beyond ↦
              let same =
                some_injective
                  (sym (run_windows_end fuel (row0 + cache_blocks) s1 (omega arith)) ∙ rest) in
              subst (λ x. P nrows x) same (subst (λ n. P n s1) (short (omega arith)) p1)
          | no within ↦
              run_windows_inv P some_block keep fuel (row0 + cache_blocks) s1 s' (omega arith)
                (subst (λ w. P (row0 + w) s1) (full (omega arith)) p1) rest
        ]
  ]

-- The rows row0, row0 + 1, … of a window.
unfoldable pub rows_from : ℕ → ℕ → List ℕ
rows_from row0 zero = []
rows_from row0 (suc n) = row0 ∷ rows_from (row0 + 1) n

-- A window that records the rows that it is given.
abbrev pub list_rows : ℕ → ℕ → List ℕ → Option (List ℕ)
list_rows row0 nwin seen = some (seen ++ rows_from row0 nwin)

rows_from-add : (row0 n k : ℕ) → rows_from row0 n ++ rows_from (row0 + n) k ≡ rows_from row0 (n + k)
unfolding rows_from
rows_from-add row0 zero k =
    let e : row0 + 0 ≡ row0 = omega arith in let f : 0 + k ≡ k = omega arith in rw (e, f) refl
rows_from-add row0 (suc n) k =
    let e : row0 + suc n ≡ row0 + 1 + n = omega arith in
    let f : suc n + k ≡ suc (n + k) = omega arith in
    rw (e, f) (ap (◌∷◌ row0) (rows_from-add (row0 + 1) n k))

-- The windows of a column of `nrows` rows, at least one row each, cover its rows: each exactly once, in
-- order and none beyond. The fuel of a round for each row is enough.
pub run_windows-rows_from :
    (cache_blocks nrows : ℕ)
    → 0 < cache_blocks
    → run_windows list_rows cache_blocks nrows nrows 0 [] ≡ some (rows_from 0 nrows)
unfolding rows_from
run_windows-rows_from cache_blocks nrows some_block =
    let (seen, r, all) =
      run_windows_total list_rows cache_blocks nrows (λ row0 seen. seen ≡ rows_from 0 row0)
        some_block
        (λ row0 nwin seen positive inside e. (
          seen ++ rows_from row0 nwin,
          refl,
          let from : 0 + row0 ≡ row0 = omega arith in rw e (rw from at (rows_from-add 0 row0 nwin)),
        ))
        nrows 0 [] (omega arith) (omega arith) refl in
    r ∙ ap some all
