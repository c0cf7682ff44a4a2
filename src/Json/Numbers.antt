-- ===== src/Json/Numbers.antt =====
-- The loop of `json_get_int_array` (redcli/rle4k_config.h) and the runs of digits of its text.
use mathlib.Core.List.{append_assoc, append-nil}
use encoder_rle4k_cpu.Base.{
  ℕ, zero, suc, ◌+◌, ◌≤◌, ◌<◌, ◌≡◌, refl, ap, sym, ◌∙◌, inl, inr, false, List, [], ◌∷◌, ◌++◌,
  Option, some, arith, length, Bool-cases, ◌>>=◌, if◌then◌else◌,
}
use encoder_rle4k_cpu.Base.Int.{ℤ}
use encoder_rle4k_cpu.Text.{Text}
use encoder_rle4k_cpu.Text.Number.{atoi, is_digit}
use encoder_rle4k_cpu.Json.{
  is_separator, skip_separators, span_digits, array_push, array_round, array_loop,
}

-- A run that has ended, in front of the later ones.
abbrev pub ended_run : Text → List Text → List Text
ended_run [] later = later
ended_run (d ∷ ds) later = (d ∷ ds) ∷ later

-- The longest runs of digits of a text, in order; `run` is the one that is being read.
pub digit_runs : Text → Text → List Text
digit_runs run [] = ended_run run []
digit_runs run (c ∷ s) =
    let longer = digit_runs (run ++ (c ∷ [])) s in
    let after = digit_runs [] s in if is_digit c then longer else ended_run run after

-- The value of each run; `atoi` may have none.
pub run_values : List Text → Option (List ℤ)
run_values [] = some []
run_values (r ∷ rs) = do v ← atoi r; vs ← run_values rs; some (v ∷ vs)

digit_runs-skip_separators : (s : Text) → digit_runs [] (skip_separators s) ≡ digit_runs [] s
unfolding digit_runs skip_separators
digit_runs-skip_separators [] = refl
digit_runs-skip_separators (c ∷ s) = elim (Bool-cases (is_separator c)) [
  | inl e ↦
      let plain : is_digit c ≡ false = ground arith in rw (e, plain) (digit_runs-skip_separators s)
  | inr e ↦ rw e refl
]

length-skip_separators : (s : Text) → length (skip_separators s) ≤ length s
unfolding skip_separators
length-skip_separators [] = omega arith
length-skip_separators (c ∷ s) = ground (arith, length-skip_separators s)

digit_runs-span_digits :
    (run s : Text)
    → digit_runs run s ≡ ended_run (run ++ (span_digits s).0) (digit_runs [] (span_digits s).1)
unfolding digit_runs span_digits
digit_runs-span_digits run [] = ap (λ r. ended_run r []) (sym (append-nil run))
digit_runs-span_digits run (c ∷ s) = elim (Bool-cases (is_digit c)) [
  | inl e ↦ rw e (
      digit_runs-span_digits (run ++ (c ∷ [])) s
      ∙ ap (λ r. ended_run r (digit_runs [] (span_digits s).1))
          (append_assoc run (c ∷ []) (span_digits s).0))
  | inr e ↦ rw e (rw e (ap (λ r. ended_run r (digit_runs [] s)) (sym (append-nil run))))
]

length-span_digits : (s : Text) → length (span_digits s).0 + length (span_digits s).1 ≡ length s
unfolding span_digits
length-span_digits [] = omega arith
length-span_digits (c ∷ s) = elim (Bool-cases (is_digit c)) [
  | inl e ↦ rw e (omega (arith, length-span_digits s))
  | inr e ↦ rw e (omega arith)
]

-- What the push makes of a span, where the rest of the loop does what it should.
array_push-run_values :
    (loop : Text → Option (List ℤ)) (c : ℕ) (t : Text) (span : Text × Text)
    → digit_runs [] (c ∷ t) ≡ ended_run span.0 (digit_runs [] span.1)
    → (span.0 ≡ [] → digit_runs [] (c ∷ t) ≡ digit_runs [] t)
    → loop t ≡ run_values (digit_runs [] t)
    → (0 < length span.0 → loop span.1 ≡ run_values (digit_runs [] span.1))
    → array_push loop t span ≡ run_values (digit_runs [] (c ∷ t))
unfolding run_values
array_push-run_values loop c t ([], rest) runs skipped one more =
    one ∙ ap run_values (sym (skipped refl))
array_push-run_values loop c t (d ∷ ds, rest) runs skipped one more =
    rw (more (omega arith), runs) refl

no_digits :
    (c : ℕ) (t : Text) → (span_digits (c ∷ t)).0 ≡ [] → digit_runs [] (c ∷ t) ≡ digit_runs [] t
unfolding span_digits digit_runs
no_digits c t h = elim (Bool-cases (is_digit c)) [
  | inl e ↦ let clash : c ∷ (span_digits t).0 ≡ [] = rw e at h in cc clash
  | inr e ↦ rw e refl
]

round-run_values :
    (loop : Text → Option (List ℤ)) (bound : ℕ) (s : Text)
    → length s ≤ suc bound
    → ((t : Text) → length t ≤ bound → loop t ≡ run_values (digit_runs [] t))
    → array_round loop s ≡ run_values (digit_runs [] s)
unfolding run_values digit_runs
round-run_values loop bound [] short rest = refl
round-run_values loop bound (c ∷ t) short rest =
    let parts = length-span_digits (c ∷ t) in
    array_push-run_values loop c t (span_digits (c ∷ t)) (digit_runs-span_digits [] (c ∷ t))
      (no_digits c t) (rest t (omega (arith, short)))
      (λ some_digit. rest (span_digits (c ∷ t)).1 (omega (arith, short, parts, some_digit)))

-- With a unit of fuel for each byte the loop returns the values of the longest runs of digits of the
-- text, in order, whatever separates them; where a run exceeds `int` it has no result.
pub array_loop-run_values :
    (fuel : ℕ) (s : Text) → length s ≤ fuel → array_loop fuel s ≡ run_values (digit_runs [] s)
unfolding array_loop run_values digit_runs
array_loop-run_values zero [] enough = refl
array_loop-run_values zero (c ∷ s) enough = let never : ⊥ = omega (arith, enough) in elim never [ ]
array_loop-run_values (suc fuel) s enough =
    let shorter = length-skip_separators s in
    round-run_values (array_loop fuel) fuel (skip_separators s) (omega (arith, shorter, enough))
      (array_loop-run_values fuel)
    ∙ ap run_values (digit_runs-skip_separators s)
