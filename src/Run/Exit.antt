-- ===== src/Run/Exit.antt =====
-- What the loop over the files counts, and the exit code.
use encoder_rle4k_cpu.Base.{
  ℕ, zero, suc, ◌+◌, ◌<◌, ◌≡◌, ◌≢◌, ◌↔◌, refl, ap, sym, subst, ◌∙◌, inl, inr, true, List, [], ◌∷◌,
  Option, none, some, arith, length, length-append, ltb, ◌||◌, ◌==◌, Bool-cases, bind-eq-some,
  some_injective, ◌>>=◌, if◌then◌else◌,
}
use encoder_rle4k_cpu.Base.Int.{ℤ, pos}
use encoder_rle4k_cpu.Text.{Text}
use encoder_rle4k_cpu.Double.{Double}
use encoder_rle4k_cpu.System.{System, World}
use encoder_rle4k_cpu.Config.{BenchConfig}
use encoder_rle4k_cpu.Report.{FileRecord}
use encoder_rle4k_cpu.Run.{Loading, load_failed, no_document, loaded, Tools}
use encoder_rle4k_cpu.Run.Messages.{title_text, missing_text, loading_text, failed_text, skip_text}
use encoder_rle4k_cpu.Run.Files.{
  Progress, file_record, say, fail_load, keep_record, run_loaded, run_file, run_files,
}
use encoder_rle4k_cpu.Run.Command.{exit_code, no_records, start_progress}

-- What becomes of a file: it is missing or cannot be loaded, it has no layers, or it has a record.
pub data Fate : Type 0 where
  failing skipped reported : Fate

module _ (D : Double) (S : System) (tools : Tools D S) where
  abbrev pub fate_loaded : Loading tools.Document → Fate
  fate_loaded (load_failed what) = failing
  fate_loaded no_document = skipped
  fate_loaded (loaded document) = if tools.layer_count document == 0 then skipped else reported

  abbrev pub fate : S.Disk → Text → Fate
  fate disk file = if S.exists disk file then fate_loaded (tools.load disk file) else failing

  abbrev pub failing_one : Fate → ℕ
  failing_one failing = 1
  failing_one skipped = 0
  failing_one reported = 0

  abbrev pub reported_one : Fate → ℕ
  reported_one failing = 0
  reported_one skipped = 0
  reported_one reported = 1

  abbrev pub failing_count : S.Disk → List Text → ℕ
  failing_count disk [] = 0
  failing_count disk (file ∷ files) = failing_one (fate disk file) + failing_count disk files

  abbrev pub reported_count : S.Disk → List Text → ℕ
  reported_count disk [] = 0
  reported_count disk (file ∷ files) = reported_one (fate disk file) + reported_count disk files

  module _ (cfg : BenchConfig D.W) (fmts : List ℤ) where
    -- The counters after files of these numbers, with the disk as it was.
    abbrev pub Counted : ℕ → ℕ → Progress D S → Progress D S → Type 0
    Counted failed records p q =
        (q.load_failures ≡ p.load_failures + failed)
        × (length q.all_files ≡ length p.all_files + records)
        × (q.world.disk ≡ p.world.disk)

    same_Counted : (p q : Progress D S) → some p ≡ some q → Counted 0 0 p q
    same_Counted p q h =
        let e = some_injective h in
        (
          omega (arith, ap (λ x. x.load_failures) e),
          omega (arith, ap (λ x. length x.all_files) e),
          ap (λ x. x.world.disk) (sym e),
        )

    fail_Counted :
        (p q : Progress D S) → some (fail_load D S tools cfg fmts p) ≡ some q → Counted 1 0 p q
    fail_Counted p q h =
        let e = some_injective h in
        (
          omega (arith, ap (λ x. x.load_failures) e),
          omega (arith, ap (λ x. length x.all_files) e),
          ap (λ x. x.world.disk) (sym e),
        )

    kept_Counted :
        (p q : Progress D S) (r : Option (FileRecord D.W × Text))
        → (r >>= λ rec. some (keep_record D S tools cfg fmts p rec)) ≡ some q
        → Counted 0 1 p q
    kept_Counted p q none h = cc h
    kept_Counted p q (some rec) h =
        let e = some_injective h in
        (
          omega (arith, ap (λ x. x.load_failures) e),
          omega (arith, ap (λ x. length x.all_files) e, length-append p.all_files (rec.0 ∷ [])),
          ap (λ x. x.world.disk) (sym e),
        )

    loaded_Counted :
        (file : Text) (p q : Progress D S) (l : Loading tools.Document)
        → run_loaded D S tools cfg fmts file p l ≡ some q
        → Counted (failing_one (fate_loaded l)) (reported_one (fate_loaded l)) p q
    loaded_Counted file p q (load_failed what) h =
        fail_Counted (say D S tools cfg fmts (failed_text what) p) q h
    loaded_Counted file p q no_document h = same_Counted (say D S tools cfg fmts skip_text p) q h
    loaded_Counted file p q (loaded document) h =
        elim (Bool-cases (tools.layer_count document == 0)) [
          | inl e ↦ rw e (same_Counted (say D S tools cfg fmts skip_text p) q (rw e at h))
          | inr e ↦
              rw e (kept_Counted p q (file_record D S tools cfg fmts file document) (rw e at h))
        ]

    file_Counted :
        (title file : Text) (p q : Progress D S)
        → run_file D S tools cfg fmts title file p ≡ some q
        → Counted (failing_one (fate p.world.disk file)) (reported_one (fate p.world.disk file)) p q
    unfolding run_file
    file_Counted title file p q h = elim (Bool-cases (S.exists p.world.disk file)) [
      | inl e ↦ rw e (
          loaded_Counted file (say D S tools cfg fmts loading_text (say D S tools cfg fmts title p))
            q (tools.load p.world.disk file) (rw e at h))
      | inr e ↦ rw e (
          fail_Counted (say D S tools cfg fmts (missing_text file) (say D S tools cfg fmts title p))
            q (rw e at h))
    ]

    Counted-trans :
        (p q r : Progress D S) (a b c d : ℕ)
        → Counted a c p q
        → Counted b d q r
        → Counted (a + b) (c + d) p r
    Counted-trans p q r a b c d first second =
        (omega (arith, first.0, second.0), omega (arith, first.1, second.1), second.2 ∙ first.2)

    -- The loop over the files counts those that are missing or cannot be loaded, keeps a record of each
    -- that has layers, and leaves the disk as it is.
    pub run_files-Counted :
        (total idx : ℕ) (files : List Text) (p q : Progress D S)
        → run_files D S tools cfg fmts total idx files p ≡ some q
        → Counted (failing_count p.world.disk files) (reported_count p.world.disk files) p q
    unfolding run_files
    run_files-Counted total idx [] p q h = same_Counted p q h
    run_files-Counted total idx (file ∷ files) p q h =
        let (after, here, later) =
          bind-eq-some
            (run_file D S tools cfg fmts (title_text (suc idx) total (S.filename file)) file p)
            (run_files D S tools cfg fmts total (suc idx) files) h in
        let first = file_Counted _ file p after here in
        let second = run_files-Counted total (suc idx) files after q later in
        Counted-trans p after q _ _ _ _ first (
          subst (λ disk. Counted (failing_count disk files) (reported_count disk files) after q)
            (first.2) second)

    no_zero :
        (n : ℕ) (recs : List (FileRecord D.W))
        → (if ltb 0 (suc n) || no_records recs then pos 1 else pos 0) ≢ pos 0
    no_zero n recs h =
        let some_failure : ltb 0 (suc n) ≡ true = ground arith in
        let clash : pos 1 ≡ pos 0 = rw some_failure at h in cc clash

    code_iff :
        (failures : ℕ) (recs : List (FileRecord D.W))
        → ((if ltb 0 failures || no_records recs then pos 1 else pos 0) ≡ pos 0)
          ↔ ((failures ≡ 0) × (0 < length recs))
    code_iff zero [] = (λ h. cc h, λ h. absurd (omega (arith, h.1)))
    code_iff zero (rec ∷ recs) = (λ h. (refl, omega arith), λ h. refl)
    code_iff (suc n) recs = (λ h. absurd (no_zero n recs h), λ h. absurd (omega (arith, h.0)))

    pub exit_code_iff :
        (q : Progress D S)
        → (exit_code D S q ≡ pos 0) ↔ ((q.load_failures ≡ 0) × (0 < length q.all_files))
    unfolding exit_code
    exit_code_iff q = code_iff q.load_failures q.all_files

    -- Where the loop over the files of a run returns, the exit code is 0 exactly when each file exists and
    -- could be loaded, and at least one of them has layers.
    pub exit_code-counts :
        (total idx : ℕ) (files : List Text) (w : World S) (q : Progress D S)
        → run_files D S tools cfg fmts total idx files (start_progress D S tools w) ≡ some q
        → (exit_code D S q ≡ pos 0)
          ↔ ((failing_count w.disk files ≡ 0) × (0 < reported_count w.disk files))
    exit_code-counts total idx files w q h =
        let (failures, records, _) =
          run_files-Counted total idx files (start_progress D S tools w) q h in
        let (to, from) = exit_code_iff q in
        (
          λ zero_exit.
              let (a, b) = to zero_exit in (omega (arith, a, failures), omega (arith, b, records)),
          λ (a, b). from (omega (arith, a, failures), omega (arith, b, records)),
        )
