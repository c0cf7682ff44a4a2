-- ===== src/Run/Code.antt =====
-- The exit code of a run of redcli/main.cpp, from its arguments and the disk.
use encoder_rle4k_cpu.Base.{
  suc, ◌<◌, ◌≡◌, ◌↔◌, ap, subst, ◌∙◌, false, List, [], ◌∷◌, Option, some, arith, length,
  bind-eq-some, some_injective,
}
use encoder_rle4k_cpu.Base.Int.{ℤ, pos}
use encoder_rle4k_cpu.Text.{Text, codes, is_empty}
use encoder_rle4k_cpu.Double.{Double}
use encoder_rle4k_cpu.System.{System, World}
use encoder_rle4k_cpu.Config.{BenchConfig}
use encoder_rle4k_cpu.ConfigFile.Start.{start_config}
use encoder_rle4k_cpu.Cli.{Overrides, go_on, parse_args}
use encoder_rle4k_cpu.Settings.{with_env_threads, clamp_config}
use encoder_rle4k_cpu.Factory.{chosen_formats}
use encoder_rle4k_cpu.Run.{Tools}
use encoder_rle4k_cpu.Run.Collect.{collect_files}
use encoder_rle4k_cpu.Run.Geometry.{with_strip_width}
use encoder_rle4k_cpu.Run.Files.{run_files}
use encoder_rle4k_cpu.Run.Exit.{failing_count, reported_count, exit_code-counts}
use encoder_rle4k_cpu.Run.Command.{
  env_threads, start_progress, prepare_buffers, exit_code, finish, run_listed, rle4k_cmd_run,
}

module _ (D : Double) (S : System) (tools : Tools D S) where
  -- 0 exactly when no file has failed and one has been reported.
  abbrev pub CodeCounts : S.Disk → List Text → ℤ → Type 0
  CodeCounts disk files code =
      (code ≡ pos 0)
      ↔ ((failing_count D S tools disk files ≡ 0) × (0 < reported_count D S tools disk files))

  run_listed-CodeCounts :
      (cfg : BenchConfig D.W) (csv_path : Text) (files : List Text) (w after : World S) (code : ℤ)
      → run_listed D S tools cfg csv_path files w ≡ some (after, code)
      → CodeCounts w.disk files code
  unfolding finish prepare_buffers
  run_listed-CodeCounts cfg csv_path [] w after code ran =
      let one : pos 1 ≡ code = ap (λ r. r.1) (some_injective ran) in
      (
        λ zero_code. let clash : pos 1 ≡ pos 0 = one ∙ zero_code in cc clash,
        λ h. absurd (omega (arith, h.1)),
      )
  run_listed-CodeCounts cfg csv_path (file ∷ files) w after code ran =
      let (sized, e0, e1) = bind-eq-some (with_strip_width cfg) _ ran in
      let (q, f0, f1) =
        bind-eq-some
          (run_files D S tools sized (chosen_formats sized.formats) (suc (length files)) 0
            (file ∷ files) (start_progress D S tools (prepare_buffers D S sized w)))
          _ e1 in
      let same : exit_code D S q ≡ code = ap (λ r. r.1) (some_injective f1) in
      subst (CodeCounts w.disk (file ∷ files)) same (
        exit_code-counts D S tools sized (chosen_formats sized.formats) (suc (length files)) 0
          (file ∷ files) (prepare_buffers D S sized w) q f0)

  -- Where a run has read its settings, options and environment, its input is named and its files are
  -- collected, and the run returns: its code is 0 exactly when each file was there and could be loaded,
  -- and at least one had layers. So a result that is not OK does not change the code.
  pub rle4k_cmd_run-CodeCounts :
      (usage : Text) (args : List Text) (w started after : World S) (cfg : BenchConfig D.W)
      (o : Overrides D.W) (env : Option ℤ) (files : List Text) (code : ℤ)
      → start_config D S w ≡ some (started, cfg)
      → parse_args D args (record { cfg = cfg; force = false; csv_path = [] }) ≡ some (go_on o)
      → env_threads (S.getenv (codes "RLE4K_THREADS")) ≡ some env
      → is_empty (clamp_config (with_env_threads env o.cfg)).input_path ≡ false
      → collect_files S (clamp_config (with_env_threads env o.cfg)) started.disk ≡ some files
      → rle4k_cmd_run D S tools usage args w ≡ some (after, code)
      → CodeCounts started.disk files code
  unfolding rle4k_cmd_run
  rle4k_cmd_run-CodeCounts usage args w started after cfg o env files code begun parsed environment
        named collected ran =
      run_listed-CodeCounts (clamp_config (with_env_threads env o.cfg)) o.csv_path files started
        after code (rw (begun, parsed, environment, named, collected) at ran)
