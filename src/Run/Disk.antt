-- ===== src/Run/Disk.antt =====
-- What a run of redcli/main.cpp does to the disk.
use encoder_rle4k_cpu.Base.{
  suc, ◌≡◌, ◌⊎◌, refl, ap, subst, Bool, ◌∙◌, sym, inl, inr, List, [], ◌∷◌, some, length, Bool-cases,
  bind-eq-some, some_injective, false, true,
}
use encoder_rle4k_cpu.Base.Int.{ℤ}
use encoder_rle4k_cpu.Text.{Text, is_empty}
use encoder_rle4k_cpu.Double.{Double}
use encoder_rle4k_cpu.System.{System, World}
use encoder_rle4k_cpu.Config.{BenchConfig}
use encoder_rle4k_cpu.ConfigFile.{rle4k_resolve_config_path}
use encoder_rle4k_cpu.ConfigFile.Start.{Loaded, load_resolved, report_config, start_config}
use encoder_rle4k_cpu.Cli.{Overrides, Parsed, go_on, helped, parse_args}
use encoder_rle4k_cpu.Settings.{with_env_threads, clamp_config}
use encoder_rle4k_cpu.Factory.{chosen_formats}
use encoder_rle4k_cpu.Report.{FileRecord}
use encoder_rle4k_cpu.Report.Csv.{rle4k_write_csv}
use encoder_rle4k_cpu.Run.{Tools}
use encoder_rle4k_cpu.Run.Collect.{collect_files}
use encoder_rle4k_cpu.Run.Geometry.{with_strip_width}
use encoder_rle4k_cpu.Run.Files.{Progress, run_files}
use encoder_rle4k_cpu.Run.Exit.{run_files-Counted}
use encoder_rle4k_cpu.Run.Command.{
  env_threads, csv_written, start_progress, prepare_buffers, finish, run_listed, run_clamped,
  run_settings, run_parsed, rle4k_cmd_run,
}

module _ (D : Double) (S : System) where
  -- The disk after the CSV file has been written at `csv_path`, which is given.
  pub record CsvWritten (csv_path : Text) (before after : S.Disk) : Type 0 where
    pub given : is_empty csv_path ≡ false
    pub cfg : BenchConfig D.W
    pub recs : List (FileRecord D.W)
    pub written : after ≡ (rle4k_write_csv D cfg S csv_path recs before).0

  -- The disk is as it was, or the CSV file has been written.
  abbrev pub OnlyCsv : Text → S.Disk → S.Disk → Type 0
  OnlyCsv csv_path before after = (after ≡ before) ⊎ CsvWritten csv_path before after

  report_config-disk :
      (resolved : Text) (w : World S) (l : Loaded D.W)
      → (report_config D S resolved w l).0.disk ≡ w.disk
  report_config-disk resolved w l = elim (Bool-cases l.done) [
    | inl e ↦ rw e refl
    | inr e ↦ rw e refl
  ]

  start_config-disk :
      (w started : World S) (cfg : BenchConfig D.W)
      → start_config D S w ≡ some (started, cfg)
      → started.disk ≡ w.disk
  unfolding start_config
  start_config-disk w started cfg h =
      let (l, _, e) =
        bind-eq-some (load_resolved D S w.disk (rle4k_resolve_config_path S w.disk)) _ h in
      ap (λ r. r.0.disk) (sym (some_injective e))
      ∙ report_config-disk (rle4k_resolve_config_path S w.disk) w l

  csv_written-disk :
      (path : Text) (recs : List (FileRecord D.W)) (w : World S) (r : S.Disk × Bool)
      → (csv_written D S path recs w r).disk ≡ r.0
  csv_written-disk path recs w (disk, true) = refl
  csv_written-disk path recs w (disk, false) = refl

  finish-OnlyCsv :
      (cfg : BenchConfig D.W) (csv_path : Text) (p : Progress D S)
      → OnlyCsv csv_path p.world.disk (finish D S cfg csv_path p).0.disk
  unfolding finish
  finish-OnlyCsv cfg [] p = inl refl
  finish-OnlyCsv cfg (c ∷ path) p = inr record {
    given = refl;
    cfg = cfg;
    recs = p.all_files;
    written =
        csv_written-disk (c ∷ path) p.all_files p.world
          (rle4k_write_csv D cfg S (c ∷ path) p.all_files p.world.disk);
  }

module _ (D : Double) (S : System) (tools : Tools D S) where
  run_listed-OnlyCsv :
      (cfg : BenchConfig D.W) (csv_path : Text) (files : List Text) (w after : World S) (code : ℤ)
      → run_listed D S tools cfg csv_path files w ≡ some (after, code)
      → OnlyCsv D S csv_path w.disk after.disk
  unfolding prepare_buffers
  run_listed-OnlyCsv cfg csv_path [] w after code ran =
      inl (ap (λ r. r.0.disk) (sym (some_injective ran)))
  run_listed-OnlyCsv cfg csv_path (file ∷ files) w after code ran =
      let (sized, e0, e1) = bind-eq-some (with_strip_width cfg) _ ran in
      let fmts : List ℤ = chosen_formats sized.formats in
      let start : Progress D S = start_progress D S tools (prepare_buffers D S sized w) in
      let (q, f0, f1) =
        bind-eq-some (run_files D S tools sized fmts (suc (length files)) 0 (file ∷ files) start) _
          e1 in
      let (_, _, same) =
        run_files-Counted D S tools sized fmts (suc (length files)) 0 (file ∷ files) start q f0 in
      let done : (finish D S sized csv_path q).0.disk ≡ after.disk =
        ap (λ r. r.0.disk) (some_injective f1) in
      subst (λ d. OnlyCsv D S csv_path d after.disk) same
        (subst (OnlyCsv D S csv_path q.world.disk) done (finish-OnlyCsv D S sized csv_path q))

  run_clamped-OnlyCsv :
      (cfg : BenchConfig D.W) (csv_path : Text) (w after : World S) (code : ℤ)
      → run_clamped D S tools csv_path w cfg ≡ some (after, code)
      → OnlyCsv D S csv_path w.disk after.disk
  run_clamped-OnlyCsv cfg csv_path w after code ran = elim (Bool-cases (is_empty cfg.input_path)) [
    | inl e ↦ inl (ap (λ r. r.0.disk) (sym (some_injective (rw e at ran))))
    | inr e ↦
        let (files, _, listed) = bind-eq-some (collect_files S cfg w.disk) _ (rw e at ran) in
        run_listed-OnlyCsv cfg csv_path files w after code listed
  ]

  run_parsed-OnlyCsv :
      (usage : Text) (o : Overrides D.W) (w after : World S) (code : ℤ)
      → run_parsed D S tools usage w (go_on o) ≡ some (after, code)
      → OnlyCsv D S o.csv_path w.disk after.disk
  unfolding run_settings
  run_parsed-OnlyCsv usage o w after code ran =
      let (env, _, clamped) = bind-eq-some (env_threads (S.getenv _)) _ ran in
      run_clamped-OnlyCsv (clamp_config (with_env_threads env o.cfg)) o.csv_path w after code
        clamped

  -- What the options of a run let it do to the disk.
  abbrev pub Allowed : Parsed D.W → S.Disk → S.Disk → Type 0
  Allowed helped before after = after ≡ before
  Allowed (go_on o) before after = OnlyCsv D S o.csv_path before after

  run_parsed-Allowed :
      (usage : Text) (parsed : Parsed D.W) (w after : World S) (code : ℤ)
      → run_parsed D S tools usage w parsed ≡ some (after, code)
      → Allowed parsed w.disk after.disk
  run_parsed-Allowed usage helped w after code ran = ap (λ r. r.0.disk) (sym (some_injective ran))
  run_parsed-Allowed usage (go_on o) w after code ran = run_parsed-OnlyCsv usage o w after code ran

  -- A run whose settings and options are read, with what the options allow.
  abbrev pub LeftDisk : List Text → World S → World S → Type 0
  LeftDisk args w after =
      (started : World S) × (cfg : BenchConfig D.W) × (parsed : Parsed D.W) × (start_config D S w
        ≡ some (started, cfg))
      × (parse_args D args (record { cfg = cfg; force = false; csv_path = [] }) ≡ some parsed)
      × Allowed parsed w.disk after.disk

  -- A run that returns has read its settings and options. The disk is as it was, or is what writing the
  -- CSV file at the path that the options give made of it; without such a path it is as it was.
  pub rle4k_cmd_run-LeftDisk :
      (usage : Text) (args : List Text) (w after : World S) (code : ℤ)
      → rle4k_cmd_run D S tools usage args w ≡ some (after, code)
      → LeftDisk args w after
  unfolding rle4k_cmd_run
  rle4k_cmd_run-LeftDisk usage args w after code ran =
      let ((started, cfg), begun, rest) = bind-eq-some (start_config D S w) _ ran in
      let (parsed, options, runs) =
        bind-eq-some (parse_args D args (record { cfg = cfg; force = false; csv_path = [] })) _
          rest in
      (
        started,
        cfg,
        parsed,
        begun,
        options,
        subst (λ d. Allowed parsed d after.disk) (start_config-disk D S w started cfg begun)
            (run_parsed-Allowed usage parsed started after code runs),
      )
