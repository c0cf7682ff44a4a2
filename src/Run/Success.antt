-- ===== src/Run/Success.antt =====
-- Runs of redcli/main.cpp with every phase and the check on, over files that can be loaded.
use mathlib.Core.List.{append_assoc, append-nil}
use encoder_rle4k_cpu.Base.{
  ℕ, suc, ◌+◌, ◌≡◌, refl, ap, ◌∙◌, sym, subst, true, false, false, List, [], ◌∷◌, ◌++◌, Option,
  some, arith, length, length-append, ◌==◌,
}
use encoder_rle4k_cpu.Base.Int.{ℤ, pos}
use encoder_rle4k_cpu.Text.{Text, codes, is_empty}
use encoder_rle4k_cpu.Double.{Double}
use encoder_rle4k_cpu.System.{System, World}
use encoder_rle4k_cpu.Config.{BenchConfig}
use encoder_rle4k_cpu.ConfigFile.Start.{start_config}
use encoder_rle4k_cpu.Cli.{Overrides, go_on, parse_args}
use encoder_rle4k_cpu.Settings.{with_env_threads, clamp_config}
use encoder_rle4k_cpu.Factory.{chosen_formats}
use encoder_rle4k_cpu.Report.{FileRecord, rle4k_print_file_report}
use encoder_rle4k_cpu.Run.{Tools, loaded}
use encoder_rle4k_cpu.Run.Messages.{title_text, loading_text}
use encoder_rle4k_cpu.Run.Collect.{collect_files}
use encoder_rle4k_cpu.Run.Geometry.{blocks_of, with_strip_width}
use encoder_rle4k_cpu.Run.Files.{
  Progress, img_w, img_h, keep_record, say, file_record, run_file, run_files,
}
use encoder_rle4k_cpu.Run.Named.{names, encoders, encoder_names}
use encoder_rle4k_cpu.Run.Checked.{Checking, AllFit, AllOk, file_record-AllOk}
use encoder_rle4k_cpu.Run.Exit.{exit_code_iff}
use encoder_rle4k_cpu.Run.Command.{
  env_threads, start_progress, prepare_buffers, exit_code, finish, run_listed, rle4k_cmd_run,
}

module _ (D : Double) (S : System) (tools : Tools D S) (cfg : BenchConfig D.W) where
  -- The reports of the files, one after the other.
  abbrev pub reports : List (FileRecord D.W) → Text
  reports [] = []
  reports (rec ∷ recs) = rle4k_print_file_report D rec cfg ++ reports recs

  reports-append :
      (recs : List (FileRecord D.W)) (rec : FileRecord D.W)
      → reports (recs ++ (rec ∷ [])) ≡ reports recs ++ rle4k_print_file_report D rec cfg
  reports-append [] rec = append-nil (rle4k_print_file_report D rec cfg)
  reports-append (x ∷ recs) rec =
      ap (λ t. rle4k_print_file_report D x cfg ++ t) (reports-append recs rec)
      ∙ sym (
          append_assoc (rle4k_print_file_report D x cfg) (reports recs)
            (rle4k_print_file_report D rec cfg))

  module _ (fmts : List ℤ) (disk : S.Disk) where
    -- A file that is there and is loaded, has layers, and whose blocks are good in every format.
    pub record GoodFile (file : Text) : Type 0 where
      pub present : S.exists disk file ≡ true
      pub document : tools.Document
      pub loads : tools.load disk file ≡ loaded document
      pub layers : (tools.layer_count document == 0) ≡ false
      pub ncols : ℤ
      pub nrows : ℤ
      pub columns : blocks_of (img_w D S tools cfg fmts document) cfg.strip_width ≡ some ncols
      pub rows : blocks_of (img_h D S tools cfg fmts document) cfg.block_line ≡ some nrows
      pub on : Checking D S tools cfg file document ncols nrows
      pub fit : AllFit D S tools cfg file document ncols nrows fmts

    abbrev pub AllGood : List Text → Type 0
    AllGood [] = Unit {0}
    AllGood (file ∷ files) = GoodFile file × AllGood files

    -- The record of a file: what `file_record` makes of its document, under its name, with a result for
    -- each format that has an encoder, in their order, each of them OK.
    pub record Reported (file : Text) (rec : FileRecord D.W) : Type 0 where
      pub document : tools.Document
      pub text : Text
      pub loads : tools.load disk file ≡ loaded document
      pub recorded : file_record D S tools cfg fmts file document ≡ some (rec, text)
      pub named : rec.short_name ≡ S.filename file
      pub formats : names rec.fmts ≡ encoder_names (encoders fmts)
      pub all_ok : AllOk rec.fmts

    -- The records are those of the files, in their order.
    abbrev pub AllReported : List Text → List (FileRecord D.W) → Type 0
    AllReported [] [] = Unit {0}
    AllReported [] (rec ∷ recs) = true ≡ false
    AllReported (file ∷ files) [] = true ≡ false
    AllReported (file ∷ files) (rec ∷ recs) = Reported file rec × AllReported files recs

    AllReported-append :
        (files : List Text) (recs : List (FileRecord D.W)) (file : Text) (rec : FileRecord D.W)
        → AllReported files recs
        → Reported file rec
        → AllReported (files ++ (file ∷ [])) (recs ++ (rec ∷ []))
    AllReported-append [] [] file rec all last = (last, tt)
    AllReported-append [] (x ∷ recs) file rec all last = cc all
    AllReported-append (f ∷ files) [] file rec all last = cc all
    AllReported-append (f ∷ files) (x ∷ recs) file rec (first, all) last =
        (first, AllReported-append files recs file rec all last)

    -- So far nothing has failed, the records are those of the files `done`, and their reports are what
    -- went to stdout after `out`.
    pub record Fine (out : Text) (done : List Text) (p : Progress D S) : Type 0 where
      pub no_failure : p.load_failures ≡ 0
      pub all_reported : AllReported done p.all_files
      pub same_disk : p.world.disk ≡ disk
      pub printed : p.world.out ≡ out ++ reports p.all_files

    run_file-Fine :
        (out : Text) (done : List Text) (title file : Text) (p : Progress D S)
        → GoodFile file
        → Fine out done p
        → (q : Progress D S) × (run_file D S tools cfg fmts title file p ≡ some q)
          × Fine out (done ++ (file ∷ [])) q
          × (length q.all_files ≡ length p.all_files + 1)
    unfolding run_file
    run_file-Fine out done title file p good fine =
        let (r, e, ok, formats, named) =
          file_record-AllOk D S tools cfg file good.document good.ncols good.nrows good.on fmts
            good.fit good.columns good.rows in
        let there : S.exists p.world.disk file ≡ true =
          ap (λ d. S.exists d file) fine.same_disk ∙ good.present in
        let loads : tools.load p.world.disk file ≡ loaded good.document =
          ap (λ d. tools.load d file) fine.same_disk ∙ good.loads in
        let announced : Progress D S =
          say D S tools cfg fmts loading_text (say D S tools cfg fmts title p) in
        (
          keep_record D S tools cfg fmts announced r,
          rw (there, loads, good.layers, e) refl,
          record {
            no_failure = fine.no_failure;
            all_reported = AllReported-append done p.all_files file (r.0) fine.all_reported record {
              document = good.document;
              text = r.1;
              loads = good.loads;
              recorded = e;
              named = named;
              formats = formats;
              all_ok = ok;
            };
            same_disk = fine.same_disk;
            printed =
                ap (λ t. t ++ rle4k_print_file_report D (r.0) cfg) fine.printed
                ∙ append_assoc out (reports p.all_files) (rle4k_print_file_report D (r.0) cfg)
                ∙ ap (λ t. out ++ t) (sym (reports-append p.all_files (r.0)));
          },
          length-append p.all_files (r.0 ∷ []),
        )

    run_files-Fine :
        (out : Text) (done : List Text) (total idx : ℕ) (files : List Text) (p : Progress D S)
        → AllGood files
        → Fine out done p
        → (q : Progress D S) × (run_files D S tools cfg fmts total idx files p ≡ some q)
          × Fine out (done ++ files) q
          × (length q.all_files ≡ length p.all_files + length files)
    unfolding run_files
    run_files-Fine out done total idx [] p good fine =
        (p, refl, subst (λ l. Fine out l p) (sym (append-nil done)) fine, omega arith)
    run_files-Fine out done total idx (file ∷ files) p (good, others) fine =
        let (after, e, fine1, n1) =
          run_file-Fine out done (title_text (suc idx) total (S.filename file)) file p good fine in
        let (q, f, fine2, n2) =
          run_files-Fine out (done ++ (file ∷ [])) total (suc idx) files after others fine1 in
        (
          q,
          rw e f,
          subst (λ l. Fine out l q) (append_assoc done (file ∷ []) files) fine2,
          omega (arith, n1, n2),
        )

module _ (D : Double) (S : System) (tools : Tools D S) where
  -- A run that has been through its files.
  pub record Succeeded (sized : BenchConfig D.W) (csv_path out : Text) (disk : S.Disk)
      (files : List Text) (r : Option (World S × ℤ)) : Type 0 where
    pub last : Progress D S
    pub returns : r ≡ some ((finish D S sized csv_path last).0, pos 0)
    pub all_reported :
        AllReported D S tools sized (chosen_formats sized.formats) disk files last.all_files
    pub printed : last.world.out ≡ out ++ reports D S tools sized last.all_files

  run_listed-Succeeded :
      (cfg sized : BenchConfig D.W) (csv_path file : Text) (files : List Text) (w : World S)
      → with_strip_width cfg ≡ some sized
      → AllGood D S tools sized (chosen_formats sized.formats) w.disk (file ∷ files)
      → Succeeded sized csv_path w.out w.disk
          (file ∷ files)
          (run_listed D S tools cfg csv_path (file ∷ files) w)
  unfolding finish exit_code prepare_buffers
  run_listed-Succeeded cfg sized csv_path file files w strip good =
      let fmts : List ℤ = chosen_formats sized.formats in
      let (q, e, fine, n) =
        run_files-Fine D S tools sized fmts w.disk w.out [] (suc (length files)) 0 (file ∷ files)
          (start_progress D S tools (prepare_buffers D S sized w)) good
          (record {
            no_failure = refl;
            all_reported = tt;
            same_disk = refl;
            printed = sym (append-nil w.out);
          }) in
      let (_, code) = exit_code_iff D S tools sized fmts q in
      let zero_code : exit_code D S q ≡ pos 0 = code (fine.no_failure, omega (arith, n)) in
      record {
        last = q;
        returns = rw (strip, e) (ap (λ c. some ((finish D S sized csv_path q).0, c)) zero_code);
        all_reported = fine.all_reported;
        printed = fine.printed;
      }

  -- A run returns 0. Its records are those of its files, in their order: each is what `file_record` makes
  -- of the document of the file, under the name of the file, with a result for each format of the run
  -- that has an encoder, in their order, each of them OK. What it has written to stdout is the reports
  -- of these records, in their order. It does so where its settings, options and environment are read, the
  -- input is named, some files are collected and the strip width is defined, and each file is there and
  -- is loaded, has layers, and is run with every phase and the check on over blocks that are good.
  pub rle4k_cmd_run-Succeeded :
      (usage : Text) (args : List Text) (w started : World S) (cfg : BenchConfig D.W)
      (o : Overrides D.W) (env : Option ℤ) (sized : BenchConfig D.W) (file : Text)
      (files : List Text)
      → start_config D S w ≡ some (started, cfg)
      → parse_args D args (record { cfg = cfg; force = false; csv_path = [] }) ≡ some (go_on o)
      → env_threads (S.getenv (codes "RLE4K_THREADS")) ≡ some env
      → is_empty (clamp_config (with_env_threads env o.cfg)).input_path ≡ false
      → collect_files S (clamp_config (with_env_threads env o.cfg)) started.disk
        ≡ some (file ∷ files)
      → with_strip_width (clamp_config (with_env_threads env o.cfg)) ≡ some sized
      → AllGood D S tools sized (chosen_formats sized.formats) started.disk (file ∷ files)
      → Succeeded sized o.csv_path started.out started.disk
          (file ∷ files)
          (rle4k_cmd_run D S tools usage args w)
  unfolding rle4k_cmd_run
  rle4k_cmd_run-Succeeded usage args w started cfg o env sized file files begun parsed environment
        named collected strip good =
      rw (begun, parsed, environment, named, collected)
        (run_listed-Succeeded (clamp_config (with_env_threads env o.cfg)) sized o.csv_path file
          files started strip good)
