-- ===== src/Run/Command.antt =====
-- `rle4k_cmd_run` of redcli/main.cpp. An exception that nothing catches has no result.
use encoder_rle4k_cpu.Base.{
  Bool, true, false, ◌||◌, List, [], ◌∷◌, ◌++◌, Option, none, some, length, ltb, ◌>>=◌,
  if◌then◌else◌,
}
use encoder_rle4k_cpu.Base.Int.{ℤ, pos, as_uint32}
use encoder_rle4k_cpu.BufferPool.{clear}
use encoder_rle4k_cpu.BufferPool.Helpers.{initialize_global_buffer_manager}
use encoder_rle4k_cpu.Text.{Text, codes, is_empty}
use encoder_rle4k_cpu.Text.Number.{atoi}
use encoder_rle4k_cpu.Text.Decimal.{show_ℕ}
use encoder_rle4k_cpu.Double.{Double}
use encoder_rle4k_cpu.System.{System, World, cout, cerr}
use encoder_rle4k_cpu.Config.{BenchConfig}
use encoder_rle4k_cpu.Settings.{with_env_threads, clamp_config}
use encoder_rle4k_cpu.ConfigFile.Start.{start_config}
use encoder_rle4k_cpu.Cli.{Overrides, Parsed, go_on, helped, parse_args}
use encoder_rle4k_cpu.Factory.{chosen_formats}
use encoder_rle4k_cpu.Report.{FileRecord}
use encoder_rle4k_cpu.Report.Csv.{rle4k_write_csv}
use encoder_rle4k_cpu.Run.{Tools}
use encoder_rle4k_cpu.Run.Collect.{collect_files}
use encoder_rle4k_cpu.Run.Geometry.{with_strip_width}
use encoder_rle4k_cpu.Run.Files.{Progress, run_files}

-- The value of RLE4K_THREADS, where it is set; `atoi` may have no result.
abbrev pub env_threads : Option Text → Option (Option ℤ)
env_threads none = some none
env_threads (some t) = do n ← atoi t; some (some n)

abbrev pub no_records : {A : Type 0} → List A → Bool
no_records [] = true
no_records (rec ∷ recs) = false

module _ (D : Double) (S : System) where
  -- `"("`, the number of records, and `" files"`
  abbrev pub files_text : List (FileRecord D.W) → Text
  files_text recs = codes "(" ++ show_ℕ (length recs) ++ codes " files"

  abbrev pub csv_written : Text → List (FileRecord D.W) → World S → S.Disk × Bool → World S
  csv_written path recs w (disk, true) =
      cerr
        (codes "[redcli] CSV written "
          ++ files_text recs
          ++ codes ", UTF-8): "
          ++ path
          ++ codes "\n")
        (record w { disk = disk })
  csv_written path recs w (disk, false) =
      cerr (codes "[ERROR] failed to write CSV: " ++ path ++ codes "\n") (record w { disk = disk })

  -- The CSV file, only where a path is given.
  abbrev pub export_csv : BenchConfig D.W → Text → List (FileRecord D.W) → World S → World S
  export_csv cfg [] recs w =
      cerr
        (codes "[redcli] Console report only "
          ++ files_text recs
          ++ codes "). Use --csv <path> to export a CSV file.\n")
        w
  export_csv cfg (c ∷ path) recs w =
      csv_written (c ∷ path) recs w (rle4k_write_csv D cfg S (c ∷ path) recs w.disk)

  -- `if (load_failures > 0 || all_files.empty()) return 1;`
  unfoldable pub exit_code : Progress D S → ℤ
  exit_code p = if ltb 0 p.load_failures || no_records p.all_files then pos 1 else pos 0

  -- `initialize_global_buffer_manager(cfg.strip_width, cfg.block_line, cfg.raster_threads)`
  unfoldable pub prepare_buffers : BenchConfig D.W → World S → World S
  unfolding initialize_global_buffer_manager
  prepare_buffers cfg w = record w {
    buffers =
        initialize_global_buffer_manager (as_uint32 cfg.strip_width) (as_uint32 cfg.block_line)
          (as_uint32 cfg.raster_threads) w.buffers;
  }

  -- `global_buffer_manager::get_instance().clear()`
  unfoldable pub clear_buffers : World S → World S
  unfolding clear
  clear_buffers w = record w { buffers = clear w.buffers }

  unfoldable pub finish : BenchConfig D.W → Text → Progress D S → World S × ℤ
  unfolding exit_code clear_buffers
  finish cfg csv_path p = (
    clear_buffers (cerr (codes "[redcli] Done.\n") (export_csv cfg csv_path p.all_files p.world)),
    exit_code p,
  )

module _ (D : Double) (S : System) (tools : Tools D S) where
  abbrev pub start_progress : World S → Progress D S
  start_progress w = record { all_files = []; load_failures = 0; world = w }

  abbrev pub run_listed : BenchConfig D.W → Text → List Text → World S → Option (World S × ℤ)
  run_listed cfg csv_path [] w = some (cerr (codes "[ERROR] No .dif files\n") w, pos 1)
  run_listed cfg csv_path (file ∷ files) w = do
    sized ← with_strip_width cfg
    p ←
        run_files D S tools sized (chosen_formats sized.formats) (length (file ∷ files)) 0
          (file ∷ files) (start_progress (prepare_buffers D S sized w))
    some (finish D S sized csv_path p)

  abbrev pub run_collected : BenchConfig D.W → Text → World S → Option (World S × ℤ)
  run_collected cfg csv_path w = do
    files ← collect_files S cfg w.disk
    run_listed cfg csv_path files w

  abbrev pub run_clamped : Text → World S → BenchConfig D.W → Option (World S × ℤ)
  run_clamped csv_path w cfg =
      if is_empty cfg.input_path
      then some (cerr (codes "[ERROR] --input required\n") w, pos 1)
      else run_collected cfg csv_path w

  -- From the environment on, with the settings of the command line.
  unfoldable pub run_settings : Overrides D.W → World S → Option (World S × ℤ)
  run_settings o w = do
    env ← env_threads (S.getenv (codes "RLE4K_THREADS"))
    run_clamped o.csv_path w (clamp_config (with_env_threads env o.cfg))

  abbrev pub run_parsed : Text → World S → Parsed D.W → Option (World S × ℤ)
  run_parsed usage w helped = some (cout usage w, pos 0)
  run_parsed usage w (go_on o) = run_settings o w

  -- `usage` is the text of `rle4k_print_usage`, `args` the arguments behind the command.
  unfoldable pub rle4k_cmd_run : Text → List Text → World S → Option (World S × ℤ)
  unfolding run_settings
  rle4k_cmd_run usage args w = do
    started ← start_config D S w
    parsed ← parse_args D args (record { cfg = started.1; force = false; csv_path = [] })
    run_parsed usage started.0 parsed
