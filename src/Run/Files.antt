-- ===== src/Run/Files.antt =====
-- The loop over the files of a run.
use encoder_rle4k_cpu.Base.{
  ℕ, suc, not, List, [], ◌∷◌, ◌++◌, Option, some, ◌==◌, ◌>>=◌, if◌then◌else◌,
}
use encoder_rle4k_cpu.Base.Int.{ℤ}
use encoder_rle4k_cpu.Text.{Text, codes}
use encoder_rle4k_cpu.Double.{Double, nought}
use encoder_rle4k_cpu.System.{System, World, cout, cerr}
use encoder_rle4k_cpu.Config.{BenchConfig}
use encoder_rle4k_cpu.Report.{FileRecord, rle4k_print_file_report}
use encoder_rle4k_cpu.Run.{Loading, load_failed, no_document, loaded, Tools}
use encoder_rle4k_cpu.Run.Messages.{
  title_text, missing_text, loading_text, failed_text, skip_text, loaded_text, args_text,
  phase_text,
}
use encoder_rle4k_cpu.Run.Times.{load_ms}
use encoder_rle4k_cpu.Run.Geometry.{blocks_of}
use encoder_rle4k_cpu.Run.Lines.{summary_head, summary_lines}
use encoder_rle4k_cpu.Run.Formats.{Tally, accs_of, logs_of, run_formats}
use encoder_rle4k_cpu.Run.Accumulate.{FmtAcc, switches_of, giga, fmt_results}

-- `all_files`, `load_failures` and the world.
pub record Progress (D : Double) (S : System) : Type 0 where
  pub all_files : List (FileRecord D.W)
  pub load_failures : ℕ
  pub world : World S

module _ (D : Double) (S : System) (tools : Tools D S) (cfg : BenchConfig D.W) (fmts : List ℤ) where
  abbrev pub front_ss : List (FmtAcc D.W) → D.W
  front_ss [] = nought D
  front_ss (acc ∷ accs) = acc.ss

  abbrev pub front_raster : List (FmtAcc D.W) → D.W
  front_raster [] = nought D
  front_raster (acc ∷ accs) = acc.raster_wall

  -- `(int)ceil((hi - lo) / pw_nm)`
  abbrev pub pixels : D.W → D.W → ℤ
  pixels hi lo = D.ceil_int (D.div (D.sub hi lo) (D.mul cfg.pitch_width_um (D.literal 10000 1)))

  abbrev pub img_w : tools.Document → ℤ
  img_w document = pixels (tools.max_x document) (tools.min_x document)

  abbrev pub img_h : tools.Document → ℤ
  img_h document = pixels (tools.max_y document) (tools.min_y document)

  unfoldable pub new_record :
      Text → tools.Document → (ncols nrows : ℤ) → List (FmtAcc D.W) → FileRecord D.W
  unfolding fmt_results
  new_record file document ncols nrows accs = record {
    short_name = S.filename file;
    img_w = img_w document;
    img_h = img_h document;
    ncols = ncols;
    nrows = nrows;
    d_ms = load_ms D tools.per_us (tools.load_clock file);
    raster_ms = front_raster accs;
    total_ss_gb = giga D (front_ss accs);
    fmts = fmt_results D fmts accs;
  }

  abbrev pub head_text : FileRecord D.W → Text
  head_text rec =
      loaded_text D rec cfg ++ args_text D fmts (switches_of cfg) cfg ++ phase_text D rec cfg

  -- A record, with what goes to stderr before its report.
  abbrev pub with_lines : FileRecord D.W → List (Tally D.W) → FileRecord D.W × Text
  with_lines rec ts = (
    rec,
    head_text rec
        ++ logs_of ts
        ++ summary_head D cfg rec.raster_ms rec.total_ss_gb
        ++ summary_lines D cfg fmts (accs_of ts)
        ++ codes "\n",
  )

  -- The record of a document with layers.
  unfoldable pub file_record : Text → tools.Document → Option (FileRecord D.W × Text)
  unfolding blocks_of run_formats new_record
  file_record file document = do
    ncols ← blocks_of (img_w document) cfg.strip_width
    nrows ← blocks_of (img_h document) cfg.block_line
    ts ← run_formats D S tools cfg file document ncols nrows 0 fmts
    some (with_lines (new_record file document ncols nrows (accs_of ts)) ts)

  abbrev pub fail_load : Progress D S → Progress D S
  fail_load p = record p { load_failures = suc p.load_failures }

  -- `std::cerr <<`
  abbrev pub say : Text → Progress D S → Progress D S
  say t p = record p { world = cerr t p.world }

  -- The report is printed and the record kept.
  abbrev pub keep_record : Progress D S → FileRecord D.W × Text → Progress D S
  keep_record p (rec, text) = record p {
    all_files = p.all_files ++ (rec ∷ []);
    world = cout (rle4k_print_file_report D rec cfg) (cerr text p.world);
  }

  abbrev pub run_loaded : Text → Progress D S → Loading tools.Document → Option (Progress D S)
  run_loaded file p (load_failed what) = some (fail_load (say (failed_text what) p))
  run_loaded file p no_document = some (say skip_text p)
  run_loaded file p (loaded document) =
      if tools.layer_count document == 0
      then some (say skip_text p)
      else file_record file document >>= λ rec. some (keep_record p rec)

  unfoldable pub run_file : Text → Text → Progress D S → Option (Progress D S)
  unfolding file_record
  run_file title file p =
      if not (S.exists p.world.disk file)
      then some (fail_load (say (missing_text file) (say title p)))
      else run_loaded file (say loading_text (say title p)) (tools.load p.world.disk file)

  -- From the file at `idx` of `total` on.
  unfoldable pub run_files : (total idx : ℕ) → List Text → Progress D S → Option (Progress D S)
  unfolding run_file
  run_files total idx [] p = some p
  run_files total idx (file ∷ files) p = do
    after ← run_file (title_text (suc idx) total (S.filename file)) file p
    run_files total (suc idx) files after
