-- ===== src/Run/Messages.antt =====
-- What a run writes to stderr about a file before its formats.
use encoder_rle4k_cpu.Base.{ℕ, Bool, List, ◌++◌, length, if◌then◌else◌}
use encoder_rle4k_cpu.Base.Int.{ℤ, pos, max_ℤ}
use encoder_rle4k_cpu.Text.{Text, codes}
use encoder_rle4k_cpu.Text.Decimal.{show_ℕ, show_ℤ}
use encoder_rle4k_cpu.Double.{Double}
use encoder_rle4k_cpu.Config.{BenchConfig}
use encoder_rle4k_cpu.Settings.{threads}
use encoder_rle4k_cpu.Column.{Switches}
use encoder_rle4k_cpu.Report.{FileRecord}

abbrev pub title_text : (file_idx total : ℕ) → Text → Text
title_text file_idx total short_name =
    codes "\n============================================================\n"
    ++ codes "  File "
    ++ show_ℕ file_idx
    ++ codes "/"
    ++ show_ℕ total
    ++ codes ": "
    ++ short_name
    ++ codes "\n"
    ++ codes "============================================================\n\n"

abbrev pub missing_text : Text → Text
missing_text file = codes "[ERROR] DIF not found: " ++ file ++ codes "\n\n"

abbrev pub loading_text : Text
loading_text = codes "[Phase 1] Loading DIF...\n"

abbrev pub failed_text : Text → Text
failed_text what = codes "[ERROR] DIF load failed: " ++ what ++ codes "\n\n"

abbrev pub skip_text : Text
skip_text = codes "  [SKIP] No layers.\n\n"

abbrev pub on_off : Bool → Text
on_off b = if b then codes "on" else codes "off"

module _ (D : Double) where
  abbrev pub loaded_text : FileRecord D.W → BenchConfig D.W → Text
  loaded_text rec cfg =
      codes "[Phase 1] DIF loaded in "
      ++ D.fixed 0 rec.d_ms
      ++ codes "ms\n"
      ++ codes "[Phase 1] Image: "
      ++ show_ℤ rec.ncols
      ++ codes " cols x "
      ++ show_ℤ rec.nrows
      ++ codes " rows"
      ++ codes " ("
      ++ show_ℤ cfg.strip_width
      ++ codes "x"
      ++ show_ℤ cfg.block_line
      ++ codes " px blocks)\n\n"

  abbrev pub args_text : List ℤ → Switches → BenchConfig D.W → Text
  args_text fmts sw cfg =
      codes "[args] formats="
      ++ show_ℕ (length fmts)
      ++ codes " rt="
      ++ show_ℤ (threads cfg).rt_threads
      ++ codes " et="
      ++ show_ℤ (threads cfg).et_threads
      ++ codes " dt="
      ++ show_ℤ (threads cfg).dt_threads
      ++ codes " repeat="
      ++ show_ℕ sw.repeat
      ++ codes " cache=["
      ++ show_ℤ (max_ℤ (pos 1) cfg.cache_blocks_min)
      ++ codes ","
      ++ show_ℤ (threads cfg).cache_blocks
      ++ codes "]"
      ++ codes " check="
      ++ on_off sw.do_check
      ++ codes " enc="
      ++ on_off sw.do_encode
      ++ codes " dec="
      ++ on_off sw.do_decode
      ++ codes "\n"

  -- The size of the raw blocks of a column, in GB.
  abbrev pub column_gb : BenchConfig D.W → ℤ → D.W
  column_gb cfg nrows =
      D.div
        (D.mul (D.div (D.mul (D.of_ℤ cfg.strip_width) (D.of_ℤ cfg.block_line)) (D.literal 80 1))
          (D.of_ℤ nrows))
        (D.literal 1000000000 0)

  abbrev pub phase_text : FileRecord D.W → BenchConfig D.W → Text
  phase_text rec cfg =
      codes "[Phase] outer format -> strip col -> windowed rows"
      ++ codes " ("
      ++ show_ℤ rec.ncols
      ++ codes "x"
      ++ show_ℤ rec.nrows
      ++ codes " blocks;"
      ++ codes " ~"
      ++ D.fixed 1 (column_gb cfg rec.nrows)
      ++ codes " GB raw/col); re-raster per format\n"
