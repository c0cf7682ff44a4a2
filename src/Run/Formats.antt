-- ===== src/Run/Formats.antt =====
-- The loops of a file, over its formats and the columns of each.
use encoder_rle4k_cpu.Base.{ℕ, suc, List, [], ◌∷◌, ◌++◌, Option, none, some, ◌>>=◌, run_from}
use encoder_rle4k_cpu.Base.Int.{ℤ, pos_part}
use encoder_rle4k_cpu.Text.{Text}
use encoder_rle4k_cpu.Double.{Double}
use encoder_rle4k_cpu.System.{System}
use encoder_rle4k_cpu.Bitmap.{Bitmap, Result}
use encoder_rle4k_cpu.Encoder.{Encoder}
use encoder_rle4k_cpu.Factory.{get_encoder, initialize_default_processors}
use encoder_rle4k_cpu.Column.{Totals, column}
use encoder_rle4k_cpu.Config.{BenchConfig}
use encoder_rle4k_cpu.Settings.{threads}
use encoder_rle4k_cpu.Run.Accumulate.{FmtAcc, new_acc, switches_of, args_of, add_column}
use encoder_rle4k_cpu.Run.Lines.{sid_text, column_text}
use encoder_rle4k_cpu.Run.Times.{ColumnTimes, column_times}
use encoder_rle4k_cpu.Run.{Tools}

-- The sums of a format, and what its columns have written to stderr.
pub record Tally (W : Type 0) : Type 0 where
  pub acc : FmtAcc W
  pub log : Text

abbrev pub new_tally : (D : Double) → Tally D.W
new_tally D = record { acc = new_acc D; log = [] }

abbrev pub accs_of : {W : Type 0} → List (Tally W) → List (FmtAcc W)
accs_of [] = []
accs_of (t ∷ ts) = t.acc ∷ accs_of ts

abbrev pub logs_of : {W : Type 0} → List (Tally W) → Text
logs_of [] = []
logs_of (t ∷ ts) = t.log ++ logs_of ts

-- The loops of a file, over its formats and the columns of each.
module _ (D : Double) (S : System) (tools : Tools D S) (cfg : BenchConfig D.W) where
  module _ (file : Text) (document : tools.Document) (ncols nrows : ℤ) where
    -- `pw_nm`
    abbrev pub pw_nm : D.W
    pw_nm = D.mul cfg.pitch_width_um (D.literal 10000 1)

    -- `std::max(cache_min, cfg.cache_blocks_max)`
    abbrev pub cache_blocks : ℕ
    cache_blocks = pos_part (threads cfg).cache_blocks

    abbrev pub rasterize : ℕ → ℕ → Result (Option Bitmap)
    rasterize = tools.rasterize document pw_nm (pos_part cfg.strip_width) (pos_part cfg.block_line)

    -- The sums with a column's, and its lines behind the others.
    abbrev pub tally_column : Encoder → ℕ → Tally D.W → Totals → ColumnTimes D.W → Tally D.W
    tally_column enc col t totals times = record {
      acc = add_column D (switches_of cfg) times totals t.acc;
      log = t.log ++ sid_text enc col ncols ++ column_text D (switches_of cfg) times totals;
    }

    -- What a column's phases measure.
    abbrev pub times_of : ℕ → ℕ → Option (ColumnTimes D.W)
    times_of fi col =
        column_times D tools.per_us (threads cfg) (switches_of cfg) (tools.clock file fi col)
          cache_blocks (pos_part nrows)

    -- A column of a format; `none` where an exception ends the program.
    unfoldable pub run_column : ℕ → Encoder → ℕ → Tally D.W → Option (Tally D.W)
    unfolding column add_column column_times
    run_column fi enc col t = do
      totals ←
          column tools.lib enc (args_of cfg) (switches_of cfg) rasterize col cache_blocks
            (pos_part nrows)
      times ← times_of fi col
      some (tally_column enc col t totals times)

    -- `for (int col = 0; col < ncols; ++col)`
    unfoldable pub run_columns : ℕ → Encoder → Tally D.W → Option (Tally D.W)
    unfolding run_column run_from
    run_columns fi enc = run_from (run_column fi enc) (pos_part ncols) 0

    -- A format without an encoder is passed over.
    abbrev pub run_encoder : ℕ → Option Encoder → Option (Tally D.W)
    run_encoder fi none = some (new_tally D)
    run_encoder fi (some enc) = run_columns fi enc (new_tally D)

    -- `facc` with the lines of each format, from the format at `fi` on.
    unfoldable pub run_formats : ℕ → List ℤ → Option (List (Tally D.W))
    unfolding run_columns get_encoder
    run_formats fi [] = some []
    run_formats fi (fmt ∷ fmts) = do
      t ← run_encoder fi (get_encoder initialize_default_processors fmt)
      ts ← run_formats (suc fi) fmts
      some (t ∷ ts)
