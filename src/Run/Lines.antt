-- ===== src/Run/Lines.antt =====
-- What a run writes to stderr about its columns and formats.
use encoder_rle4k_cpu.Base.{ℕ, ◌+◌, Bool, List, [], ◌∷◌, ◌++◌, Option, none, some, if◌then◌else◌}
use encoder_rle4k_cpu.Base.Int.{ℤ, pos, max_ℤ}
use encoder_rle4k_cpu.Text.{Text, codes}
use encoder_rle4k_cpu.Text.Decimal.{show_ℕ, show_ℤ}
use encoder_rle4k_cpu.Double.{Double}
use encoder_rle4k_cpu.Encoder.{Encoder, get_format_name}
use encoder_rle4k_cpu.Factory.{get_encoder, initialize_default_processors}
use encoder_rle4k_cpu.Column.{Switches, Totals}
use encoder_rle4k_cpu.Config.{BenchConfig}
use encoder_rle4k_cpu.Settings.{threads}
use encoder_rle4k_cpu.Report.{left}
use encoder_rle4k_cpu.Run.Times.{ColumnTimes}
use encoder_rle4k_cpu.Run.Messages.{on_off}
use encoder_rle4k_cpu.Run.Accumulate.{
  FmtAcc, averaged, where_positive, giga, throughput, switches_of,
}

-- Before a column.
abbrev pub sid_text : Encoder → ℕ → ℤ → Text
sid_text enc col ncols =
    codes "  ["
    ++ codes (get_format_name enc)
    ++ codes "] sid "
    ++ show_ℕ (col + 1)
    ++ codes "/"
    ++ show_ℤ ncols
    ++ codes " "

abbrev pub ok_text : Bool → Bool → Text
ok_text check ok = if check then (if ok then codes " OK" else codes " NG") else []

module _ (D : Double) where
  abbrev pub whole_text : D.W → Text
  whole_text x = show_ℤ (D.to_int x)

  module _ (sw : Switches) (t : ColumnTimes D.W) (totals : Totals) where
    abbrev wed : D.W
    wed = averaged D sw.do_encode t.wed_sum sw.repeat

    abbrev wdd : D.W
    wdd = averaged D sw.do_decode t.wdd_sum sw.repeat

    abbrev cs_bytes : D.W
    cs_bytes = averaged D sw.do_encode (D.of_ℤ (pos totals.cs_bytes_sum)) sw.repeat

    abbrev ss_bytes : D.W
    ss_bytes = D.of_ℤ (pos totals.ss_bytes)

    -- After a column.
    abbrev pub column_text : Text
    column_text =
        codes "raster="
        ++ whole_text t.wrd
        ++ codes "ms size="
        ++ D.fixed 2 (giga D ss_bytes)
        ++ codes "GB"
        ++ codes " enc="
        ++ whole_text wed
        ++ codes "ms("
        ++ whole_text (throughput D (giga D ss_bytes) wed)
        ++ codes "Gbps)"
        ++ codes " dec="
        ++ whole_text wdd
        ++ codes "ms("
        ++ whole_text (throughput D (giga D ss_bytes) wdd)
        ++ codes "Gbps)"
        ++ codes " total="
        ++ whole_text (D.add (D.add t.wrd wed) wdd)
        ++ codes "ms"
        ++ codes " cr="
        ++ D.fixed 1 (where_positive D cs_bytes (D.div ss_bytes cs_bytes))
        ++ codes ":1"
        ++ ok_text sw.do_check totals.all_ok
        ++ codes "\n"

  module _ (cfg : BenchConfig D.W) where
    -- The head of the summary of a file.
    abbrev pub summary_head : (raster_ms ss_gb : D.W) → Text
    summary_head raster_ms ss_gb =
        codes "  ----------------------------------------------------------------\n"
        ++ codes "  raster(first fmt,wall)="
        ++ D.fixed 0 raster_ms
        ++ codes "ms"
        ++ codes " ss="
        ++ D.fixed 2 ss_gb
        ++ codes "GB"
        ++ codes " cache=["
        ++ show_ℤ (max_ℤ (pos 1) cfg.cache_blocks_min)
        ++ codes ","
        ++ show_ℤ (threads cfg).cache_blocks
        ++ codes "]"
        ++ codes " check="
        ++ on_off (switches_of cfg).do_check
        ++ codes "\n"

    abbrev pub summary_line : Encoder → FmtAcc D.W → Text
    summary_line enc acc =
        codes "  "
        ++ left 7 (codes (get_format_name enc))
        ++ codes " raster="
        ++ D.fixed 0 acc.raster_wall
        ++ codes "ms"
        ++ codes " enc(wall)="
        ++ D.fixed 0 acc.enc_wall
        ++ codes "ms"
        ++ codes " dec(wall)="
        ++ D.fixed 0 acc.dec_wall
        ++ codes "ms"
        ++ codes " ss="
        ++ D.fixed 2 (giga D acc.ss)
        ++ codes "GB"
        ++ codes " cs="
        ++ D.fixed 2 (D.div acc.cs (D.literal 1000000 0))
        ++ codes "MB"
        ++ codes " cr="
        ++ D.fixed 1 (where_positive D acc.cs (D.div acc.ss acc.cs))
        ++ codes ":1"
        ++ codes " set="
        ++ D.fixed 2 (throughput D (giga D acc.ss) acc.enc_wall)
        ++ codes "Gbps"
        ++ codes " sdt="
        ++ D.fixed 2 (throughput D (giga D acc.ss) acc.dec_wall)
        ++ codes "Gbps"
        ++ ok_text (switches_of cfg).do_check acc.ok
        ++ codes "\n"

    abbrev pub add_line : Option Encoder → FmtAcc D.W → Text → Text
    add_line none acc rest = rest
    add_line (some enc) acc rest = summary_line enc acc ++ rest

    abbrev pub summary_lines : List ℤ → List (FmtAcc D.W) → Text
    summary_lines [] accs = []
    summary_lines (fmt ∷ fmts) [] = []
    summary_lines (fmt ∷ fmts) (acc ∷ accs) =
        add_line (get_encoder initialize_default_processors fmt) acc (summary_lines fmts accs)
