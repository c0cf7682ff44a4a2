-- ===== src/Report.antt =====
-- The results of a run and what redcli/main.cpp prints of them: `rle4k_fmt_result`,
-- `rle4k_file_record`, and the console report `rle4k_print_file_report`.
pub mod Csv
pub mod Commas
use encoder_rle4k_cpu.Base.{
  ℕ, ◌-◌, Bool, true, false, not, List, [], ◌∷◌, ◌++◌, length, replicate, if◌then◌else◌,
}
use encoder_rle4k_cpu.Base.Int.{ℤ, pos, ltb_ℤ, eq_ℤ}
use encoder_rle4k_cpu.Text.{Text, codes}
use encoder_rle4k_cpu.Text.Decimal.{show_ℤ}
use encoder_rle4k_cpu.Double.{Double}
use encoder_rle4k_cpu.Config.{BenchConfig}

pub record FmtResult (W : Type 0) : Type 0 where
  pub name : Text
  pub ss_gb : W
  pub cs_mb : W
  pub cr : W
  pub sed_ms : W
  pub set_gbps : W
  pub sdd_ms : W
  pub sdt_gbps : W
  pub sch_ms : W
  pub ok : Bool

pub record FileRecord (W : Type 0) : Type 0 where
  pub short_name : Text
  pub img_w : ℤ
  pub img_h : ℤ
  pub ncols : ℤ
  pub nrows : ℤ
  pub d_ms : W
  pub raster_ms : W
  pub total_ss_gb : W
  pub fmts : List (FmtResult W)

-- `std::setw(width)`, on the left and on the right.
abbrev pub left : ℕ → Text → Text
left width t = t ++ replicate (width - length t) b' '

abbrev pub right : ℕ → Text → Text
right width t = replicate (width - length t) b' ' ++ t

abbrev pub line_feed : Text
line_feed = b'\n' ∷ []

-- `if (cfg.check_enabled)`
abbrev pub is_on : ℤ → Bool
is_on n = not (eq_ℤ n (pos 0))

abbrev pub verdict_text : Bool → Text
verdict_text true = codes "OK"
verdict_text false = codes "FAIL"

-- `cfg.encode_threads > 0 ? cfg.encode_threads : cfg.raster_threads`
abbrev pub threads_or : ℤ → ℤ → ℤ
threads_or n raster = if ltb_ℤ (pos 0) n then n else raster

abbrev pub ruler : Text
ruler = codes "  ----------------------------------------------------------------------\n"

module _ (D : Double) where
  abbrev pub report_head : FileRecord D.W → BenchConfig D.W → Text
  report_head rec cfg =
      codes "\n########## Comparison Report: "
      ++ rec.short_name
      ++ codes " ##########\n"
      ++ codes "  file   : "
      ++ rec.short_name
      ++ line_feed
      ++ codes "  image  : "
      ++ show_ℤ rec.img_w
      ++ codes " x "
      ++ show_ℤ rec.img_h
      ++ codes " px  blocks: "
      ++ show_ℤ rec.ncols
      ++ codes " x "
      ++ show_ℤ rec.nrows
      ++ codes " ("
      ++ show_ℤ cfg.strip_width
      ++ codes " x "
      ++ show_ℤ cfg.block_line
      ++ codes ")\n"

  abbrev pub report_params : BenchConfig D.W → Text
  report_params cfg =
      codes "  params : pw="
      ++ D.fixed 3 cfg.pitch_width_um
      ++ codes "um"
      ++ codes "  N="
      ++ show_ℤ cfg.oblique_factor
      ++ codes "  repeat="
      ++ show_ℤ cfg.repeat
      ++ codes "  threads(rt/et/dt)="
      ++ show_ℤ cfg.raster_threads
      ++ codes "/"
      ++ show_ℤ (threads_or cfg.encode_threads cfg.raster_threads)
      ++ codes "/"
      ++ show_ℤ (threads_or cfg.decode_threads cfg.raster_threads)
      ++ codes "  cache=["
      ++ show_ℤ cfg.cache_blocks_min
      ++ codes ","
      ++ show_ℤ cfg.cache_blocks_max
      ++ codes "]"
      ++ codes "  action(enc/dec)="
      ++ (if is_on cfg.encode_enabled then codes "1" else codes "0")
      ++ codes "/"
      ++ (if is_on cfg.decode_enabled then codes "1" else codes "0")
      ++ codes "  check="
      ++ (if is_on cfg.check_enabled then codes "on" else codes "off")
      ++ line_feed

  abbrev pub report_source : FileRecord D.W → Text
  report_source rec =
      codes "  source : "
      ++ D.fixed 4 rec.total_ss_gb
      ++ codes " GB  (DIF load "
      ++ D.fixed 1 rec.d_ms
      ++ codes "ms"
      ++ codes ", raster "
      ++ D.fixed 1 rec.raster_ms
      ++ codes "ms wall, first format)\n"

  abbrev pub report_titles : Text
  report_titles =
      codes "  "
      ++ left 9 (codes "ALG")
      ++ right 10 (codes "CS(MB)")
      ++ right 9 (codes "CR")
      ++ right 11 (codes "Enc(ms)")
      ++ right 10 (codes "Set(Gb)")
      ++ right 11 (codes "Dec(ms)")
      ++ right 10 (codes "Sdt(Gb)")
      ++ codes "  CHK\n"

  abbrev pub report_row : BenchConfig D.W → FmtResult D.W → Text
  report_row cfg r =
      codes "  "
      ++ left 9 r.name
      ++ right 10 (D.fixed 3 r.cs_mb)
      ++ right 9 (D.fixed 2 r.cr)
      ++ right 11 (D.fixed 3 r.sed_ms)
      ++ right 10 (D.fixed 3 r.set_gbps)
      ++ right 11 (D.fixed 3 r.sdd_ms)
      ++ right 10 (D.fixed 3 r.sdt_gbps)
      ++ (if is_on cfg.check_enabled then codes "  " ++ verdict_text r.ok else [])
      ++ line_feed

  abbrev pub report_rows : BenchConfig D.W → List (FmtResult D.W) → Text
  report_rows cfg [] = []
  report_rows cfg (r ∷ rs) = report_row cfg r ++ report_rows cfg rs

  -- What `rle4k_print_file_report` writes to stdout.
  unfoldable pub rle4k_print_file_report : FileRecord D.W → BenchConfig D.W → Text
  rle4k_print_file_report rec cfg =
      report_head rec cfg
      ++ report_params cfg
      ++ report_source rec
      ++ ruler
      ++ report_titles
      ++ ruler
      ++ report_rows cfg rec.fmts
      ++ ruler
      ++ line_feed
