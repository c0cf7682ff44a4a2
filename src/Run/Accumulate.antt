-- ===== src/Run/Accumulate.antt =====
-- The sums over the columns of a format, and its result.
use encoder_rle4k_cpu.Base.{
  ℕ, Bool, true, false, not, ◌&&◌, List, [], ◌∷◌, Option, none, some, if◌then◌else◌,
}
use encoder_rle4k_cpu.Base.Int.{ℤ, pos, max_ℤ, pos_part}
use encoder_rle4k_cpu.Text.{codes}
use encoder_rle4k_cpu.Double.{Double, nought}
use encoder_rle4k_cpu.Bitmap.{EncodeFormatArgs}
use encoder_rle4k_cpu.Encoder.{Encoder, get_format_name}
use encoder_rle4k_cpu.Factory.{get_encoder, initialize_default_processors}
use encoder_rle4k_cpu.Column.{Switches, Totals}
use encoder_rle4k_cpu.Config.{BenchConfig}
use encoder_rle4k_cpu.Report.{FmtResult, is_on}
use encoder_rle4k_cpu.Run.Times.{ColumnTimes}

-- `fmt_acc`
pub record FmtAcc (W : Type 0) : Type 0 where
  pub raster_wall : W
  pub enc_wall : W
  pub dec_wall : W
  pub check_wall : W
  pub enc_cpu : W
  pub dec_cpu : W
  pub cs : W
  pub ss : W
  pub ok : Bool

-- `repeat`, `do_encode`, `do_decode` and `do_check`
unfoldable pub switches_of : {W : Type 0} → BenchConfig W → Switches
unfolding max_ℤ
switches_of cfg = record {
  repeat = pos_part (max_ℤ (pos 1) cfg.repeat);
  do_encode = is_on cfg.encode_enabled;
  do_decode = is_on cfg.encode_enabled && is_on cfg.decode_enabled;
  do_check = is_on cfg.check_enabled;
}

abbrev pub args_of : {W : Type 0} → BenchConfig W → EncodeFormatArgs
args_of cfg = record {
  gzip_level = cfg.gzip_level;
  zstd_level = cfg.zstd_level;
  lzo2_level = cfg.lzo2_level;
  snappy_level = cfg.snappy_level;
  brotli_level = cfg.brotli_level;
  brotli_window = cfg.brotli_window;
}

module _ (D : Double) where
  abbrev pub new_acc : FmtAcc D.W
  new_acc = record {
    raster_wall = nought D;
    enc_wall = nought D;
    dec_wall = nought D;
    check_wall = nought D;
    enc_cpu = nought D;
    dec_cpu = nought D;
    cs = nought D;
    ss = nought D;
    ok = true;
  }

  -- A sum over the repetitions, averaged, or 0 where the phase is off.
  abbrev pub averaged : Bool → D.W → ℕ → D.W
  averaged on sum repeat = if on then D.div sum (D.of_ℤ (pos repeat)) else nought D

  -- A column's sums and times go into those of its format.
  unfoldable pub add_column : Switches → ColumnTimes D.W → Totals → FmtAcc D.W → FmtAcc D.W
  add_column sw t totals acc = record {
    raster_wall = D.add acc.raster_wall t.wrd;
    enc_wall = D.add acc.enc_wall (averaged sw.do_encode t.wed_sum sw.repeat);
    dec_wall = D.add acc.dec_wall (averaged sw.do_decode t.wdd_sum sw.repeat);
    check_wall = D.add acc.check_wall (averaged sw.do_decode t.wchk_sum sw.repeat);
    enc_cpu = D.add acc.enc_cpu (averaged sw.do_encode t.enc_cpu_sum sw.repeat);
    dec_cpu = D.add acc.dec_cpu (averaged sw.do_decode t.dec_cpu_sum sw.repeat);
    cs = D.add acc.cs (averaged sw.do_encode (D.of_ℤ (pos totals.cs_bytes_sum)) sw.repeat);
    ss = D.add acc.ss (D.of_ℤ (pos totals.ss_bytes));
    ok = if sw.do_decode && sw.do_check && not totals.all_ok then false else acc.ok;
  }

module _ (D : Double) where
  -- `b > 0 ? a : 0`
  abbrev pub where_positive : D.W → D.W → D.W
  where_positive b a = if D.less (nought D) b then a else nought D

  abbrev pub giga : D.W → D.W
  giga bytes = D.div bytes (D.literal 1000000000 0)

  -- `gb * 8e3 / ms`
  abbrev pub throughput : D.W → D.W → D.W
  throughput gb ms = where_positive ms (D.div (D.mul gb (D.literal 8000 0)) ms)

  unfoldable pub fmt_result : Encoder → FmtAcc D.W → FmtResult D.W
  unfolding get_format_name
  fmt_result enc acc = record {
    name = codes (get_format_name enc);
    ss_gb = giga acc.ss;
    cs_mb = D.div acc.cs (D.literal 1000000 0);
    cr = where_positive acc.cs (D.div acc.ss acc.cs);
    sed_ms = acc.enc_wall;
    set_gbps = throughput (giga acc.ss) acc.enc_wall;
    sdd_ms = acc.dec_wall;
    sdt_gbps = throughput (giga acc.ss) acc.dec_wall;
    sch_ms = acc.check_wall;
    ok = acc.ok;
  }

  abbrev pub add_result : Option Encoder → FmtAcc D.W → List (FmtResult D.W) → List (FmtResult D.W)
  add_result none acc rest = rest
  add_result (some enc) acc rest = fmt_result enc acc ∷ rest

  -- The second loop over the formats.
  unfoldable pub fmt_results : List ℤ → List (FmtAcc D.W) → List (FmtResult D.W)
  unfolding get_encoder
  fmt_results [] accs = []
  fmt_results (fmt ∷ fmts) [] = []
  fmt_results (fmt ∷ fmts) (acc ∷ accs) =
      add_result (get_encoder initialize_default_processors fmt) acc (fmt_results fmts accs)
