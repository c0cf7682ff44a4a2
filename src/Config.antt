-- ===== src/Config.antt =====
-- `bench_config` of redcli/rle4k_config.h, with a type `W` for `double`.
pub mod Load
pub mod Builtin
pub mod Documented
use encoder_rle4k_cpu.Base.{List, []}
use encoder_rle4k_cpu.Base.Int.{ℤ, pos}
use encoder_rle4k_cpu.Text.{Text, codes}
use encoder_rle4k_cpu.Double.{Double}

pub record BenchConfig (W : Type 0) : Type 0 where
  pub input_path : Text
  pub output_path : Text
  pub mode : ℤ
  pub repeat : ℤ
  pub pitch_width_um : W
  pub oblique_factor : ℤ
  pub raster_threads : ℤ
  pub encode_threads : ℤ
  pub decode_threads : ℤ
  pub encode_enabled : ℤ
  pub decode_enabled : ℤ
  pub block_line : ℤ
  pub strip_width : ℤ
  pub align_mode : ℤ
  pub dmd_resolution_rows : ℤ
  pub dmd_resolution_cols : ℤ
  pub formats : List ℤ
  pub verbose : Text
  pub gzip_level : ℤ
  pub zstd_level : ℤ
  pub lzo2_level : ℤ
  pub snappy_level : ℤ
  pub brotli_level : ℤ
  pub brotli_window : ℤ
  pub check_enabled : ℤ
  pub cache_blocks_min : ℤ
  pub cache_blocks_max : ℤ

-- `bench_config cfg;`: the initial values of the fields.
abbrev pub default_config : (D : Double) → BenchConfig D.W
default_config D = record {
  input_path = [];
  output_path = [];
  mode = pos 0;
  repeat = pos 3;
  pitch_width_um = D.literal 5 1;
  oblique_factor = pos 32;
  raster_threads = pos 4;
  encode_threads = pos 0;
  decode_threads = pos 0;
  encode_enabled = pos 1;
  decode_enabled = pos 1;
  block_line = pos 512;
  strip_width = pos 0;
  align_mode = pos 512;
  dmd_resolution_rows = pos 512;
  dmd_resolution_cols = pos 1920;
  formats = [];
  verbose = codes "file";
  gzip_level = pos 6;
  zstd_level = pos 3;
  lzo2_level = pos 1;
  snappy_level = pos 0;
  brotli_level = pos 6;
  brotli_window = pos 22;
  check_enabled = pos 0;
  cache_blocks_min = pos 32;
  cache_blocks_max = pos 128;
}
