-- ===== src/Config/Load.antt =====
-- `load_config` of redcli/rle4k_config.h on the text of the file. The fields are read in the order of
-- the source; a reader that has no result ends the load.
use encoder_rle4k_cpu.Base.{List, [], ◌∷◌, Option, some, ◌>>=◌}
use encoder_rle4k_cpu.Base.Int.{ℤ, pos}
use encoder_rle4k_cpu.Text.{Text, codes}
use encoder_rle4k_cpu.Double.{Double}
use encoder_rle4k_cpu.Json.{json_get_str, json_get_int, json_get_double, json_get_int_array}
use encoder_rle4k_cpu.Config.{BenchConfig}

-- `if (!fmts.empty()) cfg.formats = fmts;`
abbrev pub formats_or : List ℤ → List ℤ → List ℤ
formats_or [] old = old
formats_or (f ∷ fs) old = f ∷ fs

-- `if (cfg.verbose.empty()) cfg.verbose = "file";`
abbrev pub verbose_or : Text → Text
verbose_or [] = codes "file"
verbose_or (c ∷ s) = c ∷ s

unfoldable pub read_config : (D : Double) → Text → BenchConfig D.W → Option (BenchConfig D.W)
read_config D json cfg = do
  input_path ← json_get_str json (codes "input")
  output_path ← json_get_str json (codes "output_path")
  mode ← json_get_int json (codes "mode") (pos 0)
  repeat ← json_get_int json (codes "repeat") (pos 0)
  pitch_width_um ← json_get_double D.atof json (codes "pitch_width_um") (D.literal 0 1)
  oblique_factor ← json_get_int json (codes "oblique_factor") (pos 0)
  raster_threads ← json_get_int json (codes "raster_threads") (pos 0)
  encode_threads ← json_get_int json (codes "encode_threads") (pos 0)
  decode_threads ← json_get_int json (codes "decode_threads") (pos 0)
  encode_enabled ← json_get_int json (codes "encode_enabled") (pos 1)
  decode_enabled ← json_get_int json (codes "decode_enabled") (pos 1)
  block_line ← json_get_int json (codes "block_line") (pos 0)
  strip_width ← json_get_int json (codes "strip_width") (pos 0)
  align_mode ← json_get_int json (codes "align_mode") (pos 0)
  dmd_resolution_rows ← json_get_int json (codes "dmd_resolution_rows") (pos 0)
  dmd_resolution_cols ← json_get_int json (codes "dmd_resolution_cols") (pos 0)
  fmts ← json_get_int_array json (codes "formats")
  gzip_level ← json_get_int json (codes "gzip_level") (pos 0)
  zstd_level ← json_get_int json (codes "zstd_level") (pos 0)
  lzo2_level ← json_get_int json (codes "lzo2_level") (pos 0)
  snappy_level ← json_get_int json (codes "snappy_level") (pos 0)
  brotli_level ← json_get_int json (codes "brotli_level") (pos 0)
  brotli_window ← json_get_int json (codes "brotli_window") (pos 0)
  check_enabled ← json_get_int json (codes "check_enabled") (pos 0)
  cache_blocks_min ← json_get_int json (codes "cache_blocks_min") (pos 32)
  cache_blocks_max ← json_get_int json (codes "cache_blocks_max") (pos 128)
  verbose ← json_get_str json (codes "verbose")
  some (record {
    input_path = input_path;
    output_path = output_path;
    mode = mode;
    repeat = repeat;
    pitch_width_um = pitch_width_um;
    oblique_factor = oblique_factor;
    raster_threads = raster_threads;
    encode_threads = encode_threads;
    decode_threads = decode_threads;
    encode_enabled = encode_enabled;
    decode_enabled = decode_enabled;
    block_line = block_line;
    strip_width = strip_width;
    align_mode = align_mode;
    dmd_resolution_rows = dmd_resolution_rows;
    dmd_resolution_cols = dmd_resolution_cols;
    formats = formats_or fmts cfg.formats;
    verbose = verbose_or verbose;
    gzip_level = gzip_level;
    zstd_level = zstd_level;
    lzo2_level = lzo2_level;
    snappy_level = snappy_level;
    brotli_level = brotli_level;
    brotli_window = brotli_window;
    check_enabled = check_enabled;
    cache_blocks_min = cache_blocks_min;
    cache_blocks_max = cache_blocks_max;
  })
