-- ===== src/Config/Builtin.antt =====
-- The text that `redcli init` writes, `rle4k_builtin_default_config_json` of redcli/rle4k_config.h.
use encoder_rle4k_cpu.Base.{List, [], ◌∷◌, ◌++◌}
use encoder_rle4k_cpu.Text.{Text, codes}
use Prim.Native.String

-- Each line with its line feed.
abbrev pub lines : List String.String → Text
lines [] = []
lines (l ∷ ls) = codes l ++ b'\n' ∷ lines ls

abbrev builtin_lines : List String.String
builtin_lines =
    "{" ∷ "    // ============================================================"
    ∷ "    //  redcli.json — built-in default (redcli init)"
    ∷ "    //  Field guide: docs/redcli.help.md  |  mirror: docs/redcli.example.json"
    ∷ "    //  Comments (//) are for humans; the minimal parser accepts them."
    ∷ "    // ============================================================" ∷ ""
    ∷ "    // Path to one .dif (mode 0) or a folder of *.dif (mode 1). Relative to CWD."
    ∷ "    \"input\": \"\"," ∷ ""
    ∷ "    // 0 = single file; 1 = non-recursive folder scan for *.dif" ∷ "    \"mode\": 0," ∷ ""
    ∷ "    // Conventional output dir (created if missing). CSV needs: --csv <file>"
    ∷ "    \"output_path\": \"build/out\"," ∷ ""
    ∷ "    // Encode/decode timing repeats (averaged). Higher = stabler, slower."
    ∷ "    \"repeat\": 3," ∷ ""
    ∷ "    // 0 = no check; 1 = FNV after raster + verify OUTSIDE decode wall timer"
    ∷ "    \"check_enabled\": 0," ∷ ""
    ∷ "    // Sliding row-block window: size = cache_blocks_max (max raised to min if needed)"
    ∷ "    \"cache_blocks_min\": 32," ∷ "    \"cache_blocks_max\": 128," ∷ ""
    ∷ "    // Pixel pitch in micrometres. pw_nm = pitch_width_um * 1000. Paper: 0.5"
    ∷ "    \"pitch_width_um\": 0.5," ∷ "" ∷ "    // Oblique N. When strip_width==0:"
    ∷ "    //   strip_width = ceil((cols*N + rows) / align_mode) * align_mode"
    ∷ "    // Defaults → 1920*32+512 = 61952 px. Paper: 32" ∷ "    \"oblique_factor\": 32," ∷ ""
    ∷ "    // Nominal DMD size for auto strip_width only (not DIF bounds)"
    ∷ "    \"dmd_resolution_rows\": 512," ∷ "    \"dmd_resolution_cols\": 1920," ∷ ""
    ∷ "    // Strip width px. 0 = auto (formula above). >0 = force" ∷ "    \"strip_width\": 0," ∷ ""
    ∷ "    // Rounding grain for auto strip_width. Paper: 512" ∷ "    \"align_mode\": 512," ∷ ""
    ∷ "    // Row-block height in pixel rows. Paper: 512" ∷ "    \"block_line\": 512," ∷ ""
    ∷ "    // Phase-1 raster workers (clamped 1..10). Env RLE4K_THREADS overrides if >0"
    ∷ "    \"raster_threads\": 4," ∷ ""
    ∷ "    // Phase-2 encode workers. 0 = same as raster_threads (clamped 1..10)"
    ∷ "    \"encode_threads\": 0," ∷ ""
    ∷ "    // Phase-3 decode workers. 0 = same as raster_threads (clamped 1..10)"
    ∷ "    \"decode_threads\": 0," ∷ ""
    ∷ "    // 1 = run phase; 0 = skip. encode_enabled=0 also skips decode"
    ∷ "    \"encode_enabled\": 1," ∷ "    \"decode_enabled\": 1," ∷ ""
    ∷ "    // 0=RLE4K 1=GZIP 2=LZO2 3=SNAPPY 4=ZSTD 5=BROTLI"
    ∷ "    \"formats\": [0, 1, 2, 3, 4, 5]," ∷ "" ∷ "    // zlib 1..9. Paper: 6"
    ∷ "    \"gzip_level\": 6," ∷ "    // Zstd 1..22. Paper: 3" ∷ "    \"zstd_level\": 3,"
    ∷ "    // 1=lzo1x_1; 2..999=lzo1x_999. Paper: 1" ∷ "    \"lzo2_level\": 1,"
    ∷ "    // Reserved (Snappy has no level)" ∷ "    \"snappy_level\": 0,"
    ∷ "    // Brotli quality 0..11. Paper: 6" ∷ "    \"brotli_level\": 6,"
    ∷ "    // Brotli window bits 10..24. Paper: 22" ∷ "    \"brotli_window\": 22," ∷ ""
    ∷ "    // \"file\" = per-file; \"strip\" = per-strip detail" ∷ "    \"verbose\": \"file\"" ∷ ""
    ∷ "}" ∷ []

unfoldable pub rle4k_builtin_default_config_json : Text
rle4k_builtin_default_config_json = lines builtin_lines
