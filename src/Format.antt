-- ===== src/Format.antt =====
-- The formats: the config ids of redcli/rle4k_config.h and the codes of `raster_output_format`
-- (deps/libraster/1.0.0/include/bitmap_info.h).
use encoder_rle4k_cpu.Base.{List, [], ◌∷◌, none, some, get_elem?}
use encoder_rle4k_cpu.Base.Int.{ℤ, pos, negsuc}

abbrev pub raster_output_format_rle4k : ℤ
raster_output_format_rle4k = pos 0x4

abbrev pub raster_output_format_gzip : ℤ
raster_output_format_gzip = pos 0x7

abbrev pub raster_output_format_zstd : ℤ
raster_output_format_zstd = pos 0x8

abbrev pub raster_output_format_snappy : ℤ
raster_output_format_snappy = pos 0xA

abbrev pub raster_output_format_lzo2 : ℤ
raster_output_format_lzo2 = pos 0xB

abbrev pub raster_output_format_brotli : ℤ
raster_output_format_brotli = pos 0xF

abbrev pub format_lut : List ℤ
format_lut =
    pos 0x4  -- RLE4K
    ∷ pos 0x7  -- GZIP
    ∷ pos 0xB  -- LZO2
    ∷ pos 0xA  -- SNAPPY
    ∷ pos 0x8  -- ZSTD
    ∷ pos 0xF  -- Brotli
    ∷ []

-- The table's entry, or -1 outside it.
unfoldable pub map_format_id : ℤ → ℤ
map_format_id (pos id) = elim (get_elem? format_lut id) [ some f ↦ f | none ↦ negsuc 0 ]
map_format_id (negsuc _) = negsuc 0
