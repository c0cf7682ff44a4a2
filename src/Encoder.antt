-- ===== src/Encoder.antt =====
-- The six encoders of redcli/rle4k_format_encoder.h and .cpp: what each answers for itself, how each
-- packs a bitmap, and the frame `process_pack` around them.
pub mod Outcome
pub mod RoundTrip
pub mod Recovery
pub mod Levels
use Prim.Native.String.{String}
use encoder_rle4k_cpu.Base.{
  ℕ, ◌+◌, ◌*◌, ◌^◌, ◌%◌, Bool, true, false, List, [], ◌∷◌, Option, none, some, not, if◌then◌else◌,
}
use encoder_rle4k_cpu.Base.Int.{ℤ, pos, negsuc, ◌+ℤ◌, ◌*ℤ◌, ltb_ℤ, eq_ℤ, pos_part}
use encoder_rle4k_cpu.Bitmap.{
  Bitmap, EncodeFormatArgs, Result, ok, throw, ◌>>=◌, ◌>>◌, get_buffer_size, validate_bitmap,
  to_u32, to_int, invalid_bitmap_source,
}
use encoder_rle4k_cpu.Libraries.{Libraries, Written, Answer}
use encoder_rle4k_cpu.Format.{
  raster_output_format_rle4k, raster_output_format_gzip, raster_output_format_lzo2,
  raster_output_format_snappy, raster_output_format_zstd, raster_output_format_brotli,
}

-- The subclasses of `format_encoder`. They have no fields, so `clone` is the identity.
pub data Encoder : Type 0 where
  rle4k gzip lzo2 snappy zstd brotli : Encoder

unfoldable pub get_supported_format : Encoder → ℤ
get_supported_format rle4k = raster_output_format_rle4k
get_supported_format gzip = raster_output_format_gzip
get_supported_format lzo2 = raster_output_format_lzo2
get_supported_format snappy = raster_output_format_snappy
get_supported_format zstd = raster_output_format_zstd
get_supported_format brotli = raster_output_format_brotli

unfoldable pub get_format_name : Encoder → String
get_format_name rle4k = "RLE4K"
get_format_name gzip = "GZIP"
get_format_name lzo2 = "LZO2"
get_format_name snappy = "SNAPPY"
get_format_name zstd = "ZSTD"
get_format_name brotli = "BROTLI"

unfoldable pub get_file_extension : Encoder → String
get_file_extension rle4k = ".rle4k"
get_file_extension gzip = ".gzip"
get_file_extension lzo2 = ".lzo2"
get_file_extension snappy = ".snappy"
get_file_extension zstd = ".zstd"
get_file_extension brotli = ".brotli"

unfoldable pub get_supported_formats : Encoder → List ℤ
unfolding get_supported_format
get_supported_formats e = get_supported_format e ∷ []

abbrev pub rle4k_error_target_too_small : ℤ
rle4k_error_target_too_small = negsuc 99

-- `if (level < lo) level = lo; if (level > hi) level = hi;`
unfoldable pub clamp_level : ℤ → ℤ → ℤ → ℤ
clamp_level lo hi level =
    let raised = if ltb_ℤ level lo then lo else level in if ltb_ℤ hi raised then hi else raised

module _ (lib : Libraries) where
  -- The bitmap after a call that wrote to its buffer and to its `data_length`.
  abbrev filled : Bitmap → Written → Bitmap
  filled dst w = record dst { bytes = w.buffer; data_length = to_u32 w.length }

  -- The bitmap after a call that failed: the buffer may have changed.
  abbrev spoiled : Bitmap → Written → Bitmap
  spoiled dst w = record dst { bytes = w.buffer }

  -- `(int)dst->format * (-1000) + rc`
  unfoldable pub failure : Bitmap → ℤ → ℤ
  unfolding ◌+ℤ◌ ◌*ℤ◌
  failure dst rc = dst.format *ℤ negsuc 999 +ℤ rc

  -- After a codec's call: its length and the filled bitmap, or its error as a failure.
  unfoldable pub report : Bool → Bitmap → Written → ℤ → ℤ × Bitmap
  unfolding to_int
  report success dst w error =
      if success then (to_int w.length, filled dst w) else (failure dst error, spoiled dst w)

  -- The call of librle4k, with the buffer that `dst` has then.
  unfoldable pub encode_block : Bitmap → Bitmap → Answer
  encode_block src dst =
      lib.rle4k_encode_block src.bytes src.height src.width dst.bytes src.stride_bytes
        (get_buffer_size dst)

  -- After the last attempt: a negative length is returned, another is recorded.
  unfoldable pub rle4k_finish : Bitmap → Answer → ℤ × Bitmap
  rle4k_finish dst a =
      let written : Bitmap = record dst { bytes = a.buffer } in
      if ltb_ℤ a.code (pos 0)
      then (a.code, written)
      else (a.code, record written { data_length = to_u32 (pos_part a.code) })

  unfoldable pub rle4k_pack : Bitmap → Bitmap → ℤ × Bitmap
  rle4k_pack src dst0 =
      let dst : Bitmap = record dst0 { data_length = 0 } in
      let first = encode_block src dst in
      let larger : Bitmap = lib.resize (record dst { bytes = first.buffer }) in
      if eq_ℤ first.code rle4k_error_target_too_small
      then rle4k_finish larger (encode_block src larger)
      else rle4k_finish dst first

  unfoldable pub gzip_pack : Bitmap → Bitmap → EncodeFormatArgs → ℤ × Bitmap
  unfolding report
  gzip_pack src dst args =
      let level = clamp_level (pos 1) (pos 9) args.gzip_level in
      let w = lib.compress2 dst.bytes (get_buffer_size dst) src.bytes src.data_length level in
      report (eq_ℤ w.code (pos 0)) dst w w.code

  unfoldable pub lzo2_pack : Bitmap → Bitmap → EncodeFormatArgs → ℤ × Bitmap
  unfolding report
  lzo2_pack src dst args =
      let level = clamp_level (pos 1) (pos 999) args.lzo2_level in
      let size = get_buffer_size dst in
      let w =
        if eq_ℤ level (pos 1)
        then lib.lzo1x_1_compress src.bytes src.data_length dst.bytes size
        else lib.lzo1x_999_compress_level src.bytes src.data_length dst.bytes size level in
      report (eq_ℤ w.code (pos 0)) dst w w.code

  unfoldable pub snappy_pack : Bitmap → Bitmap → ℤ × Bitmap
  unfolding to_int
  snappy_pack src dst =
      let w = lib.raw_compress src.bytes src.data_length dst.bytes in
      (to_int w.length, filled dst w)

  unfoldable pub zstd_pack : Bitmap → Bitmap → EncodeFormatArgs → ℤ × Bitmap
  unfolding report
  zstd_pack src dst args =
      let level = clamp_level (pos 1) (pos 22) args.zstd_level in
      let w = lib.zstd_compress dst.bytes (get_buffer_size dst) src.bytes src.data_length level in
      report (not (lib.zstd_is_error w.length)) dst w (lib.zstd_get_error_code w.length)

  unfoldable pub brotli_pack : Bitmap → Bitmap → EncodeFormatArgs → ℤ × Bitmap
  unfolding report
  brotli_pack src dst args =
      let level = clamp_level (pos 0) (pos 11) args.brotli_level in
      let window = clamp_level (pos 10) (pos 24) args.brotli_window in
      let w =
        lib.brotli_encoder_compress level window src.data_length src.bytes (get_buffer_size dst)
          dst.bytes in
      report (eq_ℤ w.code (pos 1)) dst w (negsuc 0)

  -- The virtual call.
  unfoldable pub internal_pack : Encoder → Bitmap → Bitmap → EncodeFormatArgs → ℤ × Bitmap
  internal_pack rle4k src dst args = rle4k_pack src dst
  internal_pack gzip src dst args = gzip_pack src dst args
  internal_pack lzo2 src dst args = lzo2_pack src dst args
  internal_pack snappy src dst args = snappy_pack src dst
  internal_pack zstd src dst args = zstd_pack src dst args
  internal_pack brotli src dst args = brotli_pack src dst args

  -- After `internal_pack`: a negative result is thrown, another leaves a finished target.
  unfoldable pub pack_result : Bitmap → ℤ × Bitmap → Result Bitmap
  pack_result source (result, target) =
      if ltb_ℤ result (pos 0)
      then throw result
      else ok (
          lib.shrink_to_fit (record target {
            source_length = source.data_length;
            compression_ratio = lib.compression_ratio target.data_length source.data_length;
          }))

  -- Alignment 3 is ALIGN064.
  unfoldable pub pack_valid : Encoder → Bitmap → EncodeFormatArgs → Result Bitmap
  pack_valid e source args = pack_result source (
      internal_pack e source (lib.new_bitmap (get_supported_format e) source.width 3 source.height)
        args)

  -- `validate_bitmap` throws at null, so nothing is dereferenced there.
  unfoldable pub process_pack : Encoder → Option Bitmap → EncodeFormatArgs → Result Bitmap
  process_pack e none args = validate_bitmap none >> throw invalid_bitmap_source
  process_pack e (some source) args = do validate_bitmap (some source); pack_valid e source args
