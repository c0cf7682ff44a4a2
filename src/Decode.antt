-- ===== src/Decode.antt =====
-- Decoding one block (`rle4k_decode_payload` of redcli/main.cpp): the codec that the format names.
use encoder_rle4k_cpu.Base.{
  ℕ, ◌%◌, ◌^◌, true, false, not, ◌||◌, Option, none, some, ◌==◌, if◌then◌else◌,
}
use encoder_rle4k_cpu.Base.Int.{ℤ, pos, ltb_ℤ, eq_ℤ}
use encoder_rle4k_cpu.Bitmap.{Bytes, Bitmap, is_null}
use encoder_rle4k_cpu.Libraries.{Libraries, Verdict, Written, Answer}
use encoder_rle4k_cpu.Format.{
  raster_output_format_rle4k, raster_output_format_gzip, raster_output_format_lzo2,
  raster_output_format_snappy, raster_output_format_zstd, raster_output_format_brotli,
}

-- A return code of 0 is `Z_OK` and `LZO_E_OK`.
abbrev pub done_at_zero : Written → Verdict
done_at_zero w = record { done = eq_ℤ w.code (pos 0); buffer = w.buffer }

-- `drc >= 0`
abbrev pub done_unless_negative : Answer → Verdict
done_unless_negative a = record { done = not (ltb_ℤ a.code (pos 0)); buffer = a.buffer }

module _ (lib : Libraries) where
  -- `!ZSTD_isError(zstd_dl)`
  abbrev pub done_unless_error : Written → Verdict
  done_unless_error w = record { done = not (lib.zstd_is_error w.length); buffer = w.buffer }

  -- `(uLongf)n`
  unfoldable pub to_ulong : ℕ → ℕ
  to_ulong n = if lib.wide_ulong then n % 2 ^ 64 else n % 2 ^ 32

  -- The tests on `fmt`, in their order. Brotli passes without a call; an unknown format fails.
  unfoldable pub decode_as : ℤ → Bitmap → (width height stride : ℕ) → Bytes → ℕ → Verdict
  unfolding to_ulong
  decode_as fmt e width height stride dst dst_cap =
      if eq_ℤ fmt raster_output_format_rle4k
      then done_unless_negative
          (lib.rle4k_decode_block e.bytes e.data_length dst width height stride)
      else if eq_ℤ fmt raster_output_format_gzip
      then done_at_zero (lib.uncompress dst (to_ulong dst_cap) e.bytes e.data_length)
      else if eq_ℤ fmt raster_output_format_lzo2
      then done_at_zero (lib.lzo1x_decompress e.bytes e.data_length dst dst_cap)
      else if eq_ℤ fmt raster_output_format_snappy
      then lib.raw_uncompress e.bytes e.data_length dst
      else if eq_ℤ fmt raster_output_format_zstd
      then done_unless_error (lib.zstd_decompress dst dst_cap e.bytes e.data_length)
      else if eq_ℤ fmt raster_output_format_brotli
      then record { done = true; buffer = dst }
      else record { done = false; buffer = dst }

  unfoldable pub rle4k_decode_payload :
      ℤ → Option Bitmap → (width height stride : ℕ) → Bytes → ℕ → Verdict
  unfolding decode_as
  rle4k_decode_payload fmt none width height stride dst dst_cap = record {
    done = false;
    buffer = dst;
  }
  rle4k_decode_payload fmt (some e) width height stride dst dst_cap =
      if is_null dst || dst_cap == 0
      then record { done = false; buffer = dst }
      else decode_as fmt e width height stride dst dst_cap
