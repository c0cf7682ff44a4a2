-- ===== src/Libraries.antt =====
-- What redcli calls and does not implement: libraster, librle4k, zlib, LZO, Snappy, Zstandard and
-- Brotli, and the two roundings through `double` that it makes of sizes. Only their signatures are
-- assumed here; a theorem that needs more of them states it as a hypothesis.
pub mod Laws
use encoder_rle4k_cpu.Base.{ℕ, Bool}
use encoder_rle4k_cpu.Base.Int.{ℤ}
use encoder_rle4k_cpu.Bitmap.{Bytes, Bitmap}

-- A C call that writes to a buffer: its return code, the length it reports, the buffer after it.
pub record Written : Type 0 where
  pub code : ℤ
  pub length : ℕ
  pub buffer : Bytes

-- A call without a length of its own.
pub record Answer : Type 0 where
  pub code : ℤ
  pub buffer : Bytes

-- A call that answers by `bool`.
pub record Verdict : Type 0 where
  pub done : Bool
  pub buffer : Bytes

pub record Libraries : Type 0 where
  -- libraster
  pub new_bitmap : (format : ℤ) (width align_mode block_height : ℕ) → Bitmap
  pub resize : Bitmap → Bitmap
  pub shrink_to_fit : Bitmap → Bitmap
  -- librle4k
  pub rle4k_encode_block :
      (block : Bytes) (height width : ℕ) (encoded : Bytes) (stride target_length : ℕ) → Answer
  pub rle4k_decode_block :
      (encoded : Bytes) (inlen : ℕ) (block : Bytes) (width height stride : ℕ) → Answer
  -- zlib; its `uLong` is the platform's `unsigned long`, of 64 or of 32 bits
  pub wide_ulong : Bool
  pub compress2 :
      (dest : Bytes) (dest_len : ℕ) (source : Bytes) (source_len : ℕ) (level : ℤ) → Written
  pub uncompress : (dest : Bytes) (dest_len : ℕ) (source : Bytes) (source_len : ℕ) → Written
  -- LZO
  pub lzo1x_1_compress : (src : Bytes) (src_len : ℕ) (dst : Bytes) (dst_len : ℕ) → Written
  pub lzo1x_999_compress_level :
      (src : Bytes) (src_len : ℕ) (dst : Bytes) (dst_len : ℕ) (level : ℤ) → Written
  pub lzo1x_decompress : (src : Bytes) (src_len : ℕ) (dst : Bytes) (dst_len : ℕ) → Written
  -- Snappy; its compressor takes the capacity for an output only, and wants a buffer of the length
  -- that `MaxCompressedLength` gives
  pub max_compressed_length : (source_bytes : ℕ) → ℕ
  pub raw_compress : (input : Bytes) (input_length : ℕ) (compressed : Bytes) → Written
  pub raw_uncompress : (compressed : Bytes) (compressed_length : ℕ) (uncompressed : Bytes) → Verdict
  -- Zstandard; the length is a size or an error
  pub zstd_compress :
      (dst : Bytes) (dst_capacity : ℕ) (src : Bytes) (src_size : ℕ) (level : ℤ) → Written
  pub zstd_decompress : (dst : Bytes) (dst_capacity : ℕ) (src : Bytes) (src_size : ℕ) → Written
  pub zstd_is_error : ℕ → Bool
  pub zstd_get_error_code : ℕ → ℤ
  -- Brotli
  pub brotli_encoder_compress :
      (quality window : ℤ) (input_size : ℕ) (input : Bytes) (encoded_size : ℕ) (encoded : Bytes)
      → Written
  -- `(uint16_t)((1.0 - (double)target / (double)source) * 10000)`
  pub compression_ratio : (target_length source_length : ℕ) → ℕ
