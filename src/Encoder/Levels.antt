-- ===== src/Encoder/Levels.antt =====
-- The codec levels of redcli/rle4k_format_encoder.cpp and their ranges.
use encoder_rle4k_cpu.Base.{ℕ, ◌≤◌, ◌≡◌, refl, Option, none, some, false, arith}
use encoder_rle4k_cpu.Base.Int.{ℤ, pos, negsuc, ◌≤ℤ◌, eq_ℤ, ◌+ℤ◌, ◌*ℤ◌}
use encoder_rle4k_cpu.Bitmap.{
  Bytes, Bitmap, EncodeFormatArgs, ok, throw, get_buffer_size, validate_bitmap,
}
use encoder_rle4k_cpu.Libraries.{Libraries}
use encoder_rle4k_cpu.Libraries.Laws.{Documented}
use encoder_rle4k_cpu.Encoder.Outcome.{fresh}
use encoder_rle4k_cpu.Encoder.{
  Encoder, rle4k, gzip, lzo2, snappy, zstd, brotli, get_supported_format, clamp_level, report,
  failure, pack_result, gzip_pack, lzo2_pack, zstd_pack, brotli_pack, internal_pack, pack_valid,
  process_pack,
}

clamp_level-bounds :
    (lo hi level : ℤ) → lo ≤ℤ hi → (lo ≤ℤ clamp_level lo hi level) × (clamp_level lo hi level ≤ℤ hi)
unfolding clamp_level
clamp_level-bounds lo hi level le = (ground arith, ground arith)

clamp_level-clamp_level :
    (lo hi level : ℤ)
    → lo ≤ℤ hi
    → clamp_level lo hi (clamp_level lo hi level) ≡ clamp_level lo hi level
unfolding clamp_level
clamp_level-clamp_level lo hi level le = ground arith

-- The levels that zlib, Zstandard and Brotli are documented to take.
pub record InRange (args : EncodeFormatArgs) : Type 0 where
  pub gzip_range : (pos 1 ≤ℤ args.gzip_level) × (args.gzip_level ≤ℤ pos 9)
  pub zstd_range : (pos 1 ≤ℤ args.zstd_level) × (args.zstd_level ≤ℤ pos 22)
  pub brotli_range : (pos 0 ≤ℤ args.brotli_level) × (args.brotli_level ≤ℤ pos 11)
  pub window_range : (pos 10 ≤ℤ args.brotli_window) × (args.brotli_window ≤ℤ pos 24)

abbrev clamped : EncodeFormatArgs → EncodeFormatArgs
clamped args = record {
  gzip_level = clamp_level (pos 1) (pos 9) args.gzip_level;
  zstd_level = clamp_level (pos 1) (pos 22) args.zstd_level;
  lzo2_level = clamp_level (pos 1) (pos 999) args.lzo2_level;
  snappy_level = args.snappy_level;
  brotli_level = clamp_level (pos 0) (pos 11) args.brotli_level;
  brotli_window = clamp_level (pos 10) (pos 24) args.brotli_window;
}

module _ (lib : Libraries) where
  internal_pack-clamped :
      (e : Encoder) (src dst : Bitmap) (args : EncodeFormatArgs)
      → internal_pack lib e src dst args ≡ internal_pack lib e src dst (clamped args)
  unfolding internal_pack gzip_pack lzo2_pack zstd_pack brotli_pack
  internal_pack-clamped rle4k src dst args = refl
  internal_pack-clamped gzip src dst args =
      rw (clamp_level-clamp_level (pos 1) (pos 9) args.gzip_level (omega arith)) refl
  internal_pack-clamped lzo2 src dst args =
      rw (clamp_level-clamp_level (pos 1) (pos 999) args.lzo2_level (omega arith)) refl
  internal_pack-clamped snappy src dst args = refl
  internal_pack-clamped zstd src dst args =
      rw (clamp_level-clamp_level (pos 1) (pos 22) args.zstd_level (omega arith)) refl
  internal_pack-clamped brotli src dst args =
      rw
        (
          clamp_level-clamp_level (pos 0) (pos 11) args.brotli_level (omega arith),
          clamp_level-clamp_level (pos 10) (pos 24) args.brotli_window (omega arith),
        )
        refl

  -- Whatever the levels are, `process_pack` does what it does with some levels within the ranges of
  -- zlib, Zstandard and Brotli, the same for every encoder and bitmap.
  pub process_pack-InRange :
      (args : EncodeFormatArgs)
      → (args' : EncodeFormatArgs) × InRange args'
        × ((e : Encoder) (source : Option Bitmap)
            → process_pack lib e source args ≡ process_pack lib e source args')
  unfolding process_pack pack_valid
  process_pack-InRange args = (
    clamped args,
    record {
      gzip_range = clamp_level-bounds (pos 1) (pos 9) args.gzip_level (omega arith);
      zstd_range = clamp_level-bounds (pos 1) (pos 22) args.zstd_level (omega arith);
      brotli_range = clamp_level-bounds (pos 0) (pos 11) args.brotli_level (omega arith);
      window_range = clamp_level-bounds (pos 10) (pos 24) args.brotli_window (omega arith);
    },
    same,
  )
    where
      same :
          (e : Encoder) (source : Option Bitmap)
          → process_pack lib e source args ≡ process_pack lib e source (clamped args)
      same e none = refl
      same e (some b) = rw (internal_pack-clamped e b _ args) refl

-- `lzo1x_999_compress_level` returns LZO_E_ERROR at a level that is not one of 1 to 9.
abbrev pub RefusesLevels : Libraries → Type 0
RefusesLevels lib =
    (src : Bytes) (src_len : ℕ) (dst : Bytes) (dst_len : ℕ) (level : ℤ)
    → pos 10 ≤ℤ level
    → (lib.lzo1x_999_compress_level src src_len dst dst_len level).code ≡ negsuc 0

module _ (lib : Libraries) (b : Bitmap) (args : EncodeFormatArgs) (n : ℕ)
    (level : args.lzo2_level ≡ pos n) (high : 10 ≤ n) (refuses : RefusesLevels lib) where
  clamped_high : pos 10 ≤ℤ clamp_level (pos 1) (pos 999) args.lzo2_level
  unfolding clamp_level
  clamped_high = rw level (ground arith)

  failure-lzo2 : (dst : Bitmap) → dst.format ≡ pos 0xB → failure lib dst (negsuc 0) ≡ negsuc 11000
  unfolding failure ◌+ℤ◌ ◌*ℤ◌
  failure-lzo2 dst fmt = rw fmt refl

  lzo2_pack_refused :
      (dst : Bitmap) → dst.format ≡ pos 0xB → (lzo2_pack lib b dst args).0 ≡ negsuc 11000
  unfolding lzo2_pack report
  lzo2_pack_refused dst fmt =
      let l = clamp_level (pos 1) (pos 999) args.lzo2_level in
      let size = get_buffer_size dst in
      let slow : eq_ℤ l (pos 1) ≡ false = ground (arith, clamped_high) in
      let refused = refuses b.bytes b.data_length dst.bytes size l clamped_high in
      rw (slow, refused) (failure-lzo2 dst fmt)

  -- At a level of 10 or more, which the clamp to 999 lets through, the LZO2 encoder throws -11001 at
  -- every valid bitmap: where a new bitmap has the format of its settings and the compressor refuses the
  -- levels above 9.
  pub process_pack-RefusesLevels :
      Documented lib
      → validate_bitmap (some b) ≡ ok tt
      → process_pack lib lzo2 (some b) args ≡ throw (negsuc 11000)
  unfolding process_pack pack_valid pack_result internal_pack get_supported_format
  process_pack-RefusesLevels doc valid =
      rw (valid, lzo2_pack_refused (fresh lib lzo2 b args) (doc.new_format _ _ _ _)) refl
