-- ===== src/Encoder/Outcome.antt =====
-- When `process_pack` of redcli/rle4k_format_encoder.cpp returns a bitmap, and what it throws otherwise.
use encoder_rle4k_cpu.Base.{ℕ, ◌≤◌, ◌≡◌, inl, inr, true, false, some, arith, Bool-cases}
use encoder_rle4k_cpu.Base.Int.{ℤ, pos, negsuc, ◌≤ℤ◌, ltb_ℤ}
use encoder_rle4k_cpu.Bitmap.{Bitmap, EncodeFormatArgs, ok, throw, then-eq-ok, validate_bitmap}
use encoder_rle4k_cpu.Libraries.{Libraries}
use encoder_rle4k_cpu.Encoder.{
  Encoder, get_supported_format, failure, internal_pack, pack_result, pack_valid, process_pack,
}

-- An error of a codec of format 4 or more comes out negative, so `process_pack` throws it.
pub failure_negative :
    (lib : Libraries) (dst : Bitmap) (rc : ℤ) (f : ℕ)
    → dst.format ≡ pos f
    → 4 ≤ f
    → rc ≤ℤ pos 999
    → ltb_ℤ (failure lib dst rc) (pos 0) ≡ true
unfolding failure
failure_negative lib dst (pos r) f e le h = rw e (ground arith)
failure_negative lib dst (negsuc r) f e le h = rw e (ground arith)

module _ (lib : Libraries) (enc : Encoder) (b : Bitmap) (args : EncodeFormatArgs) where
  -- The bitmap that `process_pack` makes and hands to the codec.
  abbrev pub fresh : Bitmap
  fresh = lib.new_bitmap (get_supported_format enc) b.width 3 b.height

  -- The finished target.
  abbrev pub finished : Bitmap → Bitmap
  finished target = lib.shrink_to_fit (record target {
    source_length = b.data_length;
    compression_ratio = lib.compression_ratio target.data_length b.data_length;
  })

  pub process_pack-ok :
      {e : Bitmap}
      → process_pack lib enc (some b) args ≡ ok e
      → let packed = internal_pack lib enc b fresh args in
        (validate_bitmap (some b) ≡ ok tt)
        × (ltb_ℤ packed.0 (pos 0) ≡ false)
        × (e ≡ finished packed.1)
  unfolding process_pack pack_valid pack_result
  process_pack-ok {e} h =
      let (valid, packed) = then-eq-ok (validate_bitmap (some b)) _ h in
      elim (Bool-cases (ltb_ℤ (internal_pack lib enc b fresh args).0 (pos 0))) [
        | inl negative ↦
            let clash : throw (internal_pack lib enc b fresh args).0 ≡ ok e =
              rw negative at packed in
            cc
        | inr result ↦ (
          valid,
          result,
          let same : ok (finished (internal_pack lib enc b fresh args).1) ≡ ok e =
                rw result at packed in
              cc,
        )
      ]
