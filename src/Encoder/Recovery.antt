-- ===== src/Encoder/Recovery.antt =====
-- A payload of `process_pack` (redcli/rle4k_format_encoder.cpp) on its way through
-- `rle4k_decode_payload` (redcli/main.cpp).
use encoder_rle4k_cpu.Base.{
  ℕ, ◌^◌, ◌≤◌, ◌<◌, ◌≡◌, ◌≢◌, refl, ◌∙◌, ap, inl, inr, true, false, some, arith, Bool-cases, take,
  length, subst,
}
use encoder_rle4k_cpu.Base.Int.{pos, ltb_ℤ, eq_ℤ}
use encoder_rle4k_cpu.Bitmap.{
  Bytes, Bitmap, contents, is_null, EncodeFormatArgs, ok, get_buffer_size,
}
use encoder_rle4k_cpu.Libraries.{Libraries}
use encoder_rle4k_cpu.Libraries.Laws.{Documented, SameFront, unpack, Codec, Ample, Recovers}
use encoder_rle4k_cpu.Encoder.{
  Encoder, rle4k, gzip, lzo2, snappy, zstd, brotli, get_supported_format, rle4k_pack,
  rle4k_error_target_too_small, encode_block, internal_pack, process_pack,
}
use encoder_rle4k_cpu.Encoder.Outcome.{fresh, process_pack-ok}
use encoder_rle4k_cpu.Encoder.RoundTrip.{
  Holds, gzip_pack-Holds, zstd_pack-Holds, lzo2_pack-Holds, snappy_pack-Holds, rle4k_finish-Holds,
}
use encoder_rle4k_cpu.Decode.{rle4k_decode_payload, decode_as, to_ulong}

module _ (lib : Libraries) (b : Bitmap) where
  rle4k_pack-Holds :
      (dst : Bitmap)
      → Documented lib
      → get_buffer_size dst ≤ length (contents dst.bytes)
      → Codec lib b rle4k
      → ltb_ℤ (rle4k_pack lib b dst).0 (pos 0) ≡ false
      → Holds lib rle4k b (rle4k_pack lib b dst).1
  unfolding rle4k_pack encode_block get_buffer_size
  rle4k_pack-Holds dst doc there rec =
      let reset : Bitmap = record dst { data_length = 0 } in
      let first = encode_block lib b reset in
      let larger : Bitmap = lib.resize (record reset { bytes = first.buffer }) in
      elim (Bool-cases (eq_ℤ first.code rle4k_error_target_too_small)) [
        | inl small ↦
            rw small
              (rle4k_finish-Holds lib b larger rec (get_buffer_size larger) (doc.resize_room _))
        | inr fits ↦
            rw fits
              (rle4k_finish-Holds lib b reset rec (get_buffer_size reset) (ground (arith, there)))
      ]

  internal_pack-Holds :
      (enc : Encoder) (args : EncodeFormatArgs) (dst : Bitmap)
      → Documented lib
      → get_buffer_size dst ≤ length (contents dst.bytes)
      → Codec lib b enc
      → Ample lib b enc dst
      → enc ≢ brotli
      → dst.format ≡ get_supported_format enc
      → ltb_ℤ (internal_pack lib enc b dst args).0 (pos 0) ≡ false
      → Holds lib enc b (internal_pack lib enc b dst args).1
  unfolding internal_pack get_supported_format
  internal_pack-Holds rle4k args dst doc there rec ample other fmt done =
      rle4k_pack-Holds dst doc there rec done
  internal_pack-Holds gzip args dst doc there rec ample other fmt done =
      gzip_pack-Holds lib b dst args doc there fmt rec done
  internal_pack-Holds lzo2 args dst doc there rec ample other fmt done =
      lzo2_pack-Holds lib b dst args doc there fmt rec ample done
  internal_pack-Holds snappy args dst doc there rec ample other fmt done =
      snappy_pack-Holds lib b dst there rec ample
  internal_pack-Holds zstd args dst doc there rec ample other fmt done =
      zstd_pack-Holds lib b dst args doc there fmt rec done
  internal_pack-Holds brotli args dst doc there rec ample other fmt done = absurd (other refl)

  -- The decoder of an encoder's format unpacks the block.
  rle4k_decode_payload-unpack :
      (enc : Encoder) (e : Bitmap) (out : Bytes) (room : ℕ)
      → is_null out ≡ false
      → 0 < room
      → room < 2 ^ 32
      → rle4k_decode_payload lib
          (get_supported_format enc)
          (some e)
          b.width
          b.height
          b.stride_bytes
          out
          room
        ≡ unpack lib b enc e.bytes e.data_length out room
  unfolding rle4k_decode_payload get_supported_format decode_as to_ulong
  rle4k_decode_payload-unpack rle4k e out room here more small = ground arith
  rle4k_decode_payload-unpack gzip e out room here more small = ground arith
  rle4k_decode_payload-unpack lzo2 e out room here more small = ground arith
  rle4k_decode_payload-unpack snappy e out room here more small = ground arith
  rle4k_decode_payload-unpack zstd e out room here more small = ground arith
  rle4k_decode_payload-unpack brotli e out room here more small = ground arith

  -- A payload that unpacks is decoded into any buffer with room for the block.
  Holds-decodes :
      (enc : Encoder) (target e : Bitmap)
      → Holds lib enc b target
      → e.data_length ≡ target.data_length
      → SameFront target.data_length e.bytes target.bytes
      → (out : Bytes) (room : ℕ) → is_null out ≡ false
      → 0 < room
      → room < 2 ^ 32
      → b.data_length ≤ room
      → room ≤ length (contents out)
      → let v =
          rle4k_decode_payload lib
            (get_supported_format enc)
            (some e)
            b.width
            b.height
            b.stride_bytes
            out
            room in
        (v.done ≡ true) × SameFront b.data_length v.buffer b.bytes
  Holds-decodes enc target e (w, len, bytes, u) same front out room here more small fits there =
      let front : SameFront w.length e.bytes w.buffer =
        subst (λ n. SameFront n e.bytes target.bytes) len front
        ∙ ap (λ x. take w.length (contents x)) bytes in
      let good = u.1 e.bytes out room front fits there in
      let flow =
        rle4k_decode_payload-unpack enc e out room here more small
        ∙ ap (λ n. unpack lib b enc e.bytes n out room) (same ∙ len) in
      (
        ap (λ v. v.done) flow ∙ good.0,
        ap (λ v. take b.data_length (contents v.buffer)) flow ∙ good.1,
      )

  -- What `process_pack` returned decodes to the block it was given: for each encoder but Brotli's, where
  -- the libraries do what they document, the codec recovers the block, which with 4096 bytes more is short
  -- of 4 GB and whose target, for LZO and Snappy, has room for their worst case, and the output has room
  -- for the block, of less than 4 GB.
  pub rle4k_decode_payload-process_pack :
      (enc : Encoder) (args : EncodeFormatArgs) {e : Bitmap}
      → Documented lib
      → Recovers lib b enc
      → enc ≢ brotli
      → process_pack lib enc (some b) args ≡ ok e
      → (out : Bytes) (room : ℕ) → is_null out ≡ false
      → 0 < room
      → room < 2 ^ 32
      → b.data_length ≤ room
      → room ≤ length (contents out)
      → let v =
          rle4k_decode_payload lib
            (get_supported_format enc)
            (some e)
            b.width
            b.height
            b.stride_bytes
            out
            room in
        (v.done ≡ true) × SameFront b.data_length v.buffer b.bytes
  rle4k_decode_payload-process_pack enc args {e} doc rec other packed out room here more small fits
        there =
      let (_, result, final) = process_pack-ok lib enc b args packed in
      let dst = fresh lib enc b args in
      let target = (internal_pack lib enc b dst args).1 in
      let holds =
        internal_pack-Holds enc args dst doc (doc.new_room _ _ _ _) rec.2 rec.1 other
          (doc.new_format _ _ _ _) result in
      let done = record target {
        source_length = b.data_length;
        compression_ratio = lib.compression_ratio target.data_length b.data_length;
      } in
      Holds-decodes enc target e holds
        (ap (λ (x : Bitmap). x.data_length) final ∙ doc.shrink_length done)
        (ap (λ (x : Bitmap). take target.data_length (contents x.bytes)) final
          ∙ doc.shrink_front done)
        out room here more small fits there
