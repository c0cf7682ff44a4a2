-- ===== src/Encoder/RoundTrip.antt =====
-- What the six `internal_pack` of redcli/rle4k_format_encoder.cpp leave in their targets, as
-- `rle4k_decode_payload` of redcli/main.cpp needs it.
use encoder_rle4k_cpu.Base.{
  ℕ, ◌≤◌, ◌≡◌, refl, inl, inr, Bool, true, false, arith, length, Bool-cases,
}
use encoder_rle4k_cpu.Base.Int.{ℤ, pos, ◌≤ℤ◌, ltb_ℤ, eq_ℤ, eq_ℤ→eq}
use encoder_rle4k_cpu.Bitmap.{Bitmap, contents, EncodeFormatArgs, get_buffer_size, to_u32}
use encoder_rle4k_cpu.Libraries.{Libraries, Written}
use encoder_rle4k_cpu.Libraries.Laws.{
  Documented, Unpacks, as_written, unpack, lzo_worst, Codec, Ample,
}
use encoder_rle4k_cpu.Encoder.{
  Encoder, rle4k, gzip, lzo2, snappy, zstd, clamp_level, report, rle4k_finish, gzip_pack, lzo2_pack,
  snappy_pack, zstd_pack,
}
use encoder_rle4k_cpu.Encoder.Outcome.{failure_negative}

-- A target that holds a payload of `b` which unpacks.
abbrev pub Holds : Libraries → Encoder → Bitmap → Bitmap → Type 0
Holds lib enc b target =
    (w : Written) × (target.data_length ≡ w.length)
    × (target.bytes ≡ w.buffer)
    × Unpacks b w (unpack lib b enc)

module _ (lib : Libraries) (b dst : Bitmap) where
  -- A call that reported success filled the target.
  filled-Holds :
      (enc : Encoder) (w : Written)
      → Unpacks b w (unpack lib b enc)
      → Holds lib enc b (record dst { bytes = w.buffer; data_length = to_u32 w.length })
  filled-Holds enc w u = (w, omega (arith, u.0), refl, u)

  report-Holds :
      (enc : Encoder) (success : Bool) (w : Written) (error : ℤ) (f : ℕ)
      → dst.format ≡ pos f
      → 4 ≤ f
      → error ≤ℤ pos 999
      → (success ≡ true → Unpacks b w (unpack lib b enc))
      → ltb_ℤ (report lib success dst w error).0 (pos 0) ≡ false
      → Holds lib enc b (report lib success dst w error).1
  unfolding report
  report-Holds enc true w error f fmt four small u done = filled-Holds enc w (u refl)
  report-Holds enc false w error f fmt four small u done =
      cc (failure_negative lib dst error f fmt four small, done)

  module _ (args : EncodeFormatArgs) (doc : Documented lib)
      (there : get_buffer_size dst ≤ length (contents dst.bytes)) where
    pub gzip_pack-Holds :
        dst.format ≡ pos 0x7
        → Codec lib b gzip
        → ltb_ℤ (gzip_pack lib b dst args).0 (pos 0) ≡ false
        → Holds lib gzip b (gzip_pack lib b dst args).1
    unfolding gzip_pack
    gzip_pack-Holds fmt rec =
        let size = get_buffer_size dst in
        let level = clamp_level (pos 1) (pos 9) args.gzip_level in
        let w = lib.compress2 dst.bytes size b.bytes b.data_length level in
        report-Holds gzip _ w w.code 0x7 fmt (omega arith) (doc.compress2_codes _ _ _ _ _)
          (λ h. rec dst.bytes size level there (eq_ℤ→eq w.code (pos 0) h))

    pub zstd_pack-Holds :
        dst.format ≡ pos 0x8
        → Codec lib b zstd
        → ltb_ℤ (zstd_pack lib b dst args).0 (pos 0) ≡ false
        → Holds lib zstd b (zstd_pack lib b dst args).1
    unfolding zstd_pack
    zstd_pack-Holds fmt rec =
        let size = get_buffer_size dst in
        let level = clamp_level (pos 1) (pos 22) args.zstd_level in
        let w = lib.zstd_compress dst.bytes size b.bytes b.data_length level in
        report-Holds zstd _ w _ 0x8 fmt (omega arith) (doc.zstd_codes w.length)
          (λ h. rec dst.bytes size level there (ground arith))

    pub lzo2_pack-Holds :
        dst.format ≡ pos 0xB
        → Codec lib b lzo2
        → Ample lib b lzo2 dst
        → ltb_ℤ (lzo2_pack lib b dst args).0 (pos 0) ≡ false
        → Holds lib lzo2 b (lzo2_pack lib b dst args).1
    unfolding lzo2_pack
    lzo2_pack-Holds fmt rec ample =
        let room : lzo_worst b.data_length ≤ length (contents dst.bytes) =
          omega (arith, ample, there) in
        let size = get_buffer_size dst in
        let level = clamp_level (pos 1) (pos 999) args.lzo2_level in
        let quick = lib.lzo1x_1_compress b.bytes b.data_length dst.bytes size in
        let slow = lib.lzo1x_999_compress_level b.bytes b.data_length dst.bytes size level in
        elim (Bool-cases (eq_ℤ level (pos 1))) [
          | inl one ↦ rw one (
              report-Holds lzo2 _ quick quick.code 0xB fmt (omega arith) (doc.lzo1x_1_codes _ _ _ _)
                (λ h. rec.0 dst.bytes size room (eq_ℤ→eq quick.code (pos 0) h)))
          | inr more ↦ rw more (
              report-Holds lzo2 _ slow slow.code 0xB fmt (omega arith)
                (doc.lzo1x_999_codes _ _ _ _ _)
                (λ h. rec.1 dst.bytes size level room (eq_ℤ→eq slow.code (pos 0) h)))
        ]

  pub snappy_pack-Holds :
      get_buffer_size dst ≤ length (contents dst.bytes)
      → Codec lib b snappy
      → Ample lib b snappy dst
      → Holds lib snappy b (snappy_pack lib b dst).1
  unfolding snappy_pack
  snappy_pack-Holds there rec ample =
      filled-Holds snappy (lib.raw_compress b.bytes b.data_length dst.bytes)
        (rec dst.bytes (omega (arith, ample, there)))

  pub rle4k_finish-Holds :
      Codec lib b rle4k
      → (cap : ℕ) → cap ≤ length (contents dst.bytes)
      → let a = lib.rle4k_encode_block b.bytes b.height b.width dst.bytes b.stride_bytes cap in
        ltb_ℤ (rle4k_finish lib dst a).0 (pos 0) ≡ false
        → Holds lib rle4k b (rle4k_finish lib dst a).1
  unfolding rle4k_finish
  rle4k_finish-Holds rec cap there =
      let a = lib.rle4k_encode_block b.bytes b.height b.width dst.bytes b.stride_bytes cap in
      elim (Bool-cases (ltb_ℤ a.code (pos 0))) [
        | inl low ↦ rw low (λ done. cc)
        | inr fine ↦ rw fine (λ done.
            let u = rec dst.bytes cap there fine in (as_written a, omega (arith, u.0), refl, u))
      ]
