-- ===== src/Phase/RoundTrip.antt =====
-- The three phases of redcli/main.cpp in a row: what the check of phase 3 answers on a window that
-- phases 1 and 2 made.
use encoder_rle4k_cpu.Base.{
  ℕ, ◌+◌, ◌≤◌, ◌≡◌, ◌≢◌, refl, ◌∙◌, ap, sym, inl, inr, Bool, true, false, List, Option, some, none,
  arith, get_elem?, length, replicate, length-replicate, get_elem?-lt, some_injective, Bool-cases,
  bind-eq-some, ◌||◌, ◌==◌,
}
use encoder_rle4k_cpu.Base.Int.{eq_ℤ, eq_ℤ-refl}
use encoder_rle4k_cpu.Bitmap.{Bitmap, contents, is_null, EncodeFormatArgs, Result, ok, throw, throw}
use encoder_rle4k_cpu.Libraries.{Libraries}
use encoder_rle4k_cpu.Libraries.Laws.{Documented, Recovers}
use encoder_rle4k_cpu.Format.{raster_output_format_brotli}
use encoder_rle4k_cpu.Encoder.{Encoder, brotli, get_supported_format, process_pack}
use encoder_rle4k_cpu.Encoder.Recovery.{rle4k_decode_payload-process_pack}
use encoder_rle4k_cpu.Fnv.{rle4k_fnv1a64}
use encoder_rle4k_cpu.Fnv.Detect.{rle4k_fnv1a64-take, rle4k_fnv1a64-bound}
use encoder_rle4k_cpu.Digest.{Digest, blank_digest, unhashed, rle4k_make_digest}
use encoder_rle4k_cpu.Phase.Raster.{Raw, digest_of, raster_row, raster_window, returned}
use encoder_rle4k_cpu.Phase.Raster.Blocks.{raster_window-RowDone}
use encoder_rle4k_cpu.Phase.Encode.{encode_window}
use encoder_rle4k_cpu.Phase.Encode.Cache.{encode_window-rows}
use encoder_rle4k_cpu.Phase.Decode.{need, attempt, decode_window}
use encoder_rle4k_cpu.Phase.Decode.Rounds.{KeepsBuffer, Verified}
use encoder_rle4k_cpu.Phase.Decode.Verify.{decode_window-iff-Verified}

-- A valid digest has the measures of its block and the hash of its bytes.
pub digest_of-valid :
    (b : Bitmap) {dig : Digest}
    → digest_of (some b) true ≡ some dig
    → dig.valid ≡ true
    → (h : ℕ) × (rle4k_fnv1a64 (contents b.bytes) b.data_length ≡ some h)
      × (dig ≡ (record (unhashed b) { hash = h }))
unfolding digest_of rle4k_make_digest
digest_of-valid b {dig} e valid =
    elim (Bool-cases (is_null b.bytes || b.width == 0 || b.height == 0)) [
      | inl bad ↦
          let blank : some blank_digest ≡ some dig = rw bad at e in
          cc (ap (λ (d : Digest). d.valid) (some_injective blank))
      | inr good ↦
          let read = rw good at e in
          let (h, h0, h1) = bind-eq-some (rle4k_fnv1a64 (contents b.bytes) b.data_length) _ read in
          (h, h0, sym (some_injective h1))
    ]

digest_of-none : (do_hash : Bool) → digest_of none do_hash ≡ some blank_digest
unfolding digest_of
digest_of-none do_hash = refl

not_brotli :
    (enc : Encoder)
    → eq_ℤ (get_supported_format enc) raster_output_format_brotli ≡ false
    → enc ≢ brotli
unfolding get_supported_format
not_brotli enc other q =
    let same : get_supported_format enc ≡ raster_output_format_brotli = ap get_supported_format q in
    cc (
      ap (λ f. eq_ℤ f raster_output_format_brotli) same,
      eq_ℤ-refl raster_output_format_brotli,
      other,
    )

module _ (lib : Libraries) (enc : Encoder) (args : EncodeFormatArgs) where
  -- The row of a block that was packed is verified.
  packed-Verified :
      Documented lib
      → KeepsBuffer lib (get_supported_format enc)
      → (b : Bitmap) {dig : Digest} {e : Bitmap} → Recovers lib b enc
      → digest_of (some b) true ≡ some dig
      → process_pack lib enc (some b) args ≡ ok e
      → Verified lib (get_supported_format enc) dig (some e)
  unfolding attempt need
  packed-Verified doc keeps b {dig} {e} rec d packed valid other =
      let (h, h0, same) = digest_of-valid b d valid in
      let size : ℕ = b.data_length + 4096 in
      let zeros : List ℕ = replicate size 0 in
      let long_enough : length zeros ≡ size = length-replicate size 0 in
      let good =
        rle4k_decode_payload-process_pack lib b enc args doc rec (not_brotli enc other) packed
          (some zeros) size refl (omega arith) rec.0 (omega arith) (omega (arith, long_enough)) in
      let buffer : List ℕ =
        contents
          (attempt lib (get_supported_format enc) (record (unhashed b) { hash = h })
            (some e)).buffer in
      let long : b.data_length ≤ length buffer =
        omega (arith, keeps (record (unhashed b) { hash = h }) (some e)) in
      let hash : rle4k_fnv1a64 buffer b.data_length ≡ some h =
        rle4k_fnv1a64-take buffer b.data_length long
        ∙ ap (λ bs. rle4k_fnv1a64 bs b.data_length) good.1
        ∙ sym (rle4k_fnv1a64-take (contents b.bytes) b.data_length (rle4k_fnv1a64-bound _ _ h0))
        ∙ h0 in
      rw same (refl, good.0, hash)

returned-some {ℓ} : {A : Type ℓ} (r : Result A) {a : A} → returned r ≡ some a → r ≡ ok a
returned-some (ok b) e = ap ok (some_injective e)
returned-some (throw c) e = cc

-- What phase 1 computes for a row is a block and its digest.
pub raster_row-some :
    (rasterize : ℕ → ℕ → Result (Option Bitmap)) (col row0 i : ℕ) (do_hash : Bool)
    (row : Digest × Option Bitmap)
    → raster_row rasterize col row0 do_hash i ≡ some row
    → (rasterize col (row0 + i) ≡ ok row.1) × (digest_of row.1 do_hash ≡ some row.0)
unfolding raster_row
raster_row-some rasterize col row0 i do_hash row e =
    let (block, came, e1) = bind-eq-some (returned (rasterize col (row0 + i))) _ e in
    let (digest, d, e2) = bind-eq-some (digest_of block do_hash) _ e1 in
    let same : (digest, block) ≡ row = some_injective e2 in
    let digest_same : digest ≡ row.0 = ap (λ r. r.0) same in
    let block_same : block ≡ row.1 = ap (λ r. r.1) same in
    (
      returned-some (rasterize col (row0 + i)) came ∙ ap ok block_same,
      ap (λ b. digest_of b do_hash) (sym block_same) ∙ d ∙ ap some digest_same,
    )

module _ (lib : Libraries) (enc : Encoder) (args : EncodeFormatArgs) where
  row-Verified :
      Documented lib
      → KeepsBuffer lib (get_supported_format enc)
      → (block : Option Bitmap) {dig : Digest} {e : Option Bitmap}
      → ((b : Bitmap) → block ≡ some b → Recovers lib b enc)
      → ((b : Bitmap)
          → block ≡ some b
          → (x : Bitmap) × (process_pack lib enc (some b) args ≡ ok x) × (e ≡ some x))
      → digest_of block true ≡ some dig
      → Verified lib (get_supported_format enc) dig e
  unfolding digest_of
  row-Verified doc keeps none {dig} rec pack d =
      λ valid. cc (ap (λ (g : Digest). g.valid) (some_injective d), valid)
  row-Verified doc keeps (some b) rec pack d =
      let (x, packed, here) = pack b refl in
      rw here (packed-Verified lib enc args doc keeps b (rec b refl) d packed)

-- A window whose blocks are rasterized with their hashes, then encoded into a cache of any content, and
-- then decoded with the check on, has `all_ok` true: for each of the six encoders, where libraster and the
-- codecs do what they document, a decoder keeps the size of its buffer, and the encoder's codec
-- recovers each block of the window, which with 4096 bytes more is short of 4 GB and whose target, for
-- LZO and Snappy, has room for their worst case.
pub decode_window-encode_window :
    (lib : Libraries) (enc : Encoder) (args : EncodeFormatArgs)
    (rasterize : ℕ → ℕ → Result (Option Bitmap)) (col row0 nwin : ℕ) (cache0 : List (Option Bitmap))
    {raw : Raw} {ss_bytes cs_bytes : ℕ} {cache : List (Option Bitmap)}
    → Documented lib
    → KeepsBuffer lib (get_supported_format enc)
    → ((i : ℕ) (b : Bitmap) → get_elem? raw.blocks i ≡ some (some b) → Recovers lib b enc)
    → raster_window rasterize col row0 true nwin ≡ some (raw, ss_bytes)
    → length cache0 ≡ nwin
    → encode_window lib enc args raw.blocks cache0 ≡ some (cache, cs_bytes)
    → decode_window lib (get_supported_format enc) raw.digests cache true ≡ some true
decode_window-encode_window lib enc args rasterize col row0 nwin cache0 {raw} {ss_bytes} {cs_bytes}
      {cache} doc keeps rec rastered slots0 encoded =
    let (digest_slots, block_slots, _, rows) =
      raster_window-RowDone rasterize col row0 true nwin rastered in
    let (slots, _, _, pack) =
      encode_window-rows lib enc args raw.blocks cache0 (block_slots ∙ sym slots0) encoded in
    let (all_ok, done, verdict) =
      decode_window-iff-Verified lib (get_supported_format enc) raw.digests cache keeps
        (slots ∙ slots0 ∙ sym digest_slots) in
    let all : all_ok ≡ true = verdict.1 (λ i dig e d c.
      let (row, made, dig_here, block_here) =
        rows i (omega (arith, get_elem?-lt raw.digests i d, digest_slots)) in
      let digest_same : row.0 ≡ dig = some_injective (sym dig_here ∙ d) in
      row-Verified lib enc args doc keeps row.1 (λ b same. rec i b (block_here ∙ ap some same))
        (λ b same.
          let (x, packed, x_here) = pack i b (block_here ∙ ap some same) in
          (x, packed, some_injective (sym c ∙ x_here)))
        ((raster_row-some rasterize col row0 i true row made).1 ∙ ap some digest_same)) in
    done ∙ ap some all
