-- ===== src/Phase/Decode/Rounds.antt =====
-- What one round of the check after phase 3 of redcli/main.cpp means for its row.
use encoder_rle4k_cpu.Base.{
  ℕ, ◌≡◌, ◌↔◌, ◌⊎◌, ◌∙◌, ap, subst, inl, inr, Bool, true, false, List, Option, some, none, arith,
  get_elem?, length, ◌==◌, ==_iff, Bool-cases, if◌then◌else◌,
}
use encoder_rle4k_cpu.Base.Int.{ℤ, eq_ℤ, eq_ℤ→eq}
use encoder_rle4k_cpu.Bitmap.{Bitmap, contents}
use encoder_rle4k_cpu.Libraries.{Libraries, Verdict}
use encoder_rle4k_cpu.Format.{raster_output_format_brotli}
use encoder_rle4k_cpu.Fnv.{rle4k_fnv1a64}
use encoder_rle4k_cpu.Fnv.Detect.{rle4k_fnv1a64-some}
use encoder_rle4k_cpu.Digest.{Digest}
use encoder_rle4k_cpu.Decode.{rle4k_decode_payload}
use encoder_rle4k_cpu.Phase.Decode.{
  Decoded, is_missing, need, attempt, decode_block_of, compare_hash, verify_slot,
}
use encoder_rle4k_cpu.Phase.Decode.Rows.{RowMarks}

module _ (lib : Libraries) (fmt : ℤ) where
  -- A decoder writes inside the buffer that it is given.
  abbrev pub KeepsBuffer : Type 0
  KeepsBuffer =
      (dig : Digest) (e : Option Bitmap)
      → length (contents (attempt lib fmt dig e).buffer) ≡ need dig

  -- A valid row of a format other than Brotli has an encoded block, which decodes to bytes whose hash
  -- is that of the raw block.
  abbrev pub Verified : Digest → Option Bitmap → Type 0
  Verified dig e =
      dig.valid ≡ true
      → eq_ℤ fmt raster_output_format_brotli ≡ false
      → (is_missing e ≡ false)
        × ((attempt lib fmt dig e).done ≡ true)
        × (rle4k_fnv1a64 (contents (attempt lib fmt dig e).buffer) dig.nbytes ≡ some dig.hash)

  -- A round of the check keeps the flag exactly where the row is verified.
  abbrev Round : Decoded → Digest → Option Bitmap → ℕ → Bool → Type 0
  Round s dig e i ok =
      (ok' : Bool) × (verify_slot fmt s dig i ok ≡ some ok')
      × ((ok' ≡ true) ↔ ((ok ≡ true) × Verified dig e))

  compare_hash-Round :
      KeepsBuffer
      → (s : Decoded) (dig : Digest) (e : Option Bitmap) (i : ℕ) (ok : Bool) → dig.valid ≡ true
      → eq_ℤ fmt raster_output_format_brotli ≡ false
      → is_missing e ≡ false
      → (attempt lib fmt dig e).done ≡ true
      → get_elem? s.check_bufs i ≡ some (contents (attempt lib fmt dig e).buffer)
      → (ok' : Bool) × (compare_hash s dig i ok ≡ some ok')
        × ((ok' ≡ true) ↔ ((ok ≡ true) × Verified dig e))
  unfolding compare_hash need
  compare_hash-Round keeps s dig e i ok valid other present done buf =
      let bs : List ℕ = contents (attempt lib fmt dig e).buffer in
      let (got, g) = rle4k_fnv1a64-some bs dig.nbytes (omega (arith, keeps dig e)) in
      elim (Bool-cases (got == dig.hash)) [
        | inl same ↦
            let eq : got ≡ dig.hash = (==_iff got dig.hash).0 same in
            (ok, rw (buf, g, same), (λ h. (h, λ _ _. (present, done, g ∙ ap some eq)), λ h. h.0))
        | inr differ ↦ (
          false,
          rw (buf, g, differ),
          (
            λ h. cc,
            λ h.
                let (_, _, hash) = h.1 valid other in
                let eq : got ≡ dig.hash = cc in cc ((==_iff got dig.hash).1 eq),
          ),
        )
      ]

  verify_slot-checked :
      (s : Decoded) (dig : Digest) (i : ℕ) (ok : Bool) {marked : Bool}
      → dig.valid ≡ true
      → eq_ℤ fmt raster_output_format_brotli ≡ false
      → get_elem? s.decoded_ok i ≡ some marked
      → verify_slot fmt s dig i ok ≡ (if marked then compare_hash s dig i ok else some false)
  unfolding verify_slot
  verify_slot-checked s dig i ok valid other mark = ground arith

  verify_slot-skipped :
      (s : Decoded) (dig : Digest) (i : ℕ) (ok : Bool)
      → (dig.valid ≡ false) ⊎ (eq_ℤ fmt raster_output_format_brotli ≡ true)
      → verify_slot fmt s dig i ok ≡ some ok
  unfolding verify_slot
  verify_slot-skipped s dig i ok skip = ground arith

  decode_block_of-present :
      (dig : Digest) (e : Option Bitmap)
      → dig.valid ≡ true
      → is_missing e ≡ false
      → decode_block_of lib fmt dig e ≡ some (attempt lib fmt dig e)
  unfolding decode_block_of
  decode_block_of-present dig e valid present = ground arith

  decode_block_of-missing :
      (dig : Digest) (e : Option Bitmap)
      → is_missing e ≡ true
      → decode_block_of lib fmt dig e ≡ none
  unfolding decode_block_of
  decode_block_of-missing dig e missing = ground arith

  decoded_Round :
      KeepsBuffer
      → (s : Decoded) (dig : Digest) (e : Option Bitmap) (i : ℕ) (ok : Bool) → dig.valid ≡ true
      → eq_ℤ fmt raster_output_format_brotli ≡ false
      → is_missing e ≡ false
      → RowMarks s i (some (attempt lib fmt dig e))
      → Round s dig e i ok
  decoded_Round keeps s dig e i ok valid other present slot =
      elim (Bool-cases (attempt lib fmt dig e).done) [
        | inl done ↦
            let mark : get_elem? s.decoded_ok i ≡ some true = slot.0 ∙ ap some done in
            let (ok', r, h) =
              compare_hash-Round keeps s dig e i ok valid other present done slot.1 in
            (ok', verify_slot-checked s dig i ok valid other mark ∙ r, h)
        | inr failed ↦
            let mark : get_elem? s.decoded_ok i ≡ some false = slot.0 ∙ ap some failed in
            (
              false,
              verify_slot-checked s dig i ok valid other mark,
              (λ h. cc, λ h. cc ((h.1 valid other).1, failed)),
            )
      ]

  pub verify_slot-Round :
      KeepsBuffer
      → (s : Decoded) (dig : Digest) (e : Option Bitmap) (i : ℕ) (ok : Bool)
      → RowMarks s i (decode_block_of lib fmt dig e)
      → Round s dig e i ok
  verify_slot-Round keeps s dig e i ok slot = elim (Bool-cases dig.valid) [
    | inr invalid ↦
        (ok, verify_slot-skipped s dig i ok (inl invalid), (λ h. (h, λ v. cc), λ h. h.0))
    | inl valid ↦ elim (Bool-cases (eq_ℤ fmt raster_output_format_brotli)) [
      | inl brotli ↦
          (ok, verify_slot-skipped s dig i ok (inr brotli), (λ h. (h, λ _ o. cc), λ h. h.0))
      | inr other ↦ elim (Bool-cases (is_missing e)) [
        | inl missing ↦
            let mark : get_elem? s.decoded_ok i ≡ some false =
              subst (RowMarks s i) (decode_block_of-missing dig e missing) slot in
            (
              false,
              verify_slot-checked s dig i ok valid other mark,
              (λ h. cc, λ h. cc ((h.1 valid other).0, missing)),
            )
        | inr present ↦
            decoded_Round keeps s dig e i ok valid other present
              (subst (RowMarks s i) (decode_block_of-present dig e valid present) slot)
      ]
    ]
  ]

  pub decode_block_of-some :
      (dig : Digest) (e : Option Bitmap) {v : Verdict}
      → decode_block_of lib fmt dig e ≡ some v
      → (dig.valid ≡ true) × (is_missing e ≡ false) × (attempt lib fmt dig e ≡ v)
  unfolding decode_block_of
  decode_block_of-some dig e h = ground arith

  -- Brotli passes without a decode.
  pub attempt-brotli :
      (dig : Digest) (e : Option Bitmap)
      → eq_ℤ fmt raster_output_format_brotli ≡ true
      → is_missing e ≡ false
      → (attempt lib fmt dig e).done ≡ true
  unfolding attempt rle4k_decode_payload
  attempt-brotli dig none brotli present = cc
  attempt-brotli dig (some e) brotli present =
      let is_brotli : fmt ≡ raster_output_format_brotli = eq_ℤ→eq fmt _ brotli in
      rw is_brotli (ground arith)
