-- ===== src/Phase/Decode/Verify.antt =====
-- What `all_ok` of redcli/main.cpp means with the check on.
use encoder_rle4k_cpu.Base.{
  ℕ, suc, ◌<◌, ◌≡◌, ◌↔◌, ◌∙◌, ap, sym, some_injective, bind-eq-some, subst, inl, inr, Bool, true,
  List, Option, some, arith, get_elem?, length, get_elem?-lt, get_elem?-some, run_from, ℕ_discrete,
  Bool-cases,
}
use mathlib.Core.Path.{subst₂}
use encoder_rle4k_cpu.Base.Int.{ℤ, eq_ℤ}
use encoder_rle4k_cpu.Bitmap.{Bitmap}
use encoder_rle4k_cpu.Libraries.{Libraries, Verdict}
use encoder_rle4k_cpu.Format.{raster_output_format_brotli}
use encoder_rle4k_cpu.Digest.{Digest}
use encoder_rle4k_cpu.Phase.Slots.{run_from_total}
use encoder_rle4k_cpu.Phase.Decode.{
  Decoded, decode_block_of, decode_row, verify_body, decode_window,
}
use encoder_rle4k_cpu.Phase.Decode.Rows.{RowMarks, Progress, decode_rows}
use encoder_rle4k_cpu.Phase.Decode.Rounds.{
  KeepsBuffer, Verified, verify_slot-Round, decode_block_of-some, attempt-brotli,
}

module _ (lib : Libraries) (fmt : ℤ) where
  module _ (digests : List Digest) (enc_cache : List (Option Bitmap)) where
    -- Every one of the first `k` rows is verified.
    abbrev AllVerified : ℕ → Type 0
    AllVerified k =
        (i : ℕ) (dig : Digest) (e : Option Bitmap)
        → i < k
        → get_elem? digests i ≡ some dig
        → get_elem? enc_cache i ≡ some e
        → Verified lib fmt dig e

    record Checked (s : Decoded) (k : ℕ) (ok : Bool) : Type 0 where
      flag : ok ≡ true → s.ok ≡ true
      sound : ok ≡ true → AllVerified k
      complete : s.ok ≡ true → AllVerified k → ok ≡ true

    round-Checked :
        (s : Decoded) (k : ℕ) (ok ok' : Bool) (dig : Digest) (e : Option Bitmap)
        → get_elem? digests k ≡ some dig
        → get_elem? enc_cache k ≡ some e
        → ((ok' ≡ true) ↔ ((ok ≡ true) × Verified lib fmt dig e))
        → Checked s k ok
        → Checked s (suc k) ok'
    round-Checked s k ok ok' dig e d c h p = record {
      flag = λ t. p.flag (h.0 t).0;
      sound = λ t i dig' e' lt d' c'. elim (ℕ_discrete i k) [
        | yes same ↦
            let dd : some dig ≡ some dig' = sym d ∙ (rw same at d') in
            let cc' : some e ≡ some e' = sym c ∙ (rw same at c') in
            subst₂ (Verified lib fmt) (some_injective dd) (some_injective cc') (h.0 t).1
        | no other ↦ p.sound (h.0 t).0 i dig' e' (omega arith) d' c'
      ];
      complete = λ start all. h.1 (
        p.complete start (λ i dig' e' lt. all i dig' e' (omega arith)),
        all k dig e (omega arith) d c,
      );
    }

    pub decode_row-get :
        (k : ℕ) (dig : Digest) (e : Option Bitmap)
        → get_elem? digests k ≡ some dig
        → get_elem? enc_cache k ≡ some e
        → decode_row lib fmt digests enc_cache k ≡ some (decode_block_of lib fmt dig e)
    unfolding decode_row
    decode_row-get k dig e d c = rw (d, c)

    verify_rows :
        KeepsBuffer lib fmt
        → length enc_cache ≡ length digests
        → (s : Decoded) → Progress lib fmt digests enc_cache (length digests) s
        → (ok : Bool) × (run_from (verify_body fmt digests s) (length digests) 0 s.ok ≡ some ok)
          × Checked s (length digests) ok
    unfolding verify_body
    verify_rows keeps same_size s rows =
        run_from_total (verify_body fmt digests s) (Checked s) (length digests) keep
          (length digests) 0 s.ok (omega arith)
          (record {
            flag = λ t. t;
            sound = λ _ i dig e lt. absurd (omega arith);
            complete = λ t _. t;
          })
      where
        keep :
            (k : ℕ) (ok : Bool)
            → k < length digests
            → Checked s k ok
            → (ok' : Bool) × (verify_body fmt digests s k ok ≡ some ok') × Checked s (suc k) ok'
        keep k ok lt p =
            let (dig, d) = get_elem?-some digests k lt in
            let (e, c) = get_elem?-some enc_cache k (omega arith) in
            let (out, r, slot) = rows.rows k lt in
            let same : out ≡ decode_block_of lib fmt dig e =
              some_injective (sym r ∙ decode_row-get k dig e d c) in
            let (ok', v, h) =
              verify_slot-Round lib fmt keeps s dig e k ok (subst (RowMarks s k) same slot) in
            (ok', rw d v, round-Checked s k ok ok' dig e d c h p)

    -- Only rows of Brotli can be verified without a decode, and these always pass.
    verified-done :
        (k : ℕ)
        → AllVerified k
        → (i : ℕ) → i < k
        → (v : Verdict) → decode_row lib fmt digests enc_cache i ≡ some (some v)
        → v.done ≡ true
    unfolding decode_row
    verified-done k all i lt v r =
        let (dig, d, r1) = bind-eq-some (get_elem? digests i) _ r in
        let (e, c, r2) = bind-eq-some (get_elem? enc_cache i) _ r1 in
        let (valid, present, same) = decode_block_of-some lib fmt dig e (some_injective r2) in
        ap (λ (w : Verdict). w.done) (sym same)
        ∙ elim (Bool-cases (eq_ℤ fmt raster_output_format_brotli)) [
          | inl brotli ↦ attempt-brotli lib fmt dig e brotli present
          | inr other ↦ (all i dig e lt d c valid other).1
        ]

-- With the check on and an encoded slot for each digest, phase 3 returns, and `all_ok` is true exactly
-- when every row is verified: if its digest is valid and the format is not Brotli, the row has an
-- encoded block, its decode succeeds, and the hash of the bytes that it gives is that of the digest.
-- A decoder keeps the size of the buffer that it is given.
pub decode_window-iff-Verified :
    (lib : Libraries) (fmt : ℤ) (digests : List Digest) (enc_cache : List (Option Bitmap))
    → KeepsBuffer lib fmt
    → length enc_cache ≡ length digests
    → (all_ok : Bool) × (decode_window lib fmt digests enc_cache true ≡ some all_ok)
      × ((all_ok ≡ true) ↔ (
          (i : ℕ) (dig : Digest) (e : Option Bitmap)
          → get_elem? digests i ≡ some dig
          → get_elem? enc_cache i ≡ some e
          → Verified lib fmt dig e))
unfolding decode_window
decode_window-iff-Verified lib fmt digests enc_cache keeps same_size =
    let (s, r, rows) = decode_rows lib fmt digests enc_cache same_size in
    let (ok, v, p) = verify_rows lib fmt digests enc_cache keeps same_size s rows in
    (
      ok,
      rw r v,
      (
        λ t i dig e d c. p.sound t i dig e (get_elem?-lt digests i d) d c,
        λ all.
            p.complete
              (rows.complete (
                verified-done lib fmt digests enc_cache (length digests)
                  (λ i dig e _. all i dig e)))
              (λ i dig e _. all i dig e),
      ),
    )
