-- ===== src/Column/Sound.antt =====
-- What a verdict of OK means for a column of redcli/main.cpp: each of its rows was verified.
use encoder_rle4k_cpu.Base.{
  ℕ, zero, suc, ◌+◌, ◌-◌, ◌<◌, ◌≡◌, ◌∙◌, sym, ap, subst, Bool, true, false, not, List, Option, none,
  some, arith, get_elem?-lt, get_elem?-replicate, replicate, length-replicate, bind-eq-some,
  some_injective, dec_lt, if◌then◌else◌,
}
use encoder_rle4k_cpu.Bitmap.{Bitmap, EncodeFormatArgs, Result, ok}
use encoder_rle4k_cpu.Libraries.{Libraries}
use encoder_rle4k_cpu.Encoder.{Encoder, get_supported_format}
use encoder_rle4k_cpu.Digest.{Digest}
use encoder_rle4k_cpu.Phase.Raster.{Raw, digest_of, raster_window}
use encoder_rle4k_cpu.Phase.Raster.Blocks.{raster_window-RowDone}
use encoder_rle4k_cpu.Phase.RoundTrip.{raster_row-some}
use encoder_rle4k_cpu.Phase.Decode.{decode_window}
use encoder_rle4k_cpu.Phase.Decode.Rounds.{KeepsBuffer, Verified}
use encoder_rle4k_cpu.Phase.Decode.Verify.{decode_window-iff-Verified}
use encoder_rle4k_cpu.Column.{
  Switches, Totals, no_totals, encode_repeats, decode_repeats, window, column, run_windows,
}
use encoder_rle4k_cpu.Column.Filled.{Payload, Empties, Filled, encode_repeats_first}
use encoder_rle4k_cpu.Column.Windows.{run_windows_inv}
use encoder_rle4k_cpu.Column.Verdict.{all_on}

module _ (lib : Libraries) (enc : Encoder) (args : EncodeFormatArgs) where
  -- The row was rasterized, its block hashed and packed, and its payload was verified.
  pub record RowVerified (rasterize : ℕ → ℕ → Result (Option Bitmap)) (col row : ℕ) : Type 0 where
    pub block : Option Bitmap
    pub digest : Digest
    pub payload : Option Bitmap
    pub rasterized : rasterize col row ≡ ok block
    pub hashed : digest_of block true ≡ some digest
    pub packed : Payload lib enc args block payload
    pub verified : Verified lib (get_supported_format enc) digest payload

  -- Repetitions that end with OK started with it, and each of their windows was OK.
  decode_repeats_sound :
      (digests : List Digest) (cache : List (Option Bitmap)) (n : ℕ) (all_ok : Bool)
      → decode_repeats lib enc args true digests cache n all_ok ≡ some true
      → all_ok ≡ true
  unfolding decode_repeats
  decode_repeats_sound digests cache zero all_ok e = some_injective e
  decode_repeats_sound digests cache (suc n) all_ok e =
      let (w_ok, e0, e1) =
        bind-eq-some (decode_window lib (get_supported_format enc) digests cache true) _ e in
      let rest : (if not w_ok then false else all_ok) ≡ true =
        decode_repeats_sound digests cache n (if not w_ok then false else all_ok) e1 in
      ground arith

  decode_repeats_first :
      (digests : List Digest) (cache : List (Option Bitmap)) (n : ℕ) (all_ok : Bool)
      → decode_repeats lib enc args true digests cache (suc n) all_ok ≡ some true
      → decode_window lib (get_supported_format enc) digests cache true ≡ some true
  unfolding decode_repeats
  decode_repeats_first digests cache n all_ok e =
      let (w_ok, e0, e1) =
        bind-eq-some (decode_window lib (get_supported_format enc) digests cache true) _ e in
      let rest : (if not w_ok then false else all_ok) ≡ true =
        decode_repeats_sound digests cache n (if not w_ok then false else all_ok) e1 in
      let fine : w_ok ≡ true = ground arith in e0 ∙ ap some fine

  module _ (keeps : KeepsBuffer lib (get_supported_format enc))
      (rasterize : ℕ → ℕ → Result (Option Bitmap)) (col : ℕ) where
    -- The rows of a window whose phase 3 passes.
    window_rows :
        (row0 nwin : ℕ) (raw : Raw) (ss : ℕ) (cache : List (Option Bitmap))
        → raster_window rasterize col row0 true nwin ≡ some (raw, ss)
        → Empties lib enc args raw.blocks cache
        → Filled lib enc args raw.blocks cache
        → decode_window lib (get_supported_format enc) raw.digests cache true ≡ some true
        → (i : ℕ) → i < nwin
        → RowVerified rasterize col (row0 + i)
    window_rows row0 nwin raw ss cache rastered empties filled passed i lt =
        let (digest_slots, block_slots, _, rows) =
          raster_window-RowDone rasterize col row0 true nwin rastered in
        let (row, made, digest_here, block_here) = rows i lt in
        let (came, hash) = raster_row-some rasterize col row0 i true row made in
        let (payload, payload_here, is_packed) = filled i row.1 block_here in
        let (all_ok, e, iff) =
          decode_window-iff-Verified lib (get_supported_format enc) raw.digests cache keeps
            (sym empties.slots ∙ block_slots ∙ sym digest_slots) in
        let fine : all_ok ≡ true = some_injective (sym e ∙ passed) in
        record {
          block = row.1;
          digest = row.0;
          payload = payload;
          rasterized = came;
          hashed = hash;
          packed = is_packed;
          verified = iff.0 fine i row.0 payload digest_here payload_here;
        }

    window_sound :
        (n row0 nwin : ℕ) (t t' : Totals)
        → window lib enc args (all_on n) rasterize col row0 nwin t ≡ some t'
        → t'.all_ok ≡ true
        → (t.all_ok ≡ true) × ((i : ℕ) → i < nwin → RowVerified rasterize col (row0 + i))
    unfolding window
    window_sound n row0 nwin t t' e fine =
        let (r, e0, e1) = bind-eq-some (raster_window rasterize col row0 true nwin) _ e in
        let (c, f0, f1) =
          bind-eq-some
            (encode_repeats lib enc args r.0.blocks (suc n) (replicate nwin none) t.cs_bytes_sum) _
            e1 in
        let (ok_now, g0, g1) =
          bind-eq-some (decode_repeats lib enc args true r.0.digests c.0 (suc n) t.all_ok) _ f1 in
        let same : ok_now ≡ true = ap (λ x. x.all_ok) (some_injective g1) ∙ fine in
        let passes = g0 ∙ ap some same in
        let (_, block_slots, _, _) = raster_window-RowDone rasterize col row0 true nwin e0 in
        let start : Empties lib enc args r.0.blocks (replicate nwin none) = record {
          slots = block_slots ∙ sym (length-replicate nwin none);
          empty = λ i h.
              get_elem?-replicate nwin i none
                (omega (arith, get_elem?-lt r.0.blocks i h, block_slots));
        } in
        let (empties, filled) =
          encode_repeats_first lib enc args r.0.blocks n (replicate nwin none) t.cs_bytes_sum c
            start f0 in
        (
          decode_repeats_sound r.0.digests c.0 (suc n) t.all_ok passes,
          window_rows row0 nwin r.0 r.1 c.0 e0 empties filled
              (decode_repeats_first r.0.digests c.0 n t.all_ok passes),
        )

    -- Each row before `row0` is verified, if nothing was wrong so far.
    abbrev SoFar : ℕ → Totals → Type 0
    SoFar row0 t = t.all_ok ≡ true → (row : ℕ) → row < row0 → RowVerified rasterize col row

    window-SoFar :
        (n row0 nwin : ℕ) (t t' : Totals)
        → SoFar row0 t
        → window lib enc args (all_on n) rasterize col row0 nwin t ≡ some t'
        → SoFar (row0 + nwin) t'
    window-SoFar n row0 nwin t t' before e fine row lt =
        let (fine_before, here) = window_sound n row0 nwin t t' e fine in
        elim (dec_lt row row0) [
          | yes earlier ↦ before fine_before row earlier
          | no later ↦
              let at : row0 + (row - row0) ≡ row = omega arith in
              subst (RowVerified rasterize col) at (here (row - row0) (omega arith))
        ]

-- A column never says OK in vain: where it returns with `all_ok`, and the phases and the check are on,
-- there is one repetition or more, a window has a row and a decoder keeps the size of its buffer, each of
-- its rows was rasterized, its block hashed and packed, and the payload of the row was verified.
pub column-RowVerified :
    (lib : Libraries) (enc : Encoder) (args : EncodeFormatArgs)
    (rasterize : ℕ → ℕ → Result (Option Bitmap)) (col cache_blocks nrows : ℕ) (switches : Switches)
    (t : Totals)
    → KeepsBuffer lib (get_supported_format enc)
    → 0 < cache_blocks
    → 0 < switches.repeat
    → switches.do_encode ≡ true
    → switches.do_decode ≡ true
    → switches.do_check ≡ true
    → column lib enc args switches rasterize col cache_blocks nrows ≡ some t
    → t.all_ok ≡ true
    → (row : ℕ) → row < nrows
    → RowVerified lib enc args rasterize col row
unfolding column
column-RowVerified lib enc args rasterize col cache_blocks nrows switches t keeps some_block
      some_repeat e d c ran =
    let count : suc (switches.repeat - 1) ≡ switches.repeat = omega arith in
    let on : switches ≡ all_on (switches.repeat - 1) =
      λ i. record { repeat = sym count i; do_encode = e i; do_decode = d i; do_check = c i } in
    let ran_on =
      subst
        (λ w.
          run_windows (window lib enc args w rasterize col) cache_blocks nrows nrows 0 no_totals
          ≡ some t)
        on ran in
    run_windows_inv (window lib enc args (all_on (switches.repeat - 1)) rasterize col) cache_blocks
      nrows (SoFar lib enc args keeps rasterize col) some_block
      (λ row0 nwin s s' _.
        window-SoFar lib enc args keeps rasterize col (switches.repeat - 1) row0 nwin s s')
      nrows 0 no_totals t (omega arith) (λ _ row lt. absurd (omega arith)) ran_on
