-- ===== src/Column/Verdict.antt =====
-- What a column of redcli/main.cpp reports with every phase and the check on.
use encoder_rle4k_cpu.Base.{
  ℕ, zero, ◌-◌, subst, suc, ◌+◌, ◌≤◌, ◌<◌, ◌≡◌, refl, ◌∙◌, sym, Bool, true, List, Option, none,
  some, arith, length, replicate, length-replicate,
}
use encoder_rle4k_cpu.Bitmap.{Bitmap, EncodeFormatArgs, Result}
use encoder_rle4k_cpu.Libraries.{Libraries}
use encoder_rle4k_cpu.Libraries.Laws.{Documented}
use encoder_rle4k_cpu.Encoder.{Encoder, get_supported_format}
use encoder_rle4k_cpu.Digest.{Digest}
use encoder_rle4k_cpu.Phase.Raster.{Raw, raster_window}
use encoder_rle4k_cpu.Phase.Raster.Blocks.{raster_window-RowDone}
use encoder_rle4k_cpu.Phase.Encode.Cache.{encode_window-rows}
use encoder_rle4k_cpu.Phase.Decode.{decode_window}
use encoder_rle4k_cpu.Phase.Decode.Rounds.{KeepsBuffer}
use encoder_rle4k_cpu.Phase.RoundTrip.{decode_window-encode_window}
use encoder_rle4k_cpu.Column.{
  Switches, Totals, no_totals, encode_repeats, decode_repeats, window, column, run_windows,
}
use encoder_rle4k_cpu.Column.Windows.{run_windows_total}
use encoder_rle4k_cpu.Column.Good.{
  GoodColumn, raster_window_total, raster_window-GoodBlock, encode_window_total,
}

abbrev pub all_on : ℕ → Switches
all_on repeat = record { repeat = suc repeat; do_encode = true; do_decode = true; do_check = true }

module _ (lib : Libraries) (enc : Encoder) (args : EncodeFormatArgs) where
  decode_repeats-true :
      (digests : List Digest) (cache : List (Option Bitmap)) (n : ℕ) (all_ok : Bool)
      → decode_window lib (get_supported_format enc) digests cache true ≡ some true
      → decode_repeats lib enc args true digests cache n all_ok ≡ some all_ok
  unfolding decode_repeats
  decode_repeats-true digests cache zero all_ok e = refl
  decode_repeats-true digests cache (suc n) all_ok e =
      rw e (decode_repeats-true digests cache n all_ok e)

  module _ (doc : Documented lib) (keeps : KeepsBuffer lib (get_supported_format enc)) where
    module _ (rasterize : ℕ → ℕ → Result (Option Bitmap)) (col nrows : ℕ)
        (good : GoodColumn lib enc args rasterize col nrows) where
      -- After one repetition or more the cache passes the check.
      encode_repeats_total :
          (row0 nwin : ℕ) {raw : Raw} {ss_bytes : ℕ}
          → row0 + nwin ≤ nrows
          → raster_window rasterize col row0 true nwin ≡ some (raw, ss_bytes)
          → (n : ℕ) (cache : List (Option Bitmap)) (cs : ℕ) → length cache ≡ nwin
          → (c : List (Option Bitmap) × ℕ) × (encode_repeats lib enc args raw.blocks
                (suc n)
                cache
                cs
              ≡ some c)
            × (decode_window lib (get_supported_format enc) raw.digests c.0 true ≡ some true)
      unfolding encode_repeats
      encode_repeats_total row0 nwin {raw} inside rastered zero cache cs slots =
          let fine =
            raster_window-GoodBlock lib enc args rasterize col nrows good row0 nwin true inside
              rastered in
          let (c, e) = encode_window_total lib enc args raw.blocks cache fine in
          (
            (c.0, cs + c.1),
            rw e refl,
            decode_window-encode_window lib enc args rasterize col row0 nwin cache doc keeps
                (λ i b here. (fine i (some b) here).2) rastered slots e,
          )
      encode_repeats_total row0 nwin {raw} inside rastered (suc n) cache cs slots =
          let fine =
            raster_window-GoodBlock lib enc args rasterize col nrows good row0 nwin true inside
              rastered in
          let (c, e) = encode_window_total lib enc args raw.blocks cache fine in
          let (_, block_slots, _, _) =
            raster_window-RowDone rasterize col row0 true nwin rastered in
          let (kept, _, _, _) =
            encode_window-rows lib enc args raw.blocks cache (block_slots ∙ sym slots) e in
          let (c', e', ok') =
            encode_repeats_total row0 nwin inside rastered n c.0 (cs + c.1) (kept ∙ slots) in
          (c', rw e e', ok')

      window_total :
          (repeat row0 nwin : ℕ) (t : Totals)
          → row0 + nwin ≤ nrows
          → t.all_ok ≡ true
          → (t' : Totals) × (window lib enc args (all_on repeat) rasterize col row0 nwin t
              ≡ some t')
            × (t'.all_ok ≡ true)
      unfolding window
      window_total repeat row0 nwin t inside fine =
          let (r, e) =
            raster_window_total lib enc args rasterize col nrows good row0 nwin true inside in
          let (c, e1, verified) =
            encode_repeats_total row0 nwin inside e repeat (replicate nwin none) t.cs_bytes_sum
              (length-replicate nwin none) in
          let passed = decode_repeats-true r.0.digests c.0 (suc repeat) t.all_ok verified in
          (
            (record { ss_bytes = t.ss_bytes + r.1; cs_bytes_sum = c.1; all_ok = t.all_ok }),
            rw (e, e1, passed) refl,
            fine,
          )

-- With every phase and the check on, one repetition or more, and windows of one row or more, a column
-- returns, and its `all_ok` is true: for each of the six encoders, where libraster and the codecs do
-- what they document, a decoder keeps the size of its buffer, and at each row the rasterizer returns
-- and its block, if any, has its bytes, is packed without an exception and is recovered by its codec.
pub column-all_ok :
    (lib : Libraries) (enc : Encoder) (args : EncodeFormatArgs)
    (rasterize : ℕ → ℕ → Result (Option Bitmap)) (col cache_blocks nrows : ℕ) (switches : Switches)
    → Documented lib
    → KeepsBuffer lib (get_supported_format enc)
    → GoodColumn lib enc args rasterize col nrows
    → 0 < cache_blocks
    → 0 < switches.repeat
    → switches.do_encode ≡ true
    → switches.do_decode ≡ true
    → switches.do_check ≡ true
    → (t : Totals) × (column lib enc args switches rasterize col cache_blocks nrows ≡ some t)
      × (t.all_ok ≡ true)
unfolding column
column-all_ok lib enc args rasterize col cache_blocks nrows switches doc keeps good some_block
      some_repeat e d c =
    let count : suc (switches.repeat - 1) ≡ switches.repeat = omega arith in
    let on : all_on (switches.repeat - 1) ≡ switches = λ i. record {
      repeat = count i;
      do_encode = sym e i;
      do_decode = sym d i;
      do_check = sym c i;
    } in
    subst
      (λ w.
        (t : Totals) × (run_windows (window lib enc args w rasterize col) cache_blocks nrows nrows 0
            no_totals
          ≡ some t)
        × (t.all_ok ≡ true))
      on
      (run_windows_total _ cache_blocks nrows (λ row0 t. t.all_ok ≡ true) some_block
        (λ row0 nwin t _.
          window_total lib enc args doc keeps rasterize col nrows good (switches.repeat - 1) row0
            nwin t)
        nrows 0 no_totals (omega arith) (omega arith) refl)
