-- ===== src/Column.antt =====
-- One column of a run of redcli/main.cpp (`rle4k_cmd_run`): its windows, and the repetitions of the
-- phases on each. The sums are integers far below 2 ^ 53, which `double` adds exactly.
pub mod Windows
pub mod Good
pub mod Verdict
pub mod Filled
pub mod Sound
use encoder_rle4k_cpu.Base.{
  ℕ, zero, suc, ◌+◌, ◌-◌, Bool, true, false, not, List, Option, none, some, replicate, ltb, ◌>>=◌,
  if◌then◌else◌,
}
use encoder_rle4k_cpu.Bitmap.{Bitmap, EncodeFormatArgs, Result}
use encoder_rle4k_cpu.Libraries.{Libraries}
use encoder_rle4k_cpu.Encoder.{Encoder, get_supported_format}
use encoder_rle4k_cpu.Digest.{Digest}
use encoder_rle4k_cpu.Phase.Raster.{Raw, raster_window}
use encoder_rle4k_cpu.Phase.Encode.{encode_window}
use encoder_rle4k_cpu.Phase.Decode.{decode_window}

-- `std::min(cache_blocks, nrows - row0)`
unfoldable pub window_size : ℕ → ℕ → ℕ → ℕ
window_size cache_blocks nrows row0 =
    if ltb (nrows - row0) cache_blocks then nrows - row0 else cache_blocks

-- `for (int row0 = 0; row0 < nrows; row0 += cache_blocks)`, from `row0` on; a round for each unit of
-- fuel, and `none` where it runs out.
module _ {ℓ} {S : Type ℓ} (body : ℕ → ℕ → S → Option S) (cache_blocks nrows : ℕ) where
  unfoldable pub run_windows : ℕ → ℕ → S → Option S
  run_windows zero row0 s = if ltb row0 nrows then none else some s
  run_windows (suc fuel) row0 s =
      let rest =
        body row0 (window_size cache_blocks nrows row0) s
        >>= run_windows fuel (row0 + cache_blocks) in
      if ltb row0 nrows then rest else some s

-- The switches of the run.
pub record Switches : Type 0 where
  pub repeat : ℕ
  pub do_encode : Bool
  pub do_decode : Bool
  pub do_check : Bool

-- `ss_bytes`, `cs_bytes_sum` and `all_ok`.
pub record Totals : Type 0 where
  pub ss_bytes : ℕ
  pub cs_bytes_sum : ℕ
  pub all_ok : Bool

abbrev pub no_totals : Totals
no_totals = record { ss_bytes = 0; cs_bytes_sum = 0; all_ok = true }

module _ (lib : Libraries) (enc : Encoder) (args : EncodeFormatArgs) where
  -- The repetitions of phase 2, over one cache.
  unfoldable pub encode_repeats :
      List (Option Bitmap) → ℕ → List (Option Bitmap) → ℕ → Option (List (Option Bitmap) × ℕ)
  encode_repeats raw zero enc_cache cs = some (enc_cache, cs)
  encode_repeats raw (suc n) enc_cache cs = do
    w ← encode_window lib enc args raw enc_cache
    encode_repeats raw n w.0 (cs + w.1)

  -- The repetitions of phase 3.
  unfoldable pub decode_repeats : Bool → List Digest → List (Option Bitmap) → ℕ → Bool → Option Bool
  decode_repeats check digests enc_cache zero all_ok = some all_ok
  decode_repeats check digests enc_cache (suc n) all_ok = do
    w_ok ← decode_window lib (get_supported_format enc) digests enc_cache check
    decode_repeats check digests enc_cache n (if not w_ok then false else all_ok)

  module _ (switches : Switches) (rasterize : ℕ → ℕ → Result (Option Bitmap)) (col : ℕ) where
    -- `none` where an exception ends the program.
    unfoldable pub window : ℕ → ℕ → Totals → Option Totals
    window row0 nwin t = do
      r ← raster_window rasterize col row0 switches.do_check nwin
      c ←
          if switches.do_encode
          then encode_repeats r.0.blocks switches.repeat (replicate nwin none) t.cs_bytes_sum
          else some (replicate nwin none, t.cs_bytes_sum)
      ok ←
          if switches.do_decode
          then decode_repeats switches.do_check r.0.digests c.0 switches.repeat t.all_ok
          else some t.all_ok
      some (record { ss_bytes = t.ss_bytes + r.1; cs_bytes_sum = c.1; all_ok = ok })

    -- A window has a row at least, so there are no more windows than rows.
    unfoldable pub column : ℕ → ℕ → Option Totals
    column cache_blocks nrows = run_windows window cache_blocks nrows nrows 0 no_totals
