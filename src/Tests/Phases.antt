-- ===== src/Tests/Phases.antt =====
-- The phases of redcli at concrete windows.
use encoder_rle4k_cpu.Base.{
  ℕ, zero, suc, ◌+◌, ◌*◌, ◌≢◌, subst, some_injective, ◌<◌, ◌≡◌, ◌↔◌, refl, Bool, true, false, List,
  [], ◌∷◌, Option, some, none, arith, length, get_elem?, replicate, run_from, if◌then◌else◌,
}
use encoder_rle4k_cpu.Base.Int.{pos}
use encoder_rle4k_cpu.Bitmap.{Bitmap, Result, ok}
use encoder_rle4k_cpu.Libraries.Laws.{Recovers}
use encoder_rle4k_cpu.Encoder.{gzip, get_supported_format, process_pack}
use encoder_rle4k_cpu.Fnv.{rle4k_fnv1a64, fnv_loop, fnv_step}
use encoder_rle4k_cpu.Digest.{Digest, rle4k_make_digest, blank_digest}
use encoder_rle4k_cpu.Phase.Raster.{
  Raw, empty_window, digest_of, raster_row, raster_body, raster_window, total_bytes,
}
use encoder_rle4k_cpu.Phase.Raster.Parallel.{joined-raster_window}
use encoder_rle4k_cpu.Phase.Raster.Blocks.{RowDone, raster_window-RowDone}
use encoder_rle4k_cpu.Phase.Encode.{
  encode_write, encode_block_of, encode_row, encode_body, encode_window,
}
use encoder_rle4k_cpu.Phase.Encode.Parallel.{joined-encode_window}
use encoder_rle4k_cpu.Phase.Encode.Cache.{encode_window-rows}
use encoder_rle4k_cpu.Phase.Decode.{
  Decoded, decode_block_of, decode_row, decode_body, decode_start, verify_body, decode_window,
}
use encoder_rle4k_cpu.Phase.Decode.Parallel.{joined-decode_window}
use encoder_rle4k_cpu.Phase.Decode.Rounds.{Verified}
use encoder_rle4k_cpu.Phase.Decode.Verify.{decode_window-iff-Verified}
use encoder_rle4k_cpu.Phase.RoundTrip.{decode_window-encode_window}
use encoder_rle4k_cpu.Tests.Toy.{toy, block, levels, toy-Documented, toy-Recovers, toy-KeepsBuffer}
use encoder_rle4k_cpu.WorkerPool.{Pool, Step, alive}
use encoder_rle4k_cpu.WorkerPool.Halt.{Returns, joined-iff-Steps}
use encoder_rle4k_cpu.Tests.Pool.{one_row, joined}
use encoder_rle4k_cpu.Tests.Codecs.{packed, packed_lem}

abbrev rasterize : ℕ → ℕ → Result (Option Bitmap)
rasterize col row = ok (some block)

abbrev digest : Digest
digest = record {
  hash = 587824238076024253;
  width = 8;
  height = 2;
  stride = 1;
  nbytes = 2;
  valid = true;
}

abbrev raw : Raw
raw = record { digests = digest ∷ []; blocks = some block ∷ [] }

raster_body_lem : raster_body rasterize 0 0 true 0 (empty_window 1) ≡ some raw
unfolding raster_body raster_row digest_of rle4k_make_digest rle4k_fnv1a64 fnv_loop fnv_step
    empty_window
raster_body_lem = refl

joined-raster_window_example :
    raster_window rasterize 0 0 true 1 ≡ some (raw, total_bytes (some block ∷ []))
joined-raster_window_example =
    joined-raster_window rasterize 0 0 true 1 2 (omega arith) (omega arith)
      (one_row (raster_body rasterize 0 0 true) (empty_window 1) raw raster_body_lem) refl

raster_window_lem : raster_window rasterize 0 0 true 1 ≡ some (raw, 2)
unfolding raster_window run_from empty_window raster_body raster_row digest_of rle4k_make_digest
    rle4k_fnv1a64 fnv_loop fnv_step total_bytes
raster_window_lem = refl

raster_window-RowDone_example :
    (length raw.digests ≡ 1)
    × (length raw.blocks ≡ 1)
    × (◌≡◌ {A = ℕ} 2 (total_bytes raw.blocks))
    × ((i : ℕ) → i < 1 → RowDone rasterize 0 0 true raw i)
raster_window-RowDone_example = raster_window-RowDone rasterize 0 0 true 1 raster_window_lem

abbrev cache : List (Option Bitmap)
cache = some packed ∷ []

encode_body_lem : encode_body toy gzip levels (some block ∷ []) 0 (none ∷ []) ≡ some cache
unfolding encode_body encode_row encode_block_of
encode_body_lem = rw packed_lem refl

joined-encode_window_example :
    encode_window toy gzip levels (some block ∷ []) (none ∷ []) ≡ some (cache, total_bytes cache)
joined-encode_window_example =
    joined-encode_window toy gzip levels (some block ∷ []) (none ∷ []) 2 (omega arith) (omega arith)
      (one_row (encode_body toy gzip levels (some block ∷ [])) (none ∷ []) cache encode_body_lem)
      refl

-- Phase 2 at the one row: whatever is in the cache, the block is packed.
encode_body-Returns :
    Returns
      (encode_body toy gzip levels (some block ∷ []))
      1
      (λ (s : List (Option Bitmap)). Unit {0})
unfolding encode_body encode_row encode_block_of
encode_body-Returns zero s lt holds = (encode_write 0 (some packed) s, rw packed_lem refl, tt)
encode_body-Returns (suc i) s lt holds = absurd (omega arith)

joined-iff-Steps_example :
    ((alive (joined cache).workers ≡ 0) ↔ (4 ≡ 2 * 1 + 2))
    × ((alive (joined cache).workers ≢ 0)
        → (r : Pool (List (Option Bitmap))) × Step
            (encode_body toy gzip levels (some block ∷ []))
            (joined cache)
            r)
joined-iff-Steps_example =
    joined-iff-Steps (encode_body toy gzip levels (some block ∷ [])) 1 2 (none ∷ []) (λ s. Unit {0})
      encode_body-Returns tt (omega arith) (omega arith)
      (one_row (encode_body toy gzip levels (some block ∷ [])) (none ∷ []) cache encode_body_lem)

encode_window_lem :
    encode_window toy gzip levels (some block ∷ []) (replicate 1 none) ≡ some (cache, 2)
unfolding encode_window run_from encode_body encode_row encode_block_of total_bytes
encode_window_lem = rw packed_lem refl

encode_window-rows_example :
    (length cache ≡ 1)
    × (◌≡◌ {A = ℕ} 2 (total_bytes cache))
    × ((i : ℕ)
        → get_elem? (some block ∷ []) i ≡ some none
        → get_elem? cache i ≡ get_elem? (none ∷ []) i)
    × ((i : ℕ) (b : Bitmap)
        → get_elem? (some block ∷ []) i ≡ some (some b)
        → (e : Bitmap) × (process_pack toy gzip (some b) levels ≡ ok e)
          × (get_elem? cache i ≡ some (some e)))
encode_window-rows_example =
    encode_window-rows toy gzip levels (some block ∷ []) (none ∷ []) refl encode_window_lem

-- A digest that is not valid is skipped.
abbrev skipped : Decoded
skipped = record { check_bufs = [] ∷ []; decoded_ok = false ∷ []; ok = true }

decode_body_lem :
    decode_body toy (pos 0x7) (blank_digest ∷ []) cache true 0 (decode_start true 1) ≡ some skipped
unfolding decode_body decode_row decode_block_of decode_start
decode_body_lem = refl

joined-decode_window_example : decode_window toy (pos 0x7) (blank_digest ∷ []) cache true ≡ (
    if true
    then run_from (verify_body (pos 0x7) (blank_digest ∷ []) skipped) 1 0 true
    else some true)
joined-decode_window_example =
    joined-decode_window toy (pos 0x7) true (blank_digest ∷ []) cache 2 (omega arith) (omega arith)
      (one_row (decode_body toy (pos 0x7) (blank_digest ∷ []) cache true) (decode_start true 1)
        skipped decode_body_lem)
      refl

decode_window-iff-Verified_example :
    (all_ok : Bool) × (decode_window toy (pos 0x7) (digest ∷ []) cache true ≡ some all_ok)
    × ((all_ok ≡ true) ↔ (
        (i : ℕ) (dig : Digest) (e : Option Bitmap)
        → get_elem? (digest ∷ []) i ≡ some dig
        → get_elem? cache i ≡ some e
        → Verified toy (pos 0x7) dig e))
decode_window-iff-Verified_example =
    decode_window-iff-Verified toy (pos 0x7) (digest ∷ []) cache toy-KeepsBuffer refl

each_block : (i : ℕ) (b : Bitmap) → get_elem? raw.blocks i ≡ some (some b) → Recovers toy b gzip
each_block zero b e =
    subst (λ x. Recovers toy x gzip) (some_injective (some_injective e)) toy-Recovers
each_block (suc i) b e = cc e

decode_window-encode_window_example :
    decode_window toy (get_supported_format gzip) (digest ∷ []) cache true ≡ some true
unfolding get_supported_format
decode_window-encode_window_example =
    decode_window-encode_window toy gzip levels rasterize 0 0 1 (none ∷ []) toy-Documented
      toy-KeepsBuffer each_block raster_window_lem refl encode_window_lem
