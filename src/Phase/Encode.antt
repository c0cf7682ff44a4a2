-- ===== src/Phase/Encode.antt =====
-- Phase 2 (`rle4k_phase_encode_window` of redcli/main.cpp): encode a window.
pub mod Parallel
pub mod Cache
use encoder_rle4k_cpu.Base.{
  ℕ, ◌+◌, List, Option, none, some, get_elem?, set, length, ◌>>=◌, run_from,
}
use encoder_rle4k_cpu.Bitmap.{Bitmap, EncodeFormatArgs}
use encoder_rle4k_cpu.Libraries.{Libraries}
use encoder_rle4k_cpu.Encoder.{Encoder, process_pack}
use encoder_rle4k_cpu.Phase.Slots.{slot_body}
use encoder_rle4k_cpu.Phase.Raster.{returned, total_bytes}

-- The slot of a row that `continue` skips stays.
abbrev pub encode_write : ℕ → Option Bitmap → List (Option Bitmap) → List (Option Bitmap)
encode_write local none cache = cache
encode_write local (some e) cache = set cache local (some e)

module _ (lib : Libraries) (enc : Encoder) (args : EncodeFormatArgs) where
  -- `if (!raw[local]) continue;`, and otherwise pack the block.
  unfoldable pub encode_block_of : Option Bitmap → Option (Option Bitmap)
  encode_block_of none = some none
  encode_block_of (some b) = do e ← returned (process_pack lib enc (some b) args); some (some e)

  module _ (raw : List (Option Bitmap)) where
    unfoldable pub encode_row : ℕ → Option (Option Bitmap)
    unfolding encode_block_of
    encode_row local = do block ← get_elem? raw local; encode_block_of block

    unfoldable pub encode_body : ℕ → List (Option Bitmap) → Option (List (Option Bitmap))
    unfolding encode_row
    encode_body = slot_body encode_row encode_write

    -- The window's encoded blocks, over those of the repetition before, and their bytes.
    unfoldable pub encode_window : List (Option Bitmap) → Option (List (Option Bitmap) × ℕ)
    unfolding encode_body total_bytes run_from
    encode_window enc_cache = do
      cache ← run_from encode_body (length raw) 0 enc_cache
      some (cache, total_bytes cache)
