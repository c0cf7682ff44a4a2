-- ===== src/Phase/Raster.antt =====
-- Phase 1 (`rle4k_phase_raster_window` of redcli/main.cpp): rasterize a window of row blocks. The
-- times that it measures are in Phase/Times.
pub mod Parallel
pub mod Blocks
use encoder_rle4k_cpu.Base.{
  ℕ, zero, suc, ◌+◌, Bool, List, [], ◌∷◌, Option, none, some, set, replicate, ◌>>=◌, run_from,
}
use encoder_rle4k_cpu.Bitmap.{Bitmap, Result, ok, throw}
use encoder_rle4k_cpu.Phase.Slots.{slot_body}
use encoder_rle4k_cpu.Digest.{Digest, blank_digest, rle4k_make_digest}

-- What the workers share: a slot of each vector for each row of the window.
pub record Raw : Type 0 where
  pub digests : List Digest
  pub blocks : List (Option Bitmap)

-- A worker that throws ends the program: its phase has no result.
abbrev pub returned {ℓ} : {A : Type ℓ} → Result A → Option A
returned (ok a) = some a
returned (throw _) = none

-- `block ? rle4k_make_digest(*block, do_hash) : rle4k_block_digest{}`
unfoldable pub digest_of : Option Bitmap → Bool → Option Digest
unfolding rle4k_make_digest
digest_of none do_hash = some blank_digest
digest_of (some b) do_hash = rle4k_make_digest b do_hash

unfoldable pub empty_window : ℕ → Raw
empty_window nwin = record { digests = replicate nwin blank_digest; blocks = replicate nwin none }

-- `for (auto& b : raw) if (b) ss_bytes += b->data_length;`, also for the encoded blocks
unfoldable pub total_bytes : List (Option Bitmap) → ℕ
total_bytes [] = 0
total_bytes (none ∷ bs) = total_bytes bs
total_bytes (some b ∷ bs) = b.data_length + total_bytes bs

-- `digests[local] = …; raw[local] = std::move(block);`
abbrev pub raster_write : ℕ → Digest × Option Bitmap → Raw → Raw
raster_write local row shared = record {
  digests = set shared.digests local row.0;
  blocks = set shared.blocks local row.1;
}

-- `rasterize col row` is `rle4k_rasterize_block` on the document, at the run's pitch and block size.
module _ (rasterize : ℕ → ℕ → Result (Option Bitmap)) (col row0 : ℕ) (do_hash : Bool) where
  -- What a worker computes after it has popped `local`, and where it puts it.
  unfoldable pub raster_row : ℕ → Option (Digest × Option Bitmap)
  unfolding digest_of
  raster_row local = do
    block ← returned (rasterize col (row0 + local))
    digest ← digest_of block do_hash
    some (digest, block)

  unfoldable pub raster_body : ℕ → Raw → Option Raw
  unfolding raster_row
  raster_body = slot_body raster_row raster_write

  -- The window's blocks and digests, and the bytes of its source.
  unfoldable pub raster_window : ℕ → Option (Raw × ℕ)
  unfolding raster_body empty_window total_bytes run_from
  raster_window nwin = do
    raw ← run_from raster_body nwin 0 (empty_window nwin)
    some (raw, total_bytes raw.blocks)
