-- ===== src/Phase/Raster/Blocks.antt =====
-- What the window of redcli/main.cpp holds after phase 1, row by row.
use encoder_rle4k_cpu.Base.{
  ℕ, suc, ◌<◌, ◌≡◌, refl, ◌∙◌, Bool, Option, some, arith, get_elem?, length, length-set,
  length-replicate, get_elem?-set_self, get_elem?-set_ne, bind-eq-some, run_from, ℕ_discrete,
}
use encoder_rle4k_cpu.Bitmap.{Bitmap, Result}
use encoder_rle4k_cpu.Digest.{Digest}
use encoder_rle4k_cpu.Phase.Slots.{run_from_inv}
use encoder_rle4k_cpu.Phase.Raster.{
  Raw, empty_window, raster_row, raster_write, raster_body, raster_window, total_bytes,
}

module _ (rasterize : ℕ → ℕ → Result (Option Bitmap)) (col row0 : ℕ) (do_hash : Bool) where
  -- Row `i` of the window is rasterized, and its block and digest stand in their slots.
  abbrev pub RowDone : Raw → ℕ → Type 0
  RowDone s i =
      (row : Digest × Option Bitmap) × (raster_row rasterize col row0 do_hash i ≡ some row)
      × (get_elem? s.digests i ≡ some row.0)
      × (get_elem? s.blocks i ≡ some row.1)

  record Progress (nwin k : ℕ) (s : Raw) : Type 0 where
    digest_slots : length s.digests ≡ nwin
    block_slots : length s.blocks ≡ nwin
    rows : (i : ℕ) → i < k → RowDone s i

  module _ (nwin : ℕ) where
    write-RowDone :
        (k i : ℕ) (s : Raw) (row : Digest × Option Bitmap)
        → k < nwin
        → Progress nwin k s
        → raster_row rasterize col row0 do_hash k ≡ some row
        → i < suc k
        → RowDone (raster_write k row s) i
    write-RowDone k i s row lt p e below = elim (ℕ_discrete k i) [
      | yes same ↦ (
        row,
        rw (← same) e,
        rw (← same) (get_elem?-set_self s.digests k row.0 (omega (arith, p.digest_slots))),
        rw (← same) (get_elem?-set_self s.blocks k row.1 (omega (arith, p.block_slots))),
      )
      | no other ↦
          let (old, e0, e1, e2) = p.rows i (omega arith) in
          (
            old,
            e0,
            get_elem?-set_ne s.digests row.0 other ∙ e1,
            get_elem?-set_ne s.blocks row.1 other ∙ e2,
          )
    ]

    body-Progress :
        (k : ℕ) (s s' : Raw)
        → k < nwin
        → Progress nwin k s
        → raster_body rasterize col row0 do_hash k s ≡ some s'
        → Progress nwin (suc k) s'
    unfolding raster_body
    body-Progress k s s' lt p e =
        let (row, e0, e1) = bind-eq-some (raster_row rasterize col row0 do_hash k) _ e in
        let e2 : raster_write k row s ≡ s' = cc in
        rw (← e2) (record {
          digest_slots = length-set s.digests k row.0 ∙ p.digest_slots;
          block_slots = length-set s.blocks k row.1 ∙ p.block_slots;
          rows = λ i. write-RowDone k i s row lt p e0;
        })

-- When the phase returns, every row of the window has been rasterized at its place in the column, its
-- bitmap (or none) and its digest stand in the row's slots, and `ss_bytes` is the sum of their lengths.
pub raster_window-RowDone :
    (rasterize : ℕ → ℕ → Result (Option Bitmap)) (col row0 : ℕ) (do_hash : Bool) (nwin : ℕ)
    {raw : Raw} {ss_bytes : ℕ}
    → raster_window rasterize col row0 do_hash nwin ≡ some (raw, ss_bytes)
    → (length raw.digests ≡ nwin)
      × (length raw.blocks ≡ nwin)
      × (ss_bytes ≡ total_bytes raw.blocks)
      × ((i : ℕ) → i < nwin → RowDone rasterize col row0 do_hash raw i)
unfolding raster_window empty_window
raster_window-RowDone rasterize col row0 do_hash nwin {raw} {ss_bytes} e =
    let (s, e0, e1) =
      bind-eq-some (run_from (raster_body rasterize col row0 do_hash) nwin 0 (empty_window nwin)) _
        e in
    let same : s ≡ raw = cc in
    let bytes : total_bytes s.blocks ≡ ss_bytes = cc in
    let p : Progress rasterize col row0 do_hash nwin nwin s =
      run_from_inv (raster_body rasterize col row0 do_hash)
        (Progress rasterize col row0 do_hash nwin) nwin
        (body-Progress rasterize col row0 do_hash nwin) nwin 0 _ s (omega arith)
        (record {
          digest_slots = length-replicate nwin _;
          block_slots = length-replicate nwin _;
          rows = λ i lt. absurd (omega arith);
        })
        e0 in
    rw (← same, ← bytes) (p.digest_slots, p.block_slots, refl, p.rows)
