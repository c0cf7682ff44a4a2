-- ===== src/Column/Good.antt =====
-- Columns of redcli/main.cpp whose blocks can be rasterized, hashed and packed, and phases 1 and 2 on
-- their windows.
use encoder_rle4k_cpu.Base.{
  ℕ, ◌+◌, ◌≤◌, ◌<◌, ◌≡◌, refl, ◌∙◌, ap, sym, subst, inl, inr, Bool, List, Option, none, some, arith,
  get_elem?, length, get_elem?-lt, get_elem?-some, some_injective, Bool-cases, ◌||◌, ◌==◌,
}
use encoder_rle4k_cpu.Bitmap.{Bitmap, contents, is_null, EncodeFormatArgs, Result, ok}
use encoder_rle4k_cpu.Libraries.{Libraries}
use encoder_rle4k_cpu.Libraries.Laws.{Recovers}
use encoder_rle4k_cpu.Encoder.{Encoder, process_pack}
use encoder_rle4k_cpu.Fnv.Detect.{rle4k_fnv1a64-some}
use encoder_rle4k_cpu.Digest.{Digest, blank_digest, unhashed, rle4k_make_digest}
use encoder_rle4k_cpu.Phase.Slots.{run_from_total}
use encoder_rle4k_cpu.Phase.Raster.{
  Raw, digest_of, empty_window, raster_row, raster_write, raster_body, raster_window, total_bytes,
}
use encoder_rle4k_cpu.Phase.Raster.Blocks.{raster_window-RowDone}
use encoder_rle4k_cpu.Phase.Encode.{
  encode_block_of, encode_row, encode_write, encode_body, encode_window,
}
use encoder_rle4k_cpu.Phase.RoundTrip.{raster_row-some}

module _ (lib : Libraries) (enc : Encoder) (args : EncodeFormatArgs) where
  -- A block that is there has its bytes, is packed without an exception, and can be recovered.
  abbrev pub GoodBlock : Option Bitmap → Type 0
  GoodBlock none = Unit {0}
  GoodBlock (some b) =
      (b.data_length ≤ length (contents b.bytes))
      × ((e : Bitmap) × (process_pack lib enc (some b) args ≡ ok e))
      × Recovers lib b enc

  -- The rasterizer returns at each of the first `nrows` rows, and its block is good.
  abbrev pub GoodColumn : (ℕ → ℕ → Result (Option Bitmap)) → ℕ → ℕ → Type 0
  GoodColumn rasterize col nrows =
      (row : ℕ)
      → row < nrows
      → (block : Option Bitmap) × (rasterize col row ≡ ok block) × GoodBlock block

  digest_of_total :
      (block : Option Bitmap) (do_hash : Bool)
      → GoodBlock block
      → (digest : Digest) × (digest_of block do_hash ≡ some digest)
  unfolding digest_of rle4k_make_digest
  digest_of_total none do_hash good = (blank_digest, refl)
  digest_of_total (some b) do_hash good =
      elim (Bool-cases (is_null b.bytes || b.width == 0 || b.height == 0)) [
        | inl bad ↦ (blank_digest, rw bad refl)
        | inr fine ↦ elim (Bool-cases do_hash) [
          | inl hashed ↦
              let (h, e) = rle4k_fnv1a64-some (contents b.bytes) b.data_length good.0 in
              ((record (unhashed b) { hash = h }), rw (fine, hashed, e) refl)
          | inr skipped ↦ (unhashed b, rw (fine, skipped) refl)
        ]
      ]

  module _ (rasterize : ℕ → ℕ → Result (Option Bitmap)) (col nrows : ℕ)
      (good : GoodColumn rasterize col nrows) where
    raster_row_total :
        (row0 i : ℕ) (do_hash : Bool)
        → row0 + i < nrows
        → (row : Digest × Option Bitmap) × (raster_row rasterize col row0 do_hash i ≡ some row)
    unfolding raster_row
    raster_row_total row0 i do_hash lt =
        let (block, e, fine) = good (row0 + i) lt in
        let (digest, d) = digest_of_total block do_hash fine in ((digest, block), rw (e, d) refl)

    -- Phase 1 returns on a window of the column.
    pub raster_window_total :
        (row0 nwin : ℕ) (do_hash : Bool)
        → row0 + nwin ≤ nrows
        → (r : Raw × ℕ) × (raster_window rasterize col row0 do_hash nwin ≡ some r)
    unfolding raster_window raster_body
    raster_window_total row0 nwin do_hash inside =
        let (raw, e, _) =
          run_from_total (raster_body rasterize col row0 do_hash) (λ i s. Unit {0}) nwin
            (λ i s lt _.
              let (row, made) = raster_row_total row0 i do_hash (omega arith) in
              (raster_write i row s, rw made refl, tt))
            nwin 0 (empty_window nwin) (omega arith) tt in
        ((raw, total_bytes raw.blocks), rw e refl)

    -- Every block of a window that phase 1 made is good.
    pub raster_window-GoodBlock :
        (row0 nwin : ℕ) (do_hash : Bool) {raw : Raw} {ss_bytes : ℕ}
        → row0 + nwin ≤ nrows
        → raster_window rasterize col row0 do_hash nwin ≡ some (raw, ss_bytes)
        → (i : ℕ) (block : Option Bitmap) → get_elem? raw.blocks i ≡ some block
        → GoodBlock block
    raster_window-GoodBlock row0 nwin do_hash {raw} inside rastered i block here =
        let (_, slots, _, rows) = raster_window-RowDone rasterize col row0 do_hash nwin rastered in
        let below : i < nwin = omega (arith, get_elem?-lt raw.blocks i here, slots) in
        let (row, made, _, there) = rows i below in
        let (came, _) = raster_row-some rasterize col row0 i do_hash row made in
        let (b, e, fine) = good (row0 + i) (omega arith) in
        let same : ok b ≡ ok block = sym e ∙ came ∙ ap ok (some_injective (sym there ∙ here)) in
        let eq : b ≡ block = cc in subst GoodBlock eq fine

  encode_block_of_total :
      (block : Option Bitmap)
      → GoodBlock block
      → (out : Option Bitmap) × (encode_block_of lib enc args block ≡ some out)
  unfolding encode_block_of
  encode_block_of_total none good = (none, refl)
  encode_block_of_total (some b) (_, (e, packed), _) = (some e, rw packed refl)

  -- Phase 2 returns on good blocks.
  pub encode_window_total :
      (raw cache0 : List (Option Bitmap))
      → ((i : ℕ) (block : Option Bitmap) → get_elem? raw i ≡ some block → GoodBlock block)
      → (c : List (Option Bitmap) × ℕ) × (encode_window lib enc args raw cache0 ≡ some c)
  unfolding encode_window encode_body encode_row
  encode_window_total raw cache0 good =
      let (cache, e, _) =
        run_from_total (encode_body lib enc args raw) (λ i s. Unit {0}) (length raw) keep
          (length raw) 0 cache0 (omega arith) tt in
      ((cache, total_bytes cache), rw e refl)
    where
      keep :
          (i : ℕ) (s : List (Option Bitmap))
          → i < length raw
          → Unit {0}
          → (s' : List (Option Bitmap)) × (encode_body lib enc args raw i s ≡ some s') × Unit {0}
      keep i s lt _ =
          let (block, here) = get_elem?-some raw i lt in
          let (out, e) = encode_block_of_total block (good i block here) in
          (encode_write i out s, rw (here, e) refl, tt)
