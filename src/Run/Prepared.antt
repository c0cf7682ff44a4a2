-- ===== src/Run/Prepared.antt =====
-- What a run of redcli/main.cpp prepares before its first file: the strip width and the buffers.
use encoder_rle4k_cpu.Base.{
  ℕ, zero, suc, refl, ◌+◌, ◌*◌, ◌/◌, ◌^◌, ◌≤◌, ◌<◌, ◌≡◌, ap, ◌∙◌, some, true, arith, if◌then◌else◌,
}
use encoder_rle4k_cpu.Base.Int.{pos, as_uint32}
use encoder_rle4k_cpu.Double.{Double}
use encoder_rle4k_cpu.System.{System, World}
use encoder_rle4k_cpu.BufferPool.{Manager, get_memory_buffer_size, initialize}
use encoder_rle4k_cpu.BufferPool.Helpers.{initialize_global_buffer_manager}
use encoder_rle4k_cpu.BufferPool.Sizes.{get_memory_buffer_size-holds}
use encoder_rle4k_cpu.Config.{BenchConfig}
use encoder_rle4k_cpu.Run.Geometry.{with_strip_width}
use encoder_rle4k_cpu.Run.Sizes.{with_strip_width-aligned}
use encoder_rle4k_cpu.Run.Command.{prepare_buffers}

mul_le : (h : ℕ) {a b : ℕ} → a ≤ b → a * h ≤ b * h
mul_le zero le = omega arith
mul_le (suc h) le = omega (arith, mul_le h le)

-- The size that is published covers the request, and does not go down.
initialize-bounds :
    (strip_width block_height : ℕ) (m : Manager)
    → let after = initialize strip_width block_height m in
      (after.initialized ≡ true)
      × (get_memory_buffer_size strip_width block_height ≤ after.current_buffer_size)
      × ((if m.initialized then m.current_buffer_size else 0) ≤ after.current_buffer_size)
unfolding initialize
initialize-bounds strip_width block_height m = (ground arith, ground arith, ground arith)

module _ (D : Double) (S : System) where
  -- After a run has prepared its buffers, a buffer of the preferred size holds a bit for each pixel of a
  -- block, where the strip is short of 2 ^ 32 - 511 pixels and the size short of 2 ^ 32. A manager that
  -- was initialized keeps its size or raises it.
  prepare_buffers-holds :
      (cfg : BenchConfig D.W) (w : World S) (width height : ℕ)
      → cfg.strip_width ≡ pos width
      → cfg.block_line ≡ pos height
      → width + 511 < 2 ^ 32
      → height < 2 ^ 32
      → (width + 511) / 512 * 64 * height < 2 ^ 32
      → let after = (prepare_buffers D S cfg w).buffers in
        (after.initialized ≡ true)
        × (width * height ≤ 8 * after.current_buffer_size)
        × ((if w.buffers.initialized then w.buffers.current_buffer_size else 0)
            ≤ after.current_buffer_size)
  unfolding prepare_buffers initialize_global_buffer_manager
  prepare_buffers-holds cfg w width height is_width is_height narrow low small =
      let as_width : as_uint32 cfg.strip_width ≡ width =
        ap as_uint32 is_width ∙ omega (arith, narrow) in
      let as_height : as_uint32 cfg.block_line ≡ height =
        ap as_uint32 is_height ∙ omega (arith, low) in
      let (on, covers, up) = initialize-bounds width height w.buffers in
      let (holds, _) = get_memory_buffer_size-holds width height narrow small in
      rw (as_width, as_height) (on, omega (arith, covers, holds), up)

  -- Where the strip width is automatic, the sizes not negative, the oblique row of the device not empty
  -- and the alignment positive: the width that a run settles on is a multiple of the alignment that
  -- holds the row and exceeds it by less than the alignment, and after the run has prepared its buffers one of the
  -- preferred size holds a bit for each pixel of the row in each line of a block. A manager that was
  -- initialized has not lowered its size. The row with the alignment must fit in an int, and the
  -- lines of a block and the size for a block as wide must be short of 2 ^ 32.
  pub with_strip_width-prepare_buffers :
      (cfg : BenchConfig D.W) (w : World S) (cols rows factor align height : ℕ)
      → cfg.dmd_resolution_cols ≡ pos cols
      → cfg.dmd_resolution_rows ≡ pos rows
      → cfg.oblique_factor ≡ pos factor
      → cfg.align_mode ≡ pos align
      → cfg.strip_width ≡ pos 0
      → cfg.block_line ≡ pos height
      → 0 < cols * factor + rows
      → 0 < align
      → cols * factor + rows + align < 2 ^ 31
      → height < 2 ^ 32
      → (cols * factor + rows + align + 511) / 512 * 64 * height < 2 ^ 32
      → (sized : BenchConfig D.W) × (with_strip_width cfg ≡ some sized)
        × ((q : ℕ) × (sized.strip_width ≡ pos (q * align))
            × (cols * factor + rows ≤ q * align)
            × (q * align < cols * factor + rows + align))
        × let after = (prepare_buffers D S sized w).buffers in
          (after.initialized ≡ true)
          × ((cols * factor + rows) * height ≤ 8 * after.current_buffer_size)
          × ((if w.buffers.initialized then w.buffers.current_buffer_size else 0)
              ≤ after.current_buffer_size)
  with_strip_width-prepare_buffers cfg w cols rows factor align height c r f a zero_width line
        some_row positive narrow low small =
      let (q, e, over, under) =
        with_strip_width-aligned cfg cols rows factor align c r f a zero_width some_row positive
          narrow in
      let less : (q * align + 511) / 512 * 64 ≤ (cols * factor + rows + align + 511) / 512 * 64 =
        omega (arith, under) in
      let fits : (q * align + 511) / 512 * 64 * height < 2 ^ 32 =
        omega (arith, mul_le height less, small) in
      let (on, holds, up) =
        prepare_buffers-holds (record cfg { strip_width = pos (q * align) }) w (q * align) height
          refl line (omega (arith, under, narrow)) low fits in
      (
        record cfg { strip_width = pos (q * align) },
        e,
        (q, refl, over, under),
        (on, omega (arith, mul_le height over, holds), up),
      )
