-- ===== src/Run/Sizes.antt =====
-- The sizes of a run, where they are not negative and fit in an int.
use native.Mathlib.Nat.{div-add-mod', mod-lt, div-le_self}
use encoder_rle4k_cpu.Base.{ℕ, ◌+◌, ◌-◌, ◌*◌, ◌/◌, ◌%◌, ◌^◌, ◌<◌, ◌≤◌, ◌≡◌, refl, some, arith}
use encoder_rle4k_cpu.Base.Int.{pos, ◌+ℤ◌, ◌-ℤ◌, ◌*ℤ◌}
use encoder_rle4k_cpu.Config.{BenchConfig}
use encoder_rle4k_cpu.Run.Geometry.{in_int, quotient, blocks_of, auto_w, rounded, with_strip_width}

pos_sum : (a b : ℕ) → pos a +ℤ pos b ≡ pos (a + b)
unfolding ◌+ℤ◌
pos_sum a b = ground arith

pos_product : (a b : ℕ) → pos a *ℤ pos b ≡ pos (a * b)
unfolding ◌*ℤ◌
pos_product a b = ground arith

pos_less_one : (a : ℕ) → 0 < a → pos a -ℤ pos 1 ≡ pos (a - 1)
unfolding ◌-ℤ◌
pos_less_one a positive = ground arith

in_int-pos : (n : ℕ) → n < 2 ^ 31 → in_int (pos n) ≡ some (pos n)
in_int-pos n small = ground arith

quotient-pos : (n d : ℕ) → 0 < d → quotient (pos n) (pos d) ≡ some (pos (n / d))
unfolding quotient
quotient-pos n d positive = ground arith

-- Rounding up to whole blocks: the blocks cover the pixels, and one block less would not.
pub whole_blocks :
    (n d : ℕ) → 0 < d → 0 < n → (n ≤ (n + d - 1) / d * d) × ((n + d - 1) / d * d < n + d)
whole_blocks n d positive some_pixel =
    let q : ℕ = (n + d - 1) / d in
    let r : ℕ = (n + d - 1) % d in
    let whole : q * d + r ≡ n + d - 1 = div-add-mod' (n + d - 1) d in
    let part : r < d = mod-lt (n + d - 1) positive in
    (omega (arith, whole, part), omega (arith, whole, part))

blocks_of-pos :
    (n d : ℕ)
    → 0 < d
    → 0 < n
    → n + d < 2 ^ 31
    → blocks_of (pos n) (pos d) ≡ some (pos ((n + d - 1) / d))
unfolding blocks_of
blocks_of-pos n d positive some_pixel small =
    let (_, under) = whole_blocks n d positive some_pixel in
    let few : (n + d - 1) / d < 2 ^ 31 = omega (arith, div-le_self (n + d - 1) d) in
    rw
      (
        pos_sum n d,
        in_int-pos (n + d) small,
        pos_less_one (n + d) (omega arith),
        in_int-pos (n + d - 1) (omega arith),
        quotient-pos (n + d - 1) d positive,
        in_int-pos ((n + d - 1) / d) few,
      )
      refl

module _ {W : Type 0} (cfg : BenchConfig W) (cols rows factor align : ℕ) where
  auto_w-pos :
      cfg.dmd_resolution_cols ≡ pos cols
      → cfg.dmd_resolution_rows ≡ pos rows
      → cfg.oblique_factor ≡ pos factor
      → cols * factor + rows < 2 ^ 31
      → auto_w cfg ≡ some (pos (cols * factor + rows))
  unfolding auto_w
  auto_w-pos c r f small =
      rw
        (
          c,
          f,
          r,
          pos_product cols factor,
          in_int-pos (cols * factor) (omega arith),
          pos_sum (cols * factor) rows,
          in_int-pos (cols * factor + rows) small,
        )
        refl

  rounded-pos :
      (n : ℕ)
      → cfg.align_mode ≡ pos align
      → 0 < align
      → 0 < n
      → n + align < 2 ^ 31
      → rounded cfg (pos n) ≡ some (pos ((n + align - 1) / align * align))
  unfolding rounded
  rounded-pos n a positive some_pixel small =
      let (_, under) = whole_blocks n align positive some_pixel in
      rw
        (
          a,
          blocks_of-pos n align positive some_pixel small,
          pos_product ((n + align - 1) / align) align,
          in_int-pos ((n + align - 1) / align * align) (omega (arith, under)),
        )
        refl

  -- The automatic strip width of a run is a multiple of the alignment that holds the oblique row of the
  -- device and exceeds it by less than the alignment, where the sizes are not negative, the row not
  -- empty, the alignment positive, and their sum fits in an int.
  pub with_strip_width-aligned :
      cfg.dmd_resolution_cols ≡ pos cols
      → cfg.dmd_resolution_rows ≡ pos rows
      → cfg.oblique_factor ≡ pos factor
      → cfg.align_mode ≡ pos align
      → cfg.strip_width ≡ pos 0
      → 0 < cols * factor + rows
      → 0 < align
      → cols * factor + rows + align < 2 ^ 31
      → (q : ℕ) × (with_strip_width cfg ≡ some (record cfg { strip_width = pos (q * align) }))
        × (cols * factor + rows ≤ q * align)
        × (q * align < cols * factor + rows + align)
  unfolding with_strip_width
  with_strip_width-aligned c r f a zero_width some_row positive small =
      let n : ℕ = cols * factor + rows in
      let (over, under) = whole_blocks n align positive some_row in
      (
        (n + align - 1) / align,
        rw (zero_width, auto_w-pos c r f (omega arith), rounded-pos n a positive some_row small)
            refl,
        over,
        under,
      )
