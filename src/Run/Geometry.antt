-- ===== src/Run/Geometry.antt =====
-- The sizes that a run derives as ints. An int that overflows has no result.
use encoder_rle4k_cpu.Base.{◌-◌, ◌/◌, ◌^◌, ◌||◌, Option, none, some, ◌==◌, ◌>>=◌, if◌then◌else◌}
use encoder_rle4k_cpu.Base.Int.{ℤ, pos, negsuc, ◌+ℤ◌, ◌-ℤ◌, ◌*ℤ◌, eq_ℤ, ltb_ℤ, neg_part}
use encoder_rle4k_cpu.Config.{BenchConfig}

-- `a / b` of ints, rounded towards 0; a division by 0 has no result.
unfoldable pub quotient : ℤ → ℤ → Option ℤ
unfolding ◌-ℤ◌
quotient (pos a) (pos b) = if b == 0 then none else some (pos (a / b))
quotient (pos a) (negsuc b) = some (pos 0 -ℤ pos (a / neg_part (negsuc b)))
quotient (negsuc a) (pos b) = if b == 0 then none else some (pos 0 -ℤ pos (neg_part (negsuc a) / b))
quotient (negsuc a) (negsuc b) = some (pos (neg_part (negsuc a) / neg_part (negsuc b)))

-- A result of int arithmetic, where it fits.
abbrev pub in_int : ℤ → Option ℤ
in_int z = if ltb_ℤ z (negsuc (2 ^ 31 - 1)) || ltb_ℤ (pos (2 ^ 31 - 1)) z then none else some z

-- `(n + d - 1) / d`
unfoldable pub blocks_of : ℤ → ℤ → Option ℤ
unfolding quotient ◌+ℤ◌ ◌-ℤ◌
blocks_of n d = do sum ← in_int (n +ℤ d); top ← in_int (sum -ℤ pos 1); q ← quotient top d; in_int q

module _ {W : Type 0} where
  -- `int auto_w`
  unfoldable pub auto_w : BenchConfig W → Option ℤ
  unfolding ◌*ℤ◌ ◌+ℤ◌
  auto_w cfg = do
    product ← in_int (cfg.dmd_resolution_cols *ℤ cfg.oblique_factor)
    in_int (product +ℤ cfg.dmd_resolution_rows)

  -- `((auto_w + cfg.align_mode - 1) / cfg.align_mode) * cfg.align_mode`
  unfoldable pub rounded : BenchConfig W → ℤ → Option ℤ
  unfolding blocks_of ◌*ℤ◌
  rounded cfg width = do n ← blocks_of width cfg.align_mode; in_int (n *ℤ cfg.align_mode)

  abbrev pub automatic : BenchConfig W → Option (BenchConfig W)
  automatic cfg = do
    width ← auto_w cfg
    w ← rounded cfg width
    some (record cfg { strip_width = w })

  -- The automatic strip width, where the configured one is 0.
  unfoldable pub with_strip_width : BenchConfig W → Option (BenchConfig W)
  unfolding auto_w rounded
  with_strip_width cfg = if eq_ℤ cfg.strip_width (pos 0) then automatic cfg else some cfg
