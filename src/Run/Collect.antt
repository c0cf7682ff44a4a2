-- ===== src/Run/Collect.antt =====
-- The files of a run.
use encoder_rle4k_cpu.Base.{
  ◌-◌, Bool, ◌&&◌, List, [], ◌∷◌, Option, none, some, length, leb, if◌then◌else◌,
}
use encoder_rle4k_cpu.Base.Int.{pos, eq_ℤ}
use encoder_rle4k_cpu.Text.{Text, codes, same, substr}
use encoder_rle4k_cpu.System.{System}
use encoder_rle4k_cpu.Config.{BenchConfig}

-- `p.size() >= 4 && p.substr(p.size()-4) == ".dif"`
unfoldable pub is_dif : Text → Bool
unfolding same substr
is_dif p = leb 4 (length p) && same (substr p (length p - 4) none) (codes ".dif")

unfoldable pub dif_files : List Text → List Text
unfolding is_dif
dif_files [] = []
dif_files (p ∷ ps) = let rest = dif_files ps in if is_dif p then p ∷ rest else rest

abbrev pub listed : Option (List Text) → Option (List Text)
listed none = none
listed (some ps) = some (dif_files ps)

module _ (S : System) {W : Type 0} where
  -- A folder that cannot be read is an exception (none).
  unfoldable pub collect_files : BenchConfig W → S.Disk → Option (List Text)
  unfolding dif_files
  collect_files cfg disk =
      if eq_ℤ cfg.mode (pos 1)
      then listed (S.regular_files disk cfg.input_path)
      else some (cfg.input_path ∷ [])
