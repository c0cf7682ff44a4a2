-- ===== src/Double.antt =====
-- `double` as redcli uses it: an abstract type with the operations of the compiler and of the C++
-- library. Only their signatures are assumed here.
use encoder_rle4k_cpu.Base.{ℕ, Bool, Option}
use encoder_rle4k_cpu.Base.Int.{ℤ}
use encoder_rle4k_cpu.Text.{Text}

pub record Double : Type 1 where
  pub W : Type 0
  -- The literal with `digits` behind the point: 0.5 is `literal 5 1`.
  pub literal : (number digits : ℕ) → W
  pub of_ℤ : ℤ → W
  pub add : W → W → W
  pub sub : W → W → W
  pub mul : W → W → W
  pub div : W → W → W
  -- `a < b`
  pub less : W → W → Bool
  -- `static_cast<int>(x)`
  pub to_int : W → ℤ
  -- `(int)ceil(x)`
  pub ceil_int : W → ℤ
  pub atof : Text → W
  -- `std::stod`; none is an exception
  pub stod : Text → Option W
  -- `os << std::fixed << std::setprecision(digits) << x`
  pub fixed : (digits : ℕ) → W → Text

-- A `double` that is initialized with 0.
abbrev pub nought : (D : Double) → D.W
nought D = D.literal 0 0
