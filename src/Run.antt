-- ===== src/Run.antt =====
-- `rle4k_cmd_run` of redcli/main.cpp, from the settings to the exit code. The loader of DIF files, the
-- rasterizer and the clock are parameters; what it writes to the two streams is
-- in the world.
pub mod Collect
pub mod Geometry
pub mod Sizes
pub mod Times
pub mod Accumulate
pub mod Messages
pub mod Lines
pub mod Formats
pub mod Files
pub mod Command
pub mod Disk
pub mod Exit
pub mod Named
pub mod Rectangular
pub mod Checked
pub mod Success
pub mod Code
pub mod Sound
pub mod Prepared
use encoder_rle4k_cpu.Base.{ℕ, Option}
use encoder_rle4k_cpu.Text.{Text}
use encoder_rle4k_cpu.Bitmap.{Bitmap, Result}
use encoder_rle4k_cpu.Libraries.{Libraries}
use encoder_rle4k_cpu.Double.{Double}
use encoder_rle4k_cpu.System.{System}
use encoder_rle4k_cpu.Phase.Times.{PhaseClock}

-- What `rle4k_dif_loader().load(file)` does: it throws (with a text of its own, or
-- "unknown exception"), or returns a pointer.
pub data Loading (Document : Type 0) : Type 0 where
  load_failed : (what : Text) → Loading Document
  no_document : Loading Document
  loaded : Document → Loading Document

pub data PhaseKind : Type 0 where
  rasterizing : PhaseKind
  encoding : PhaseKind
  decoding : PhaseKind

pub record Tools (D : Double) (S : System) : Type 1 where
  pub lib : Libraries
  pub Document : Type 0
  pub load : S.Disk → Text → Loading Document
  pub layer_count : Document → ℕ
  pub min_x : Document → D.W
  pub max_x : Document → D.W
  pub min_y : Document → D.W
  pub max_y : Document → D.W
  -- The block at a column and a row, by the pixel width and the sizes of a block.
  pub rasterize :
      Document → (pw_nm : D.W) (strip_width block_line col row : ℕ) → Result (Option Bitmap)
  -- The ticks of a microsecond, and the clock's readings: around the loader of a file, and in each phase
  -- of a file, by the place of the format in the run, the column, the first row of the window and the
  -- repetition.
  pub per_us : ℕ
  pub load_clock : Text → ℕ × ℕ
  pub clock : Text → (format col : ℕ) → PhaseKind → (row0 rep : ℕ) → PhaseClock
