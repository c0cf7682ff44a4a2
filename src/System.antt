-- ===== src/System.antt =====
-- The operating system as redcli meets it: the file system, the environment and the programs it
-- starts. Only the signatures of the calls are assumed here; `World` is the disk with what the
-- program has written to its two streams, and the process's buffer manager.
use encoder_rle4k_cpu.Base.{Bool, List, ◌++◌, Option}
use encoder_rle4k_cpu.Base.Int.{ℤ}
use encoder_rle4k_cpu.Text.{Text}
use encoder_rle4k_cpu.BufferPool.{Manager}

pub record System : Type 1 where
  pub Disk : Type 0
  pub on_windows : Bool
  -- `GetModuleFileNameA`; none where it returns 0
  pub module_file_name : Option Text
  -- std::filesystem
  pub parent_path : Text → Text
  pub filename : Text → Text
  pub exists : Disk → Text → Bool
  pub create_directories : Disk → Text → Disk
  -- The regular files of a folder; none is an exception.
  pub regular_files : Disk → Text → Option (List Text)
  -- The content of a file that an `ifstream` opens.
  pub read : Disk → Text → Option Text
  -- An `ofstream` that opens has made or emptied the file.
  pub open_out : Disk → Text → Option Disk
  -- A text is written and flushed; the state of the stream afterwards.
  pub write : Disk → Text → Text → Disk × Bool
  pub getenv : Text → Option Text
  pub system : Disk → Text → Disk × ℤ
  pub shell_execute : Disk → Text → Disk × ℤ

pub record World (S : System) : Type 0 where
  pub disk : S.Disk
  pub out : Text
  pub err : Text
  pub buffers : Manager

module _ {S : System} where
  -- `std::cout <<` and `std::cerr <<`
  abbrev pub cout : Text → World S → World S
  cout t w = record w { out = w.out ++ t }

  abbrev pub cerr : Text → World S → World S
  cerr t w = record w { err = w.err ++ t }
