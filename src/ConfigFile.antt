-- ===== src/ConfigFile.antt =====
-- The file redcli.json: where redcli/rle4k_config.h looks for it, loads it, writes it and opens it in
-- an editor, and the commands `init` and `edit` of redcli/main.cpp.
pub mod Laws
pub mod Search
pub mod Start
pub mod Init
use encoder_rle4k_cpu.Base.{
  Bool, true, false, not, ◌&&◌, List, [], ◌∷◌, ◌++◌, Option, none, some, ◌>>=◌, if◌then◌else◌,
}
use encoder_rle4k_cpu.Base.Int.{ℤ, pos, ltb_ℤ, eq_ℤ}
use encoder_rle4k_cpu.Text.{Text, codes, same, is_empty}
use encoder_rle4k_cpu.Double.{Double}
use encoder_rle4k_cpu.System.{System, World, cerr}
use encoder_rle4k_cpu.Config.{BenchConfig}
use encoder_rle4k_cpu.Config.Load.{read_config}
use encoder_rle4k_cpu.Config.Builtin.{rle4k_builtin_default_config_json}

module _ (S : System) where
  abbrev pub module_directory : Option Text → Text
  module_directory none = codes "."
  module_directory (some exe) = S.parent_path exe

  abbrev pub rle4k_exe_directory : Text
  rle4k_exe_directory = if S.on_windows then module_directory S.module_file_name else codes "."

  -- `!exe_dir.empty() && exe_dir != "."`
  abbrev pub has_exe_directory : Bool
  has_exe_directory =
      not (is_empty rle4k_exe_directory) && not (same rle4k_exe_directory (codes "."))

  abbrev pub exe_dirs : List Text
  exe_dirs =
      if has_exe_directory
      then rle4k_exe_directory
        ∷ (rle4k_exe_directory ++ codes "/..")
        ∷ (rle4k_exe_directory ++ codes "/../..")
        ∷ []
      else []

  unfoldable pub rle4k_config_search_dirs : List Text
  unfolding same
  rle4k_config_search_dirs =
      codes "." ∷ codes ".." ∷ (exe_dirs ++ (codes "docs" ∷ codes "../docs" ∷ []))

  abbrev pub in_dir : Text → Text
  in_dir dir = dir ++ codes "/redcli.json"

  -- The loop over the directories; the empty text where no file is found.
  unfoldable pub resolve_in : S.Disk → List Text → Text
  resolve_in disk [] = []
  resolve_in disk (dir ∷ dirs) =
      let later = resolve_in disk dirs in if S.exists disk (in_dir dir) then in_dir dir else later

  abbrev pub rle4k_resolve_config_path : S.Disk → Text
  rle4k_resolve_config_path disk = resolve_in disk rle4k_config_search_dirs

  unfoldable pub rle4k_default_config_dest : Text
  unfolding same
  rle4k_default_config_dest =
      if has_exe_directory then in_dir rle4k_exe_directory else codes "redcli.json"

  -- The directories of the file are made where they have a name.
  abbrev pub with_directories : S.Disk → Text → S.Disk
  with_directories disk [] = disk
  with_directories disk (c ∷ parent) = S.create_directories disk (c ∷ parent)

  abbrev pub failed_to_write : Text → Text
  failed_to_write path = codes "[ERROR] failed to write " ++ path ++ codes "\n"

  abbrev pub created : Text → S.Disk × Bool → World S → World S × Bool
  created path (disk, false) w = (cerr (failed_to_write path) (record w { disk = disk }), false)
  created path (disk, true) w = (
    cerr (codes "Created: " ++ path ++ codes " (built-in default)\n") (record w { disk = disk }),
    true,
  )

  abbrev pub write_opened : Text → S.Disk → Option S.Disk → World S → World S × Bool
  write_opened path disk none w = (cerr (failed_to_write path) (record w { disk = disk }), false)
  write_opened path disk (some opened) w =
      created path (S.write opened path rle4k_builtin_default_config_json) w

  unfoldable pub rle4k_write_default_config : Text → World S → World S × Bool
  rle4k_write_default_config path w =
      let disk = with_directories w.disk (S.parent_path path) in
      write_opened path disk (S.open_out disk path) w

  -- The bool, the path that is written to `out_path`, and the world.
  pub record Ensured : Type 0 where
    pub done : Bool
    pub out_path : Text
    pub world : World S

  abbrev pub ensure_found : World S → Text → Ensured
  ensure_found w [] =
      let (after, done) = rle4k_write_default_config rle4k_default_config_dest w in
      record { done = done; out_path = rle4k_default_config_dest; world = after }
  ensure_found w (c ∷ path) = record { done = true; out_path = c ∷ path; world = w }

  unfoldable pub rle4k_ensure_config_file : World S → Ensured
  rle4k_ensure_config_file w = ensure_found w (rle4k_resolve_config_path w.disk)

  -- The text of a variable, and empty where it is not set.
  abbrev pub env_text : Option Text → Text
  env_text none = []
  env_text (some v) = v

  -- VISUAL, or else EDITOR.
  abbrev pub editor : Text
  editor =
      if is_empty (env_text (S.getenv (codes "VISUAL")))
      then env_text (S.getenv (codes "EDITOR"))
      else env_text (S.getenv (codes "VISUAL"))

  abbrev pub in_quotes : Text → Text
  in_quotes t = codes "\"" ++ t ++ codes "\""

  abbrev pub open_command : Text → Text → Text
  open_command [] path =
      codes "xdg-open " ++ in_quotes path ++ codes " 2>/dev/null || open " ++ in_quotes path
  open_command (c ∷ ed) path = in_quotes (c ∷ ed) ++ codes " " ++ in_quotes path

  abbrev pub shown : S.Disk × ℤ → S.Disk × Bool
  shown (disk, r) = (disk, ltb_ℤ (pos 32) r)

  abbrev pub succeeded : S.Disk × ℤ → S.Disk × Bool
  succeeded (disk, r) = (disk, eq_ℤ r (pos 0))

  -- `std::system(...) == 0`, and `ShellExecuteW(...) > 32` without an editor on Windows.
  unfoldable pub rle4k_open_in_editor : Text → S.Disk → S.Disk × Bool
  rle4k_open_in_editor path disk =
      if S.on_windows && is_empty editor
      then shown (S.shell_execute disk path)
      else succeeded (S.system disk (open_command editor path))

  -- A command returns the exit code of the program.
  abbrev pub exit_unless : World S × Bool → World S × ℤ
  exit_unless (w, true) = (w, pos 0)
  exit_unless (w, false) = (w, pos 1)

  unfoldable pub rle4k_cmd_init : World S → World S × ℤ
  rle4k_cmd_init w =
      if S.exists w.disk (codes "redcli.json")
      then (cerr (codes "redcli.json already exists.\n") w, pos 0)
      else exit_unless (rle4k_write_default_config (codes "redcli.json") w)

  abbrev pub edited : Text → World S → S.Disk × Bool → World S × ℤ
  edited path w (disk, true) = (record w { disk = disk }, pos 0)
  edited path w (disk, false) = (
    cerr
        (codes "[ERROR] failed to launch editor for "
          ++ path
          ++ codes "\n  Set EDITOR or VISUAL, or associate .json with an editor.\n")
        (record w { disk = disk }),
    pos 1,
  )

  abbrev pub edit_ensured : Ensured → World S × ℤ
  edit_ensured e = elim e.done [
    | false ↦ (e.world, pos 1)
    | true ↦
        let w = cerr (codes "[redcli] opening: " ++ e.out_path ++ codes "\n") e.world in
        edited e.out_path w (rle4k_open_in_editor e.out_path w.disk)
  ]

  unfoldable pub rle4k_cmd_edit : World S → World S × ℤ
  rle4k_cmd_edit w = edit_ensured (rle4k_ensure_config_file w)
