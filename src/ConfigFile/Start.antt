-- ===== src/ConfigFile/Start.antt =====
-- `load_config` of redcli/rle4k_config.h, and the settings that `rle4k_cmd_run` of redcli/main.cpp
-- starts from.
use encoder_rle4k_cpu.Base.{Bool, true, false, [], ◌∷◌, ◌++◌, Option, none, some, ◌>>=◌}
use encoder_rle4k_cpu.Text.{Text, codes}
use encoder_rle4k_cpu.Double.{Double}
use encoder_rle4k_cpu.System.{System, World, cerr}
use encoder_rle4k_cpu.Config.{BenchConfig, default_config}
use encoder_rle4k_cpu.Config.Load.{read_config}
use encoder_rle4k_cpu.ConfigFile.{rle4k_resolve_config_path}

-- The bool that `load_config` returns, and the settings after it.
pub record Loaded (W : Type 0) : Type 0 where
  pub done : Bool
  pub cfg : BenchConfig W

module _ (D : Double) (S : System) where
  abbrev pub load_text : BenchConfig D.W → Option Text → Option (Loaded D.W)
  load_text cfg none = some (record { done = false; cfg = cfg })
  load_text cfg (some json) = do
    read ← read_config D json cfg
    some (record { done = true; cfg = read })

  unfoldable pub load_config : S.Disk → Text → BenchConfig D.W → Option (Loaded D.W)
  load_config disk path cfg = load_text cfg (S.read disk path)

  abbrev pub load_resolved : S.Disk → Text → Option (Loaded D.W)
  load_resolved disk [] = some (record { done = false; cfg = default_config D })
  load_resolved disk (c ∷ path) = load_config disk (c ∷ path) (default_config D)

  abbrev pub report_config : Text → World S → Loaded D.W → World S × BenchConfig D.W
  report_config resolved w l = elim l.done [
    | true ↦ (cerr (codes "[redcli] config: " ++ resolved ++ codes "\n") w, l.cfg)
    | false ↦ (cerr (codes "[WARN] redcli.json not found, using defaults.\n") w, l.cfg)
  ]

  unfoldable pub start_config : World S → Option (World S × BenchConfig D.W)
  start_config w = do
    loaded ← load_resolved w.disk (rle4k_resolve_config_path S w.disk)
    some (report_config (rle4k_resolve_config_path S w.disk) w loaded)
