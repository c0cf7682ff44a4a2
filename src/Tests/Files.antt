-- ===== src/Tests/Files.antt =====
-- `redcli init` and the search for redcli.json at concrete disks.
use encoder_rle4k_cpu.Base.{◌≡◌, refl, [], ◌∷◌, some}
use encoder_rle4k_cpu.Base.Int.{pos}
use encoder_rle4k_cpu.Text.{codes}
use encoder_rle4k_cpu.BufferPool.{new_manager}
use encoder_rle4k_cpu.System.{World}
use encoder_rle4k_cpu.Config.Documented.{documented_config}
use encoder_rle4k_cpu.ConfigFile.{
  rle4k_cmd_init, rle4k_ensure_config_file, rle4k_write_default_config,
}
use encoder_rle4k_cpu.ConfigFile.Start.{start_config}
use encoder_rle4k_cpu.ConfigFile.Search.{EnsuredFile, rle4k_ensure_config_file-EnsuredFile}
use encoder_rle4k_cpu.ConfigFile.Init.{rle4k_cmd_init-start_config}
use encoder_rle4k_cpu.Tests.Machine.{numbers, machine, machine-KeepsFiles}

abbrev fresh : World machine
fresh = record { disk = []; out = []; err = []; buffers = new_manager }

init_zero : (rle4k_cmd_init machine fresh).1 ≡ pos 0
unfolding rle4k_cmd_init rle4k_write_default_config
init_zero = refl

rle4k_cmd_init-start_config_example :
    (after : World machine) × (start_config numbers machine (rle4k_cmd_init machine fresh).0
      ≡ some (after, documented_config numbers))
    × (after.disk ≡ (rle4k_cmd_init machine fresh).0.disk)
rle4k_cmd_init-start_config_example =
    rle4k_cmd_init-start_config numbers machine machine-KeepsFiles fresh refl init_zero

abbrev kept : World machine
kept = record {
  disk = (codes "docs/redcli.json", codes "{}") ∷ [];
  out = [];
  err = [];
  buffers = new_manager;
}

rle4k_ensure_config_file-EnsuredFile_example :
    EnsuredFile machine machine-KeepsFiles kept (rle4k_ensure_config_file machine kept)
rle4k_ensure_config_file-EnsuredFile_example =
    rle4k_ensure_config_file-EnsuredFile machine machine-KeepsFiles kept
