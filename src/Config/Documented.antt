-- ===== src/Config/Documented.antt =====
-- What `load_config` reads of the text that `redcli init` writes.
use encoder_rle4k_cpu.Base.{◌≡◌, refl, [], ◌∷◌, some}
use encoder_rle4k_cpu.Base.Int.{pos}
use encoder_rle4k_cpu.Text.{codes, substr, find_first_of}
use encoder_rle4k_cpu.Text.Number.{atoi}
use encoder_rle4k_cpu.Double.{Double}
use encoder_rle4k_cpu.Json.{
  json_get_str, json_get_int, json_get_double, json_get_int_array, value_pos, is_comment,
  skip_separators, span_digits,
}
use encoder_rle4k_cpu.Config.{BenchConfig, default_config}
use encoder_rle4k_cpu.Config.Load.{read_config}
use encoder_rle4k_cpu.Config.Builtin.{rle4k_builtin_default_config_json}

-- The settings that docs/redcli.help.md and the comments of the text promise.
abbrev pub documented_config : (D : Double) → BenchConfig D.W
documented_config D = record (default_config D) {
  output_path = codes "build/out";
  pitch_width_um = D.atof (codes "0.5");
  formats = pos 0 ∷ pos 1 ∷ pos 2 ∷ pos 3 ∷ pos 4 ∷ pos 5 ∷ [];
}

-- Whatever the settings were, the built-in text sets every one of them: to the initial values of
-- `bench_config`, but for the output directory, the six formats, and a pitch that is `atof` of "0.5".
pub read_config-builtin :
    (D : Double) (cfg : BenchConfig D.W)
    → read_config D rle4k_builtin_default_config_json cfg ≡ some (documented_config D)
unfolding read_config json_get_int json_get_str json_get_double json_get_int_array
    rle4k_builtin_default_config_json value_pos is_comment atoi substr find_first_of skip_separators
    span_digits
read_config-builtin D cfg = refl
