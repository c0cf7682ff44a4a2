-- ===== src/Tests/Whole.antt =====
-- A whole run of redcli at concrete arguments, with every phase and the check on.
use encoder_rle4k_cpu.Base.{ℕ, ◌≡◌, refl, sym, subst, false, List, [], ◌∷◌, none, some, arith}
use encoder_rle4k_cpu.Base.Int.{pos, ◌+ℤ◌, ◌-ℤ◌}
use encoder_rle4k_cpu.Text.{Text, codes, same, is_empty}
use encoder_rle4k_cpu.BufferPool.{new_manager}
use encoder_rle4k_cpu.System.{World, cerr}
use encoder_rle4k_cpu.Config.{BenchConfig, default_config}
use encoder_rle4k_cpu.ConfigFile.{resolve_in, rle4k_config_search_dirs}
use encoder_rle4k_cpu.ConfigFile.Start.{start_config}
use encoder_rle4k_cpu.Cli.{Overrides, go_on, action, parse_args}
use encoder_rle4k_cpu.Cli.Formats.{parse_formats}
use encoder_rle4k_cpu.Text.Number.{stoi}
use encoder_rle4k_cpu.Settings.{with_env_threads, clamp_config}
use encoder_rle4k_cpu.Factory.{chosen_formats}
use encoder_rle4k_cpu.Format.{map_format_id}
use encoder_rle4k_cpu.Run.Geometry.{blocks_of, with_strip_width, quotient}
use encoder_rle4k_cpu.Run.Collect.{collect_files}
use encoder_rle4k_cpu.Run.Command.{env_threads, finish, rle4k_cmd_run}
use encoder_rle4k_cpu.Run.Code.{CodeCounts, rle4k_cmd_run-CodeCounts}
use encoder_rle4k_cpu.Run.Disk.{LeftDisk, rle4k_cmd_run-LeftDisk}
use encoder_rle4k_cpu.Run.Success.{AllGood, Succeeded, rle4k_cmd_run-Succeeded}
use encoder_rle4k_cpu.Bitmap.{ok, validate_bitmap, get_buffer_size, to_int}
use encoder_rle4k_cpu.Base.Int.{signed32}
use encoder_rle4k_cpu.Encoder.{
  gzip, report, gzip_pack, clamp_level, internal_pack, pack_result, pack_valid, process_pack,
  get_supported_format,
}
use encoder_rle4k_cpu.Run.Accumulate.{args_of}
use encoder_rle4k_cpu.Run.Files.{img_w, img_h}
use encoder_rle4k_cpu.Run.Checked.{Fits, FitsAny}
use encoder_rle4k_cpu.Tests.Toy.{toy, block, toy-Documented, toy-Recovers}
use encoder_rle4k_cpu.Tests.Codecs.{packed}
use encoder_rle4k_cpu.Tests.Results.{get_gzip, keeps_buffer}
use encoder_rle4k_cpu.Tests.Machine.{numbers, machine, toy_tools}

abbrev disk_of_one : World machine
disk_of_one = record {
  disk = (codes "a.dif", codes "x") ∷ [];
  out = [];
  err = [];
  buffers = new_manager;
}

abbrev started : World machine
started = cerr (codes "[WARN] redcli.json not found, using defaults.\n") disk_of_one

begun : start_config numbers machine disk_of_one ≡ some (started, default_config numbers)
unfolding start_config resolve_in rle4k_config_search_dirs
begun = refl

abbrev arguments : List Text
arguments =
    codes "-i"
    ∷ codes "a.dif"
    ∷ codes "--check"
    ∷ codes "-f"
    ∷ codes "1"
    ∷ codes "-sw"
    ∷ codes "1000"
    ∷ []

abbrev wanted : BenchConfig ℕ
wanted = record (default_config numbers) {
  input_path = codes "a.dif";
  check_enabled = pos 1;
  formats = pos 1 ∷ [];
  strip_width = pos 1000;
}

abbrev overrides : Overrides ℕ
overrides = record { cfg = wanted; force = false; csv_path = [] }

parsed :
    parse_args numbers arguments
      (record { cfg = default_config numbers; force = false; csv_path = [] })
    ≡ some (go_on overrides)
unfolding parse_args action parse_formats stoi
parsed = refl

no_env : env_threads (machine.getenv (codes "RLE4K_THREADS")) ≡ some none
no_env = refl

clamped : clamp_config (with_env_threads none wanted) ≡ wanted
unfolding clamp_config with_env_threads
clamped = refl

collected :
    collect_files machine (clamp_config (with_env_threads none wanted)) started.disk
    ≡ some (codes "a.dif" ∷ [])
unfolding clamp_config with_env_threads collect_files
collected = refl

stripped : with_strip_width (clamp_config (with_env_threads none wanted)) ≡ some wanted
unfolding clamp_config with_env_threads with_strip_width
stripped = refl

one_column :
    blocks_of (img_w numbers machine toy_tools wanted (pos 7 ∷ []) tt) (pos 1000) ≡ some (pos 1)
unfolding blocks_of quotient ◌+ℤ◌ ◌-ℤ◌
one_column = refl

one_row :
    blocks_of (img_h numbers machine toy_tools wanted (pos 7 ∷ []) tt) (pos 512) ≡ some (pos 1)
unfolding blocks_of quotient ◌+ℤ◌ ◌-ℤ◌
one_row = refl

packed_here : process_pack toy gzip (some block) (args_of wanted) ≡ ok packed
unfolding process_pack validate_bitmap pack_valid pack_result internal_pack gzip_pack report
    clamp_level get_supported_format get_buffer_size to_int signed32
packed_here = refl

gzip-FitsHere : Fits numbers machine toy_tools wanted (codes "a.dif") tt (pos 1) (pos 1) gzip
gzip-FitsHere = (
  keeps_buffer,
  λ col lt row inside. (some block, refl, (omega arith, (packed, packed_here), toy-Recovers)),
)

chosen : chosen_formats wanted.formats ≡ pos 7 ∷ []
unfolding chosen_formats map_format_id
chosen = refl

good : AllGood numbers machine toy_tools wanted (pos 7 ∷ []) started.disk (codes "a.dif" ∷ [])
unfolding same
good = (
  record {
    present = refl;
    document = tt;
    loads = refl;
    layers = refl;
    ncols = pos 1;
    nrows = pos 1;
    columns = one_column;
    rows = one_row;
    on = record { encodes = refl; decodes = refl; checks = refl; documented = toy-Documented };
    fit = (
      subst (FitsAny numbers machine toy_tools wanted (codes "a.dif") tt (pos 1) (pos 1))
          (sym get_gzip) gzip-FitsHere,
      tt,
    );
  },
  tt,
)

named : is_empty (clamp_config (with_env_threads none wanted)).input_path ≡ false
unfolding clamp_config with_env_threads
named = refl

rle4k_cmd_run-Succeeded_example :
    Succeeded numbers machine toy_tools wanted [] started.out started.disk
      (codes "a.dif" ∷ [])
      (rle4k_cmd_run numbers machine toy_tools [] arguments disk_of_one)
rle4k_cmd_run-Succeeded_example =
    rle4k_cmd_run-Succeeded numbers machine toy_tools [] arguments disk_of_one started
      (default_config numbers) overrides none wanted (codes "a.dif") [] begun parsed no_env named
      collected stripped (rw chosen good)

abbrev whole :
    Succeeded numbers machine toy_tools wanted [] started.out started.disk
      (codes "a.dif" ∷ [])
      (rle4k_cmd_run numbers machine toy_tools [] arguments disk_of_one)
whole =
    rle4k_cmd_run-Succeeded numbers machine toy_tools [] arguments disk_of_one started
      (default_config numbers) overrides none wanted (codes "a.dif") [] begun parsed no_env named
      collected stripped (rw chosen good)

rle4k_cmd_run-CodeCounts_example :
    CodeCounts numbers machine toy_tools started.disk (codes "a.dif" ∷ []) (pos 0)
rle4k_cmd_run-CodeCounts_example =
    rle4k_cmd_run-CodeCounts numbers machine toy_tools [] arguments disk_of_one started
      (finish numbers machine wanted [] whole.last).0 (default_config numbers) overrides none
      (codes "a.dif" ∷ []) (pos 0) begun parsed no_env named collected whole.returns

-- The same run, with a CSV file.
abbrev csv_arguments : List Text
csv_arguments = codes "-o" ∷ codes "out.csv" ∷ arguments

abbrev csv_overrides : Overrides ℕ
csv_overrides = record { cfg = wanted; force = false; csv_path = codes "out.csv" }

csv_parsed :
    parse_args numbers csv_arguments
      (record { cfg = default_config numbers; force = false; csv_path = [] })
    ≡ some (go_on csv_overrides)
unfolding parse_args action parse_formats stoi
csv_parsed = refl

abbrev whole_csv :
    Succeeded numbers machine toy_tools wanted
      (codes "out.csv")
      started.out
      started.disk
      (codes "a.dif" ∷ [])
      (rle4k_cmd_run numbers machine toy_tools [] csv_arguments disk_of_one)
whole_csv =
    rle4k_cmd_run-Succeeded numbers machine toy_tools [] csv_arguments disk_of_one started
      (default_config numbers) csv_overrides none wanted (codes "a.dif") [] begun csv_parsed no_env
      named collected stripped (rw chosen good)

rle4k_cmd_run-LeftDisk_example :
    LeftDisk numbers machine toy_tools csv_arguments disk_of_one
      (finish numbers machine wanted (codes "out.csv") whole_csv.last).0
rle4k_cmd_run-LeftDisk_example =
    rle4k_cmd_run-LeftDisk numbers machine toy_tools [] csv_arguments disk_of_one
      (finish numbers machine wanted (codes "out.csv") whole_csv.last).0 (pos 0) whole_csv.returns
