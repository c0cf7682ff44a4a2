-- ===== src/Main.antt =====
-- The program of redcli/main.cpp: its banner, its usage text and `main`.
use Prim.Native.String
use encoder_rle4k_cpu.Base.{Bool, ◌||◌, List, [], ◌∷◌, ◌++◌, Option, some, if◌then◌else◌}
use encoder_rle4k_cpu.Base.Int.{ℤ, pos}
use encoder_rle4k_cpu.Text.{Text, codes, same}
use encoder_rle4k_cpu.Double.{Double}
use encoder_rle4k_cpu.System.{System, World, cout, cerr}
use encoder_rle4k_cpu.Config.Builtin.{lines}
use encoder_rle4k_cpu.ConfigFile.{rle4k_cmd_init, rle4k_cmd_edit}
use encoder_rle4k_cpu.Run.{Tools}
use encoder_rle4k_cpu.Run.Command.{rle4k_cmd_run}

abbrev usage_lines : List String.String
usage_lines =
    "" ∷ "redcli --- RLE4K Reproducibility Benchmark" ∷ "" ∷ "Usage:"
    ∷ "  redcli init                Create redcli.json from built-in defaults"
    ∷ "  redcli run [config.json]   Run benchmark (default: redcli.json)"
    ∷ "  redcli edit                Open redcli.json in default editor (EDITOR/VISUAL)"
    ∷ "  redcli -h                  Show help" ∷ "" ∷ "Options (run):"
    ∷ "  --input, -i <path>          Input .dif file or folder"
    ∷ "  --mode, -m <0|1>            0=file, 1=folder"
    ∷ "  --repeat, -r <N>            Repeats (default 3)"
    ∷ "  --pw <um>                   Pixel pitch um (default 0.5)"
    ∷ "  -N <num>                    Oblique factor (default 32)"
    ∷ "  --strip-height <H>          Stripe height (default 512)"
    ∷ "  --strip-width <W>           Strip width px (0=auto)"
    ∷ "  --threads, --raster-threads, -t <N>   Phase-1 raster worker count"
    ∷ "  --encode-threads, -et <N>   Phase-2 encode worker count (0=raster threads)"
    ∷ "  --decode-threads, -dt <N>   Phase-3 decode worker count (0=raster threads)"
    ∷ "  --cache-blocks-min <N>      Raw-block watermark low (default 32)"
    ∷ "  --cache-blocks-max <N>      Window size = max (default 128)"
    ∷ "  --cache-blocks <N>          Alias for --cache-blocks-max"
    ∷ "  --check                     FNV after raster + verify outside decode wall"
    ∷ "  --no-check                  Integrity off (default)"
    ∷ "  --no-encode                 Skip encode phase (action switch)"
    ∷ "  --no-decode                 Skip decode phase (action switch)"
    ∷ "  --force                     Force full rerun (ignore resume)"
    ∷ "  --verbose <mode>            \"file\" or \"strip\""
    ∷ "  --formats, -f <ids>         Comma-separated format IDs (overrides config)"
    ∷ "                              0=RLE4K,1=GZIP,2=LZO2,3=SNAPPY,4=ZSTD,5=BROTLI"
    ∷ "  --csv, -o <path>            Write comparison results to CSV (UTF-8). By default"
    ∷ "                              results are printed to the console only." ∷ ""
    ∷ "Timing model (rle16cli parity): outer format -> strip col -> windowed rows;"
    ∷ "raster/encode/decode wall-clock (spawn->join); check outside decode wall." ∷ []

unfoldable pub usage_text : Text
usage_text = lines usage_lines

-- Two macros of the build: the version, and whether tcmalloc is linked.
module _ (version : Text) (tcmalloc : Bool) {S : System} where
  unfoldable pub rle4k_print_tcmalloc_link_status : World S → World S
  rle4k_print_tcmalloc_link_status = cerr (
      if tcmalloc
      then codes "[redcli] tcmalloc is enabled.\n"
      else codes "[redcli] tcmalloc is disabled.\n")

  unfoldable pub rle4k_print_banner : World S → World S
  unfolding rle4k_print_tcmalloc_link_status
  rle4k_print_banner w =
      rle4k_print_tcmalloc_link_status (cerr (codes "[redcli] redcli v" ++ version ++ codes "\n") w)

unfoldable pub rle4k_print_usage : {S : System} → World S → World S
unfolding usage_text
rle4k_print_usage w = cout usage_text w

module _ (D : Double) (S : System) (tools : Tools D S) where
  -- The command, by the text of `argv[1]`.
  unfoldable pub run_command : Text → List Text → World S → Option (World S × ℤ)
  unfolding rle4k_print_usage rle4k_cmd_run rle4k_cmd_init rle4k_cmd_edit same
  run_command cmd args w =
      if same cmd (codes "-h") || same cmd (codes "--help") || same cmd (codes "help")
      then some (rle4k_print_usage w, pos 0)
      else if same cmd (codes "init")
      then some (rle4k_cmd_init S w)
      else if same cmd (codes "run")
      then rle4k_cmd_run D S tools usage_text args w
      else if same cmd (codes "edit") || same cmd (codes "config")
      then some (rle4k_cmd_edit S w)
      else if same cmd (codes "benchmark")
      then rle4k_cmd_run D S tools usage_text args w
      else some (rle4k_print_usage w, pos 1)

  abbrev pub dispatch : List Text → World S → Option (World S × ℤ)
  dispatch [] w = some (rle4k_print_usage w, pos 1)
  dispatch (cmd ∷ args) w = run_command cmd args w

  -- `main`, on the arguments behind the name of the program.
  unfoldable pub main : Text → Bool → List Text → World S → Option (World S × ℤ)
  unfolding run_command rle4k_print_banner
  main version tcmalloc args w = dispatch args (rle4k_print_banner version tcmalloc w)
