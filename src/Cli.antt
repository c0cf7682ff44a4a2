-- ===== src/Cli.antt =====
-- The options of `redcli run`: the loop over the arguments in `rle4k_cmd_run` of redcli/main.cpp.
pub mod Formats
pub mod Options
use encoder_rle4k_cpu.Base.{
  Bool, true, false, ◌||◌, List, [], ◌∷◌, Option, none, some, ◌>>=◌, if◌then◌else◌,
}
use encoder_rle4k_cpu.Base.Int.{ℤ, pos}
use encoder_rle4k_cpu.Text.{Text, codes, same}
use encoder_rle4k_cpu.Text.Number.{stoi}
use encoder_rle4k_cpu.Double.{Double}
use encoder_rle4k_cpu.Config.{BenchConfig}
use encoder_rle4k_cpu.Cli.Formats.{parse_formats}

-- What the loop changes.
pub record Overrides (W : Type 0) : Type 0 where
  pub cfg : BenchConfig W
  pub force : Bool
  pub csv_path : Text

-- What an argument does. A value that `stoi` or `stod` does not read is an exception (none).
pub data Action (W : Type 0) : Type 0 where
  takes : (Text → Overrides W → Option (Overrides W)) → Action W
  sets : (Overrides W → Overrides W) → Action W
  shows_help : Action W
  ignored : Action W

pub data Parsed (W : Type 0) : Type 0 where
  go_on : Overrides W → Parsed W
  helped : Parsed W

module _ {W : Type 0} where
  -- An option whose value is an int, by the assignment that it makes.
  abbrev pub takes_int : (ℤ → BenchConfig W → BenchConfig W) → Action W
  takes_int assign = takes λ v o. stoi v >>= λ n. some (record o { cfg = assign n o.cfg })

  abbrev pub sets_int : (BenchConfig W → BenchConfig W) → Action W
  sets_int assign = sets λ o. record o { cfg = assign o.cfg }

-- The conditions on `a`, in the order of the source.
module _ (D : Double) (a : Text) where
  abbrev is : Text → Bool
  is name = same a name

  unfoldable pub action : Action D.W
  unfolding same
  action =
      if is (codes "--input") || is (codes "-i")
      then takes (λ v o. some (record o { cfg = record (o.cfg) { input_path = v } }))
      else if is (codes "--mode") || is (codes "-m")
      then takes_int (λ n c. record c { mode = n })
      else if is (codes "--repeat") || is (codes "-r")
      then takes_int (λ n c. record c { repeat = n })
      else if is (codes "--pw")
      then takes
          (λ v o. D.stod v >>= λ x. some (record o { cfg = record (o.cfg) { pitch_width_um = x } }))
      else if is (codes "-N") || is (codes "--oblique")
      then takes_int (λ n c. record c { oblique_factor = n })
      else if is (codes "--strip-height") || is (codes "-sh")
      then takes_int (λ n c. record c { block_line = n })
      else if is (codes "--strip-width") || is (codes "-sw")
      then takes_int (λ n c. record c { strip_width = n })
      else if is (codes "--threads") || is (codes "--raster-threads") || is (codes "-t")
      then takes_int (λ n c. record c { raster_threads = n })
      else if is (codes "--encode-threads") || is (codes "-et")
      then takes_int (λ n c. record c { encode_threads = n })
      else if is (codes "--decode-threads") || is (codes "-dt")
      then takes_int (λ n c. record c { decode_threads = n })
      else if is (codes "--no-encode")
      then sets_int (λ c. record c { encode_enabled = pos 0 })
      else if is (codes "--no-decode")
      then sets_int (λ c. record c { decode_enabled = pos 0 })
      else if is (codes "--check")
      then sets_int (λ c. record c { check_enabled = pos 1 })
      else if is (codes "--no-check")
      then sets_int (λ c. record c { check_enabled = pos 0 })
      else if is (codes "--cache-blocks-min") || is (codes "--cache-min")
      then takes_int (λ n c. record c { cache_blocks_min = n })
      else if is (codes "--cache-blocks-max") || is (codes "--cache-max")
      then takes_int (λ n c. record c { cache_blocks_max = n })
      else if is (codes "--cache-blocks") || is (codes "--raw-cache")
      then takes_int (λ n c. record c { cache_blocks_max = n })
      else if is (codes "--verbose") || is (codes "-v")
      then takes (λ v o. some (record o { cfg = record (o.cfg) { verbose = v } }))
      else if is (codes "--formats") || is (codes "-f")
      then takes (λ v o.
        parse_formats v >>= λ ids. some (record o { cfg = record (o.cfg) { formats = ids } }))
      else if is (codes "--csv") || is (codes "-o") || is (codes "--output")
      then takes (λ v o. some (record o { csv_path = v }))
      else if is (codes "--force")
      then sets (λ o. record o { force = true })
      else if is (codes "-h") || is (codes "--help")
      then shows_help
      else ignored

-- What a round of the loop does with the action of its argument: `next` is the loop from the argument
-- behind it, `later` the one from behind its value. An option that takes a value and stands last has
-- none, so it is ignored.
module _ {W : Type 0} where
  abbrev pub act_last : Action W → Overrides W → Option (Parsed W)
  act_last (takes f) o = some (go_on o)
  act_last (sets f) o = some (go_on (f o))
  act_last shows_help o = some helped
  act_last ignored o = some (go_on o)

  abbrev pub act :
      Text
      → (next later : Overrides W → Option (Parsed W)) → Action W
      → Overrides W
      → Option (Parsed W)
  act v next later (takes f) o = f v o >>= later
  act v next later (sets f) o = next (f o)
  act v next later shows_help o = some helped
  act v next later ignored o = next o

-- The loop over the arguments.
unfoldable pub parse_args : (D : Double) → List Text → Overrides D.W → Option (Parsed D.W)
parse_args D [] o = some (go_on o)
parse_args D (a ∷ []) o = act_last (action D a) o
parse_args D (a ∷ v ∷ more) o = act v (parse_args D (v ∷ more)) (parse_args D more) (action D a) o
