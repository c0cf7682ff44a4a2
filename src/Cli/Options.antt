-- ===== src/Cli/Options.antt =====
-- Settings written as options of `redcli run`, and the arguments that are no options.
use encoder_rle4k_cpu.Base.{
  ◌≡◌, refl, ap, ◌∙◌, true, false, List, [], ◌∷◌, ◌++◌, Option, some, ◌>>=◌, ◌==◌,
}
use encoder_rle4k_cpu.Base.Int.{ℤ, pos}
use encoder_rle4k_cpu.Text.{Text, codes, same}
use encoder_rle4k_cpu.Text.Decimal.{show_ℤ, IsInt, atoi-show_ℤ}
use encoder_rle4k_cpu.Double.{Double}
use encoder_rle4k_cpu.Config.{BenchConfig}
use encoder_rle4k_cpu.Cli.{
  Overrides, takes, sets, takes_int, ignored, action, act, act_last, go_on, parse_args,
}
use encoder_rle4k_cpu.Cli.Formats.{AllInts, joined_ids, parse_formats-joined_ids}

-- The settings of the usage text.
pub data Setting : Type 0 where
  input : Text → Setting
  mode : ℤ → Setting
  repeats : ℤ → Setting
  pitch : Text → Setting
  oblique : ℤ → Setting
  strip_height : ℤ → Setting
  strip_width : ℤ → Setting
  raster_threads : ℤ → Setting
  encode_threads : ℤ → Setting
  decode_threads : ℤ → Setting
  no_encode : Setting
  no_decode : Setting
  check : Setting
  no_check : Setting
  cache_blocks_min : ℤ → Setting
  cache_blocks_max : ℤ → Setting
  verbose : Text → Setting
  formats : List ℤ → Setting
  csv : Text → Setting
  force : Setting

abbrev pub arguments : Setting → List Text
arguments (input path) = codes "--input" ∷ path ∷ []
arguments (mode n) = codes "--mode" ∷ show_ℤ n ∷ []
arguments (repeats n) = codes "--repeat" ∷ show_ℤ n ∷ []
arguments (pitch um) = codes "--pw" ∷ um ∷ []
arguments (oblique n) = codes "-N" ∷ show_ℤ n ∷ []
arguments (strip_height n) = codes "--strip-height" ∷ show_ℤ n ∷ []
arguments (strip_width n) = codes "--strip-width" ∷ show_ℤ n ∷ []
arguments (raster_threads n) = codes "--threads" ∷ show_ℤ n ∷ []
arguments (encode_threads n) = codes "--encode-threads" ∷ show_ℤ n ∷ []
arguments (decode_threads n) = codes "--decode-threads" ∷ show_ℤ n ∷ []
arguments no_encode = codes "--no-encode" ∷ []
arguments no_decode = codes "--no-decode" ∷ []
arguments check = codes "--check" ∷ []
arguments no_check = codes "--no-check" ∷ []
arguments (cache_blocks_min n) = codes "--cache-blocks-min" ∷ show_ℤ n ∷ []
arguments (cache_blocks_max n) = codes "--cache-blocks" ∷ show_ℤ n ∷ []
arguments (verbose how) = codes "--verbose" ∷ how ∷ []
arguments (formats ids) = codes "--formats" ∷ joined_ids ids ∷ []
arguments (csv path) = codes "--csv" ∷ path ∷ []
arguments force = codes "--force" ∷ []

abbrev pub command_line : List Setting → List Text
command_line [] = []
command_line (s ∷ ss) = arguments s ++ command_line ss

module _ (D : Double) where
  -- The numbers are ints, and `stod` reads the pitch.
  abbrev pub IsReadable : Setting → Type 0
  IsReadable (mode n) = IsInt n
  IsReadable (repeats n) = IsInt n
  IsReadable (pitch um) = (x : D.W) × (D.stod um ≡ some x)
  IsReadable (oblique n) = IsInt n
  IsReadable (strip_height n) = IsInt n
  IsReadable (strip_width n) = IsInt n
  IsReadable (raster_threads n) = IsInt n
  IsReadable (encode_threads n) = IsInt n
  IsReadable (decode_threads n) = IsInt n
  IsReadable (cache_blocks_min n) = IsInt n
  IsReadable (cache_blocks_max n) = IsInt n
  IsReadable (formats ids) = AllInts ids
  IsReadable _ = Unit {0}

  abbrev pub AllReadable : List Setting → Type 0
  AllReadable [] = Unit {0}
  AllReadable (s ∷ ss) = IsReadable s × AllReadable ss

  abbrev pub in_config : (BenchConfig D.W → BenchConfig D.W) → Overrides D.W → Overrides D.W
  in_config assign o = record o { cfg = assign o.cfg }

  -- What a setting means.
  abbrev pub override : (s : Setting) → IsReadable s → Overrides D.W → Overrides D.W
  override (input path) r = in_config λ c. record c { input_path = path }
  override (mode n) r = in_config λ c. record c { mode = n }
  override (repeats n) r = in_config λ c. record c { repeat = n }
  override (pitch um) r = in_config λ c. record c { pitch_width_um = r.0 }
  override (oblique n) r = in_config λ c. record c { oblique_factor = n }
  override (strip_height n) r = in_config λ c. record c { block_line = n }
  override (strip_width n) r = in_config λ c. record c { strip_width = n }
  override (raster_threads n) r = in_config λ c. record c { raster_threads = n }
  override (encode_threads n) r = in_config λ c. record c { encode_threads = n }
  override (decode_threads n) r = in_config λ c. record c { decode_threads = n }
  override no_encode r = in_config λ c. record c { encode_enabled = pos 0 }
  override no_decode r = in_config λ c. record c { decode_enabled = pos 0 }
  override check r = in_config λ c. record c { check_enabled = pos 1 }
  override no_check r = in_config λ c. record c { check_enabled = pos 0 }
  override (cache_blocks_min n) r = in_config λ c. record c { cache_blocks_min = n }
  override (cache_blocks_max n) r = in_config λ c. record c { cache_blocks_max = n }
  override (verbose how) r = in_config λ c. record c { verbose = how }
  override (formats ids) r = in_config λ c. record c { formats = ids }
  override (csv path) r = λ o. record o { csv_path = path }
  override force r = λ o. record o { force = true }

  abbrev pub override_all : (ss : List Setting) → AllReadable ss → Overrides D.W → Overrides D.W
  override_all [] r o = o
  override_all (s ∷ ss) r o = override_all ss (r.1) (override s (r.0) o)

  step_takes :
      (a v : Text) (more : List Text) (f : Text → Overrides D.W → Option (Overrides D.W))
      {o after : Overrides D.W}
      → action D a ≡ takes f
      → f v o ≡ some after
      → parse_args D (a ∷ v ∷ more) o ≡ parse_args D more after
  unfolding parse_args
  step_takes a v more f {o} e h =
      ap (λ x. act v (parse_args D (v ∷ more)) (parse_args D more) x o) e
      ∙ ap (λ r. r >>= parse_args D more) h

  step_int :
      (a : Text) (n : ℤ) (more : List Text) (assign : ℤ → BenchConfig D.W → BenchConfig D.W)
      (o : Overrides D.W)
      → IsInt n
      → action D a ≡ takes_int assign
      → parse_args D (a ∷ show_ℤ n ∷ more) o ≡ parse_args D more (in_config (assign n) o)
  step_int a n more assign o int e =
      step_takes a (show_ℤ n) more _ e
        (ap (λ v. v >>= λ k. some (in_config (assign k) o)) (atoi-show_ℤ n int).1)

  step_sets :
      (a : Text) (more : List Text) (f : Overrides D.W → Overrides D.W) (o : Overrides D.W)
      → action D a ≡ sets f
      → parse_args D (a ∷ more) o ≡ parse_args D more (f o)
  unfolding parse_args
  step_sets a [] f o e = ap (λ x. act_last x o) e
  step_sets a (v ∷ more) f o e = ap (λ x. act v (parse_args D (v ∷ more)) (parse_args D more) x o) e

  step_setting :
      (s : Setting) (r : IsReadable s) (more : List Text) (o : Overrides D.W)
      → parse_args D (arguments s ++ more) o ≡ parse_args D more (override s r o)
  unfolding action same
  step_setting (input path) r more o = step_takes (codes "--input") path more _ refl refl
  step_setting (mode n) r more o = step_int (codes "--mode") n more _ o r refl
  step_setting (repeats n) r more o = step_int (codes "--repeat") n more _ o r refl
  step_setting (pitch um) (x, e) more o =
      step_takes (codes "--pw") um more _ refl
        (ap (λ v. v >>= λ x. some (in_config (λ c. record c { pitch_width_um = x }) o)) e)
  step_setting (oblique n) r more o = step_int (codes "-N") n more _ o r refl
  step_setting (strip_height n) r more o = step_int (codes "--strip-height") n more _ o r refl
  step_setting (strip_width n) r more o = step_int (codes "--strip-width") n more _ o r refl
  step_setting (raster_threads n) r more o = step_int (codes "--threads") n more _ o r refl
  step_setting (encode_threads n) r more o = step_int (codes "--encode-threads") n more _ o r refl
  step_setting (decode_threads n) r more o = step_int (codes "--decode-threads") n more _ o r refl
  step_setting no_encode r more o = step_sets (codes "--no-encode") more _ o refl
  step_setting no_decode r more o = step_sets (codes "--no-decode") more _ o refl
  step_setting check r more o = step_sets (codes "--check") more _ o refl
  step_setting no_check r more o = step_sets (codes "--no-check") more _ o refl
  step_setting (cache_blocks_min n) r more o =
      step_int (codes "--cache-blocks-min") n more _ o r refl
  step_setting (cache_blocks_max n) r more o = step_int (codes "--cache-blocks") n more _ o r refl
  step_setting (verbose how) r more o = step_takes (codes "--verbose") how more _ refl refl
  step_setting (formats ids) r more o =
      step_takes (codes "--formats") (joined_ids ids) more _ refl (
        ap (λ v. v >>= λ ids. some (in_config (λ c. record c { formats = ids }) o))
          (parse_formats-joined_ids ids r))
  step_setting (csv path) r more o = step_takes (codes "--csv") path more _ refl refl
  step_setting force r more o = step_sets (codes "--force") more _ o refl

  -- Settings that are written as options, in any order and number, are read back: the loop over the
  -- arguments goes through all of them, and each has the effect that it means, the later over the earlier.
  pub parse_args-command_line :
      (ss : List Setting) (r : AllReadable ss) (o : Overrides D.W)
      → parse_args D (command_line ss) o ≡ some (go_on (override_all ss r o))
  unfolding parse_args
  parse_args-command_line [] r o = refl
  parse_args-command_line (s ∷ ss) r o =
      step_setting s (r.0) (command_line ss) o
      ∙ parse_args-command_line ss (r.1) (override s (r.0) o)

  -- An argument that does not start with '-'.
  abbrev pub IsPositional : Text → Type 0
  IsPositional [] = Unit {0}
  IsPositional (c ∷ s) = (c == b'-') ≡ false

  action_positional : (a : Text) → IsPositional a → action D a ≡ ignored
  unfolding action same
  action_positional [] h = refl
  action_positional (c ∷ s) h = rw h refl

  -- An argument that is not the value of an option and does not start with '-' is skipped, also the path
  -- of a configuration file that the usage text promises to read.
  pub parse_args-positional :
      (a : Text) (more : List Text) (o : Overrides D.W)
      → IsPositional a
      → parse_args D (a ∷ more) o ≡ parse_args D more o
  unfolding parse_args
  parse_args-positional a [] o h = ap (λ x. act_last x o) (action_positional a h)
  parse_args-positional a (v ∷ more) o h =
      ap (λ x. act v (parse_args D (v ∷ more)) (parse_args D more) x o) (action_positional a h)
