-- ===== src/Run/Checked.antt =====
-- A file of a run with every phase and the check on.
use encoder_rle4k_cpu.Base.{
  ℕ, suc, ◌<◌, ◌≡◌, refl, ap, ◌∙◌, true, ◌&&◌, List, [], ◌∷◌, Option, none, some, arith, ◌>>=◌,
}
use encoder_rle4k_cpu.Base.Int.{ℤ, max_ℤ, pos_part}
use encoder_rle4k_cpu.Text.{Text}
use encoder_rle4k_cpu.Double.{Double}
use encoder_rle4k_cpu.System.{System}
use encoder_rle4k_cpu.Libraries.Laws.{Documented}
use encoder_rle4k_cpu.Encoder.{Encoder, get_supported_format}
use encoder_rle4k_cpu.Factory.{get_encoder, initialize_default_processors}
use encoder_rle4k_cpu.Phase.Decode.Rounds.{KeepsBuffer}
use encoder_rle4k_cpu.Phase.Slots.{run_from_total}
use encoder_rle4k_cpu.Column.{Totals}
use encoder_rle4k_cpu.Column.Good.{GoodColumn}
use encoder_rle4k_cpu.Column.Verdict.{column-all_ok}
use encoder_rle4k_cpu.Config.{BenchConfig}
use encoder_rle4k_cpu.Settings.{threads}
use encoder_rle4k_cpu.Report.{FmtResult, FileRecord, is_on}
use encoder_rle4k_cpu.Run.{Tools}
use encoder_rle4k_cpu.Run.Geometry.{blocks_of}
use encoder_rle4k_cpu.Run.Times.{ColumnTimes, column_times_total}
use encoder_rle4k_cpu.Run.Accumulate.{
  FmtAcc, switches_of, args_of, add_column, fmt_result, fmt_results, add_result,
}
use encoder_rle4k_cpu.Run.Formats.{
  Tally, new_tally, accs_of, rasterize, cache_blocks, tally_column, times_of, run_column,
  run_columns, run_encoder, run_formats,
}
use encoder_rle4k_cpu.Run.Named.{names, encoders, encoder_names, add_result-names}
use encoder_rle4k_cpu.Run.Files.{img_w, img_h, new_record, with_lines, file_record}

-- Every result is OK.
abbrev pub AllOk : {W : Type 0} → List (FmtResult W) → Type 0
AllOk [] = Unit {0}
AllOk (r ∷ rs) = (r.ok ≡ true) × AllOk rs

module _ (D : Double) (S : System) (tools : Tools D S) (cfg : BenchConfig D.W) (file : Text)
    (document : tools.Document) (ncols nrows : ℤ) where
  -- Every phase and the check are on, and libraster and the codecs do what they document.
  pub record Checking : Type 0 where
    pub encodes : is_on cfg.encode_enabled ≡ true
    pub decodes : is_on cfg.decode_enabled ≡ true
    pub checks : is_on cfg.check_enabled ≡ true
    pub documented : Documented tools.lib

  -- A decoder keeps the size of its buffer, and each column has good blocks.
  abbrev pub Fits : Encoder → Type 0
  Fits enc =
      KeepsBuffer tools.lib (get_supported_format enc)
      × ((col : ℕ)
          → col < pos_part ncols
          → GoodColumn tools.lib enc (args_of cfg)
              (rasterize D S tools cfg file document ncols nrows) col (pos_part nrows))

  abbrev pub FitsAny : Option Encoder → Type 0
  FitsAny none = Unit {0}
  FitsAny (some enc) = Fits enc

  -- This holds for the encoder of each format.
  abbrev pub AllFit : List ℤ → Type 0
  AllFit [] = Unit {0}
  AllFit (fmt ∷ fmts) = FitsAny (get_encoder initialize_default_processors fmt) × AllFit fmts

  some_repeat : 0 < (switches_of cfg).repeat
  unfolding switches_of max_ℤ
  some_repeat = ground arith

  some_block : 0 < cache_blocks D S tools cfg file document ncols nrows
  unfolding threads max_ℤ
  some_block = ground arith

  kept_ok :
      (times : ColumnTimes D.W) (acc : FmtAcc D.W) (t : Totals)
      → t.all_ok ≡ true
      → acc.ok ≡ true
      → (add_column D (switches_of cfg) times t acc).ok ≡ true
  unfolding add_column
  kept_ok times acc t e f = ground (arith, e, f)

  module _ (on : Checking) where
    run_column_total :
        (fi : ℕ) (enc : Encoder) (fit : Fits enc) (col : ℕ) (t : Tally D.W)
        → col < pos_part ncols
        → t.acc.ok ≡ true
        → (after : Tally D.W) × (run_column D S tools cfg file document ncols nrows fi enc col t
            ≡ some after)
          × (after.acc.ok ≡ true)
    unfolding run_column switches_of
    run_column_total fi enc fit col t lt fine =
        let both = ap (λ b. b && is_on cfg.decode_enabled) on.encodes ∙ on.decodes in
        let (totals, e, all_ok) =
          column-all_ok tools.lib enc (args_of cfg)
            (rasterize D S tools cfg file document ncols nrows) col
            (cache_blocks D S tools cfg file document ncols nrows) (pos_part nrows)
            (switches_of cfg) on.documented (fit.0) (fit.1 col lt) some_block some_repeat on.encodes
            both on.checks in
        let (times, f) =
          column_times_total D tools.per_us (threads cfg) (switches_of cfg)
            (tools.clock file fi col) (cache_blocks D S tools cfg file document ncols nrows)
            (pos_part nrows) some_block in
        let tally = tally_column D S tools cfg file document ncols nrows enc col t totals in
        (
          tally times,
          ap
                (λ r. r >>= λ x. times_of D S tools cfg file document ncols nrows fi col >>= λ y.
                  some (tally_column D S tools cfg file document ncols nrows enc col t x y))
                e
              ∙ ap (λ r. r >>= λ y. some (tally y)) f,
          kept_ok times t.acc totals all_ok fine,
        )

    run_encoder_total :
        (fi : ℕ) (e : Option Encoder)
        → FitsAny e
        → (t : Tally D.W) × (run_encoder D S tools cfg file document ncols nrows fi e ≡ some t)
          × (t.acc.ok ≡ true)
    unfolding run_columns
    run_encoder_total fi none fit = (new_tally D, refl, refl)
    run_encoder_total fi (some enc) fit =
        run_from_total (run_column D S tools cfg file document ncols nrows fi enc)
          (λ col t. t.acc.ok ≡ true) (pos_part ncols)
          (λ col t lt fine. run_column_total fi enc fit col t lt fine) (pos_part ncols) 0
          (new_tally D) (omega arith) refl

    abbrev AllKept : List (FmtAcc D.W) → Type 0
    AllKept [] = Unit {0}
    AllKept (acc ∷ accs) = (acc.ok ≡ true) × AllKept accs

    run_formats_total :
        (fi : ℕ) (fmts : List ℤ)
        → AllFit fmts
        → (ts : List (Tally D.W)) × (run_formats D S tools cfg file document ncols nrows fi fmts
            ≡ some ts)
          × AllKept (accs_of ts)
          × (names (fmt_results D fmts (accs_of ts)) ≡ encoder_names (encoders fmts))
    unfolding run_formats fmt_results
    run_formats_total fi [] fit = ([], refl, tt, refl)
    run_formats_total fi (fmt ∷ fmts) fit =
        let (t, e, fine) =
          run_encoder_total fi (get_encoder initialize_default_processors fmt) (fit.0) in
        let (ts, f, all, same) = run_formats_total (suc fi) fmts (fit.1) in
        (
          t ∷ ts,
          rw (e, f) refl,
          (fine, all),
          add_result-names D (get_encoder initialize_default_processors fmt) t.acc
              (fmt_results D fmts (accs_of ts)) (encoders fmts) same,
        )

    add_result-AllOk :
        (e : Option Encoder) (acc : FmtAcc D.W) (rs : List (FmtResult D.W))
        → acc.ok ≡ true
        → AllOk rs
        → AllOk (add_result D e acc rs)
    unfolding fmt_result
    add_result-AllOk none acc rs fine all = all
    add_result-AllOk (some enc) acc rs fine all = (fine, all)

    fmt_results-AllOk :
        (fmts : List ℤ) (accs : List (FmtAcc D.W)) → AllKept accs → AllOk (fmt_results D fmts accs)
    unfolding fmt_results
    fmt_results-AllOk [] accs all = tt
    fmt_results-AllOk (fmt ∷ fmts) [] all = tt
    fmt_results-AllOk (fmt ∷ fmts) (acc ∷ accs) all =
        add_result-AllOk (get_encoder initialize_default_processors fmt) acc
          (fmt_results D fmts accs) (all.0) (fmt_results-AllOk fmts accs (all.1))

    -- With every phase and the check on, a file gets its record, under its name, with a result for each format
    -- that has an encoder, in their order, each of them OK:
    -- where the numbers of columns and rows are defined, libraster and the codecs do what they document, and
    -- for each format the decoder keeps the size of its buffer and the blocks of each column are good.
    pub file_record-AllOk :
        (fmts : List ℤ)
        → AllFit fmts
        → blocks_of (img_w D S tools cfg fmts document) cfg.strip_width ≡ some ncols
        → blocks_of (img_h D S tools cfg fmts document) cfg.block_line ≡ some nrows
        → (r : FileRecord D.W × Text) × (file_record D S tools cfg fmts file document ≡ some r)
          × AllOk r.0.fmts
          × (names r.0.fmts ≡ encoder_names (encoders fmts))
          × (r.0.short_name ≡ S.filename file)
    unfolding file_record new_record
    file_record-AllOk fmts fit columns rows =
        let (ts, e, all, same) = run_formats_total 0 fmts fit in
        let r =
          with_lines D S tools cfg fmts
            (new_record D S tools cfg fmts file document ncols nrows (accs_of ts)) ts in
        (r, rw (columns, rows, e) refl, fmt_results-AllOk fmts (accs_of ts) all, same, refl)
