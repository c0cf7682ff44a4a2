-- ===== src/Run/Sound.antt =====
-- What OK means in the report of a file of redcli/main.cpp: each row of each column was verified.
use encoder_rle4k_cpu.Base.{
  ℕ, suc, ◌<◌, ◌≡◌, refl, ap, ◌∙◌, subst, true, false, ◌&&◌, List, [], ◌∷◌, Option, none, some,
  arith, bind-eq-some, some_injective, dec_lt,
}
use encoder_rle4k_cpu.Base.Int.{ℤ, max_ℤ, pos_part}
use encoder_rle4k_cpu.Text.{Text}
use encoder_rle4k_cpu.Double.{Double}
use encoder_rle4k_cpu.System.{System}
use encoder_rle4k_cpu.Encoder.{Encoder, get_supported_format}
use encoder_rle4k_cpu.Factory.{get_encoder, initialize_default_processors}
use encoder_rle4k_cpu.Phase.Decode.Rounds.{KeepsBuffer}
use encoder_rle4k_cpu.Phase.Slots.{run_from_inv}
use encoder_rle4k_cpu.Column.{Totals, column}
use encoder_rle4k_cpu.Column.Sound.{RowVerified, column-RowVerified}
use encoder_rle4k_cpu.Config.{BenchConfig}
use encoder_rle4k_cpu.Settings.{threads}
use encoder_rle4k_cpu.Report.{FmtResult, FileRecord, is_on}
use encoder_rle4k_cpu.Run.{Tools}
use encoder_rle4k_cpu.Run.Times.{ColumnTimes}
use encoder_rle4k_cpu.Run.Geometry.{blocks_of}
use encoder_rle4k_cpu.Run.Accumulate.{
  FmtAcc, switches_of, args_of, add_column, fmt_result, fmt_results, add_result,
}
use encoder_rle4k_cpu.Run.Formats.{
  Tally, new_tally, accs_of, rasterize, cache_blocks, times_of, run_column, run_columns,
  run_encoder, run_formats,
}
use encoder_rle4k_cpu.Run.Files.{img_w, img_h, new_record, file_record}

module _ (D : Double) (S : System) (tools : Tools D S) (cfg : BenchConfig D.W) where
  -- Every phase and the check are on.
  pub record AllOn : Type 0 where
    pub encodes : is_on cfg.encode_enabled ≡ true
    pub decodes : is_on cfg.decode_enabled ≡ true
    pub checks : is_on cfg.check_enabled ≡ true

  abbrev pub KeepsAny : Option Encoder → Type 0
  KeepsAny none = Unit {0}
  KeepsAny (some enc) = KeepsBuffer tools.lib (get_supported_format enc)

  -- The decoder of each format keeps the size of its buffer.
  abbrev pub AllKeep : List ℤ → Type 0
  AllKeep [] = Unit {0}
  AllKeep (fmt ∷ fmts) = KeepsAny (get_encoder initialize_default_processors fmt) × AllKeep fmts

  module _ (file : Text) (document : tools.Document) (ncols nrows : ℤ) where
    -- Each row of the first `n` columns is verified.
    abbrev pub ColumnsVerified : Encoder → ℕ → Type 0
    ColumnsVerified enc n =
        (col : ℕ)
        → col < n
        → (row : ℕ) → row < pos_part nrows
        → RowVerified tools.lib enc (args_of cfg)
            (rasterize D S tools cfg file document ncols nrows) col row

    -- A result that is OK stands for columns that are verified.
    abbrev pub Stands : Encoder → FmtResult D.W → Type 0
    Stands enc r = r.ok ≡ true → ColumnsVerified enc (pos_part ncols)

    abbrev pub Standing :
        Option Encoder → (List (FmtResult D.W) → Type 0) → List (FmtResult D.W) → Type 0
    Standing none rest rs = rest rs
    Standing (some enc) rest [] = true ≡ false
    Standing (some enc) rest (r ∷ rs) = Stands enc r × rest rs

    -- The results are those of the formats that have encoders, in their order.
    abbrev pub AllStand : List ℤ → List (FmtResult D.W) → Type 0
    AllStand [] rs = rs ≡ []
    AllStand (fmt ∷ fmts) rs =
        Standing (get_encoder initialize_default_processors fmt) (AllStand fmts) rs

    module _ (on : AllOn) where
      some_repeat : 0 < (switches_of cfg).repeat
      unfolding switches_of max_ℤ
      some_repeat = ground arith

      some_block : 0 < cache_blocks D S tools cfg file document ncols nrows
      unfolding threads max_ℤ
      some_block = ground arith

      decoding : (switches_of cfg).do_decode ≡ true
      unfolding switches_of
      decoding = ap (λ b. b && is_on cfg.decode_enabled) on.encodes ∙ on.decodes

      encoding : (switches_of cfg).do_encode ≡ true
      unfolding switches_of
      encoding = on.encodes

      checking : (switches_of cfg).do_check ≡ true
      unfolding switches_of
      checking = on.checks

      -- A format that is still OK was OK before the column, and the column is OK.
      added_ok :
          (times : ColumnTimes D.W) (acc : FmtAcc D.W) (t : Totals)
          → (add_column D (switches_of cfg) times t acc).ok ≡ true
          → (acc.ok ≡ true) × (t.all_ok ≡ true)
      unfolding add_column
      added_ok times acc t fine =
          let d = decoding in let c = checking in (ground (arith, d, c), ground (arith, d, c))

      run_column_sound :
          (enc : Encoder) (fi col : ℕ) (t t' : Tally D.W)
          → KeepsBuffer tools.lib (get_supported_format enc)
          → run_column D S tools cfg file document ncols nrows fi enc col t ≡ some t'
          → t'.acc.ok ≡ true
          → (t.acc.ok ≡ true)
            × ((row : ℕ)
                → row < pos_part nrows
                → RowVerified tools.lib enc
                    (args_of cfg)
                    (rasterize D S tools cfg file document ncols nrows)
                    col
                    row)
      unfolding run_column
      run_column_sound enc fi col t t' keeps ran fine =
          let (totals, e0, e1) =
            bind-eq-some
              (column tools.lib enc (args_of cfg) (switches_of cfg)
                (rasterize D S tools cfg file document ncols nrows) col
                (cache_blocks D S tools cfg file document ncols nrows) (pos_part nrows))
              _ ran in
          let (times, f0, f1) =
            bind-eq-some (times_of D S tools cfg file document ncols nrows fi col) _ e1 in
          let (before, all_ok) =
            added_ok times t.acc totals (ap (λ x. x.acc.ok) (some_injective f1) ∙ fine) in
          (
            before,
            column-RowVerified tools.lib enc (args_of cfg)
                (rasterize D S tools cfg file document ncols nrows) col
                (cache_blocks D S tools cfg file document ncols nrows) (pos_part nrows)
                (switches_of cfg) totals keeps some_block some_repeat encoding decoding checking e0
                all_ok,
          )

      run_columns_sound :
          (enc : Encoder) (fi : ℕ) (t : Tally D.W)
          → KeepsBuffer tools.lib (get_supported_format enc)
          → run_columns D S tools cfg file document ncols nrows fi enc (new_tally D) ≡ some t
          → t.acc.ok ≡ true
          → ColumnsVerified enc (pos_part ncols)
      unfolding run_columns
      run_columns_sound enc fi t keeps ran =
          run_from_inv (run_column D S tools cfg file document ncols nrows fi enc)
            (λ n s. s.acc.ok ≡ true → ColumnsVerified enc n) (pos_part ncols) keep (pos_part ncols)
            0 (new_tally D) t (omega arith) (λ _ col lt. absurd (omega arith)) ran
        where
          keep :
              (n : ℕ) (s s' : Tally D.W)
              → n < pos_part ncols
              → (s.acc.ok ≡ true → ColumnsVerified enc n)
              → run_column D S tools cfg file document ncols nrows fi enc n s ≡ some s'
              → s'.acc.ok ≡ true
              → ColumnsVerified enc (suc n)
          keep n s s' lt before e fine col below =
              let (was, here) = run_column_sound enc fi n s s' keeps e fine in
              elim (dec_lt col n) [
                | yes earlier ↦ before was col earlier
                | no last ↦
                    let same : n ≡ col = omega arith in
                    subst
                      (λ c.
                        (row : ℕ)
                        → row < pos_part nrows
                        → RowVerified tools.lib enc (args_of cfg)
                            (rasterize D S tools cfg file document ncols nrows) c row)
                      same here
              ]

      Standing-add_result :
          (e : Option Encoder) (fi : ℕ) (t : Tally D.W) (rest : List (FmtResult D.W) → Type 0)
          (rs : List (FmtResult D.W))
          → KeepsAny e
          → run_encoder D S tools cfg file document ncols nrows fi e ≡ some t
          → rest rs
          → Standing e rest (add_result D e t.acc rs)
      unfolding fmt_result
      Standing-add_result none fi t rest rs keeps ran p = p
      Standing-add_result (some enc) fi t rest rs keeps ran p =
          (run_columns_sound enc fi t keeps ran, p)

      fmt_results-AllStand :
          (fi : ℕ) (fmts : List ℤ) (ts : List (Tally D.W))
          → AllKeep fmts
          → run_formats D S tools cfg file document ncols nrows fi fmts ≡ some ts
          → AllStand fmts (fmt_results D fmts (accs_of ts))
      unfolding run_formats fmt_results
      fmt_results-AllStand fi [] ts keeps ran = refl
      fmt_results-AllStand fi (fmt ∷ fmts) ts (keep, keeps) ran =
          let enc : Option Encoder = get_encoder initialize_default_processors fmt in
          let (t, e0, e1) =
            bind-eq-some (run_encoder D S tools cfg file document ncols nrows fi enc) _ ran in
          let (rest, f0, f1) =
            bind-eq-some (run_formats D S tools cfg file document ncols nrows (suc fi) fmts) _ e1 in
          let same : t ∷ rest ≡ ts = some_injective f1 in
          subst (λ x. AllStand (fmt ∷ fmts) (fmt_results D (fmt ∷ fmts) (accs_of x))) same
            (Standing-add_result enc fi t (AllStand fmts) (fmt_results D fmts (accs_of rest)) keep
              e0 (fmt_results-AllStand (suc fi) fmts rest keeps f0))

  -- The record of a file never says OK in vain: where every phase and the check are on and a decoder
  -- keeps the size of its buffer, its results are those of the formats that have encoders, in their
  -- order, and one that is OK means that each row of each of the file's columns was rasterized, its block
  -- hashed and packed by the format's encoder, and the payload verified: its decode succeeds and gives
  -- bytes of the same hash, but for Brotli and for blocks without a digest, where nothing is asked.
  pub file_record-AllStand :
      (fmts : List ℤ) (file : Text) (document : tools.Document) (ncols nrows : ℤ)
      (r : FileRecord D.W × Text)
      → AllOn
      → AllKeep fmts
      → blocks_of (img_w D S tools cfg fmts document) cfg.strip_width ≡ some ncols
      → blocks_of (img_h D S tools cfg fmts document) cfg.block_line ≡ some nrows
      → file_record D S tools cfg fmts file document ≡ some r
      → AllStand file document ncols nrows fmts r.0.fmts
  unfolding file_record new_record
  file_record-AllStand fmts file document ncols nrows r on keeps columns rows ran =
      let ran_there = rw (columns, rows) at ran in
      let (ts, e0, e1) =
        bind-eq-some (run_formats D S tools cfg file document ncols nrows 0 fmts) _ ran_there in
      subst (λ x. AllStand file document ncols nrows fmts x.0.fmts) (some_injective e1)
        (fmt_results-AllStand file document ncols nrows on 0 fmts ts keeps e0)
