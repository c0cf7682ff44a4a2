-- ===== src/Run/Named.antt =====
-- The records of a run name their results after the encoders of its formats.
use encoder_rle4k_cpu.Base.{
  ℕ, suc, ◌≡◌, refl, ap, sym, ◌∙◌, subst, inl, inr, List, [], ◌∷◌, ◌++◌, Option, none, some, arith,
  length, ◌==◌, Bool-cases, bind-eq-some, some_injective, ◌>>=◌,
}
use encoder_rle4k_cpu.Base.Int.{ℤ}
use encoder_rle4k_cpu.Text.{Text, codes}
use encoder_rle4k_cpu.Double.{Double}
use encoder_rle4k_cpu.System.{System}
use encoder_rle4k_cpu.Config.{BenchConfig}
use encoder_rle4k_cpu.Encoder.{Encoder, get_format_name}
use encoder_rle4k_cpu.Factory.{get_encoder, initialize_default_processors}
use encoder_rle4k_cpu.Report.{FmtResult, FileRecord}
use encoder_rle4k_cpu.Run.{Loading, load_failed, no_document, loaded, Tools}
use encoder_rle4k_cpu.Run.Geometry.{blocks_of}
use encoder_rle4k_cpu.Run.Accumulate.{FmtAcc, fmt_result, fmt_results, add_result}
use encoder_rle4k_cpu.Run.Formats.{Tally, accs_of, run_encoder, run_formats}
use encoder_rle4k_cpu.Run.Messages.{title_text, missing_text, loading_text, failed_text, skip_text}
use encoder_rle4k_cpu.Run.Files.{
  Progress, new_record, file_record, say, fail_load, keep_record, run_loaded, run_file, run_files,
}

-- The encoders of the formats of a run.
abbrev pub with_encoder : Option Encoder → List Encoder → List Encoder
with_encoder none rest = rest
with_encoder (some enc) rest = enc ∷ rest

abbrev pub encoders : List ℤ → List Encoder
encoders [] = []
encoders (fmt ∷ fmts) = with_encoder (get_encoder initialize_default_processors fmt) (encoders fmts)

abbrev pub names : {W : Type 0} → List (FmtResult W) → List Text
names [] = []
names (r ∷ rs) = r.name ∷ names rs

abbrev pub encoder_names : List Encoder → List Text
encoder_names [] = []
encoder_names (enc ∷ encs) = codes (get_format_name enc) ∷ encoder_names encs

module _ (D : Double) where
  pub add_result-names :
      (e : Option Encoder) (acc : FmtAcc D.W) (rs : List (FmtResult D.W)) (encs : List Encoder)
      → names rs ≡ encoder_names encs
      → names (add_result D e acc rs) ≡ encoder_names (with_encoder e encs)
  unfolding fmt_result
  add_result-names none acc rs encs rest = rest
  add_result-names (some enc) acc rs encs rest = ap (◌∷◌ (codes (get_format_name enc))) rest

  -- The results of a file are named after the encoders of the run, in order.
  fmt_results-names :
      (fmts : List ℤ) (accs : List (FmtAcc D.W))
      → length accs ≡ length fmts
      → names (fmt_results D fmts accs) ≡ encoder_names (encoders fmts)
  unfolding fmt_results
  fmt_results-names [] accs same = refl
  fmt_results-names (fmt ∷ fmts) [] same = absurd (omega (arith, same))
  fmt_results-names (fmt ∷ fmts) (acc ∷ accs) same =
      add_result-names (get_encoder initialize_default_processors fmt) acc (fmt_results D fmts accs)
        (encoders fmts) (fmt_results-names fmts accs (omega (arith, same)))

  module _ (S : System) (tools : Tools D S) (cfg : BenchConfig D.W) where
    length-run_formats :
        (file : Text) (document : tools.Document) (ncols nrows : ℤ) (fi : ℕ) (fmts : List ℤ)
        (ts : List (Tally D.W))
        → run_formats D S tools cfg file document ncols nrows fi fmts ≡ some ts
        → length (accs_of ts) ≡ length fmts
    unfolding run_formats
    length-run_formats file document ncols nrows fi [] ts h =
        ap (λ l. length (accs_of l)) (sym (some_injective h))
    length-run_formats file document ncols nrows fi (fmt ∷ fmts) ts h =
        let (t, _, h1) =
          bind-eq-some
            (run_encoder D S tools cfg file document ncols nrows fi
              (get_encoder initialize_default_processors fmt))
            _ h in
        let (rest, e, h2) =
          bind-eq-some (run_formats D S tools cfg file document ncols nrows (suc fi) fmts) _ h1 in
        ap (λ l. length (accs_of l)) (sym (some_injective h2))
        ∙ ap suc (length-run_formats file document ncols nrows (suc fi) fmts rest e)

    module _ (fmts : List ℤ) where
      abbrev pub HasNames : FileRecord D.W → Type 0
      HasNames rec = names rec.fmts ≡ encoder_names (encoders fmts)

      abbrev pub AllNamed : List (FileRecord D.W) → Type 0
      AllNamed [] = Unit {0}
      AllNamed (rec ∷ recs) = HasNames rec × AllNamed recs

      file_record-HasNames :
          (file : Text) (document : tools.Document) (r : FileRecord D.W × Text)
          → file_record D S tools cfg fmts file document ≡ some r
          → HasNames r.0
      unfolding file_record new_record
      file_record-HasNames file document r h =
          let (ncols, _, h1) = bind-eq-some (blocks_of _ cfg.strip_width) _ h in
          let (nrows, _, h2) = bind-eq-some (blocks_of _ cfg.block_line) _ h1 in
          let (ts, e, h3) =
            bind-eq-some (run_formats D S tools cfg file document ncols nrows 0 fmts) _ h2 in
          ap (λ x. names x.0.fmts) (sym (some_injective h3))
          ∙ fmt_results-names fmts (accs_of ts)
              (length-run_formats file document ncols nrows 0 fmts ts e)

      AllNamed-append :
          (recs : List (FileRecord D.W)) (rec : FileRecord D.W)
          → AllNamed recs
          → HasNames rec
          → AllNamed (recs ++ (rec ∷ []))
      AllNamed-append [] rec all named = (named, tt)
      AllNamed-append (r ∷ recs) rec all named = (all.0, AllNamed-append recs rec (all.1) named)

      AllNamed-move :
          (p q : Progress D S) → some p ≡ some q → AllNamed p.all_files → AllNamed q.all_files
      AllNamed-move p q h all = subst (λ x. AllNamed x.all_files) (some_injective h) all

      run_file-AllNamed :
          (title file : Text) (p q : Progress D S)
          → run_file D S tools cfg fmts title file p ≡ some q
          → AllNamed p.all_files
          → AllNamed q.all_files
      unfolding run_file
      run_file-AllNamed title file p q h all = elim (Bool-cases (S.exists p.world.disk file)) [
        | inl e ↦ by_loading (tools.load p.world.disk file) (rw e at h)
        | inr e ↦
            let stopped =
              fail_load D S tools cfg fmts
                (say D S tools cfg fmts (missing_text file) (say D S tools cfg fmts title p)) in
            let stop : some stopped ≡ some q = rw e at h in AllNamed-move stopped q stop all
      ]
        where
          announced : Progress D S
          announced = say D S tools cfg fmts loading_text (say D S tools cfg fmts title p)

          by_record :
              (r : Option (FileRecord D.W × Text))
              → ((rec : FileRecord D.W × Text) → r ≡ some rec → HasNames rec.0)
              → (r >>= λ rec. some (keep_record D S tools cfg fmts announced rec)) ≡ some q
              → AllNamed q.all_files
          by_record none named h = cc h
          by_record (some rec) named h =
              AllNamed-move (keep_record D S tools cfg fmts announced rec) q h
                (AllNamed-append p.all_files rec.0 all (named rec refl))

          by_loading :
              (l : Loading tools.Document)
              → run_loaded D S tools cfg fmts file announced l ≡ some q
              → AllNamed q.all_files
          by_loading (load_failed what) h =
              AllNamed-move
                (fail_load D S tools cfg fmts (say D S tools cfg fmts (failed_text what) announced))
                q h all
          by_loading no_document h =
              AllNamed-move (say D S tools cfg fmts skip_text announced) q h all
          by_loading (loaded document) h = elim (Bool-cases (tools.layer_count document == 0)) [
            | inl e ↦ AllNamed-move (say D S tools cfg fmts skip_text announced) q (rw e at h) all
            | inr e ↦
                by_record (file_record D S tools cfg fmts file document)
                  (file_record-HasNames file document) (rw e at h)
          ]

      pub run_files-AllNamed :
          (total idx : ℕ) (files : List Text) (p q : Progress D S)
          → run_files D S tools cfg fmts total idx files p ≡ some q
          → AllNamed p.all_files
          → AllNamed q.all_files
      unfolding run_files
      run_files-AllNamed total idx [] p q h all = AllNamed-move p q h all
      run_files-AllNamed total idx (file ∷ files) p q h all =
          let (after, here, later) =
            bind-eq-some
              (run_file D S tools cfg fmts (title_text (suc idx) total (S.filename file)) file p)
              (run_files D S tools cfg fmts total (suc idx) files) h in
          run_files-AllNamed total (suc idx) files after q later
            (run_file-AllNamed _ file p after here all)
