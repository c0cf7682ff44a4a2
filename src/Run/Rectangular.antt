-- ===== src/Run/Rectangular.antt =====
-- The CSV file of a run has the same columns in every row.
use encoder_rle4k_cpu.Base.{
  ℕ, zero, suc, ◌≡◌, refl, ap, sym, ◌∙◌, subst, List, [], ◌∷◌, some, length, get_elem?,
  some_injective,
}
use encoder_rle4k_cpu.Base.Int.{ℤ}
use encoder_rle4k_cpu.Text.{Text, codes}
use encoder_rle4k_cpu.Double.{Double}
use encoder_rle4k_cpu.System.{System, World}
use encoder_rle4k_cpu.Config.{BenchConfig}
use encoder_rle4k_cpu.Encoder.{Encoder, rle4k, gzip, lzo2, snappy, zstd, brotli, get_format_name}
use encoder_rle4k_cpu.Report.{FmtResult, FileRecord}
use encoder_rle4k_cpu.Report.Csv.{csv_row, csv_header}
use encoder_rle4k_cpu.Report.Commas.{commas, PlainNumbers, PlainNames, csv_row-commas}
use encoder_rle4k_cpu.Run.{Tools}
use encoder_rle4k_cpu.Run.Files.{Progress, run_files}
use encoder_rle4k_cpu.Run.Command.{start_progress}
use encoder_rle4k_cpu.Run.Named.{
  encoders, names, encoder_names, HasNames, AllNamed, run_files-AllNamed,
}

module _ (D : Double) (S : System) (tools : Tools D S) (cfg : BenchConfig D.W) (fmts : List ℤ) where
  plain_name : (enc : Encoder) → commas (codes (get_format_name enc)) ≡ 0
  unfolding commas get_format_name
  plain_name rle4k = refl
  plain_name gzip = refl
  plain_name lzo2 = refl
  plain_name snappy = refl
  plain_name zstd = refl
  plain_name brotli = refl

  names_plain :
      (rs : List (FmtResult D.W)) (encs : List Encoder)
      → names rs ≡ encoder_names encs
      → PlainNames D cfg rs
  names_plain [] encs e = tt
  names_plain (r ∷ rs) [] e = cc e
  names_plain (r ∷ rs) (enc ∷ encs) e =
      let same_name : r.name ≡ codes (get_format_name enc) = cc e in
      let same_rest : names rs ≡ encoder_names encs = cc e in
      (ap commas same_name ∙ plain_name enc, names_plain rs encs same_rest)

  length-names : (rs : List (FmtResult D.W)) → length (names rs) ≡ length rs
  length-names [] = refl
  length-names (r ∷ rs) = ap suc (length-names rs)

  nth_named :
      (recs : List (FileRecord D.W)) (i : ℕ) (rec : FileRecord D.W)
      → AllNamed D S tools cfg fmts recs
      → get_elem? recs i ≡ some rec
      → HasNames D S tools cfg fmts rec
  nth_named [] i rec all h = cc h
  nth_named (r ∷ recs) zero rec all h =
      subst (HasNames D S tools cfg fmts) (some_injective h) (all.0)
  nth_named (r ∷ recs) (suc i) rec all h = nth_named recs i rec (all.1) h

  row_of_named :
      (recs : List (FileRecord D.W)) (i : ℕ) (rec : FileRecord D.W)
      → AllNamed D S tools cfg fmts recs
      → get_elem? recs i ≡ some rec
      → PlainNumbers D cfg
      → commas rec.short_name ≡ 0
      → commas (csv_row D cfg rec) ≡ commas (csv_header D cfg recs)
  row_of_named [] i rec all h plain name = cc h
  row_of_named (first ∷ recs) i rec all h plain name =
      let same = nth_named (first ∷ recs) i rec all h ∙ sym (all.0) in
      csv_row-commas D cfg first recs rec plain (names_plain first.fmts (encoders fmts) (all.0))
        name (sym (length-names rec.fmts) ∙ ap length same ∙ length-names first.fmts)

  -- In the CSV file of a run each row has as many commas, hence columns, as the title row: for each file
  -- of the run whose name has no commas, where numbers in fixed notation have none.
  pub run_files-csv_row :
      (total idx : ℕ) (files : List Text) (w : World S) (q : Progress D S) (i : ℕ)
      (rec : FileRecord D.W)
      → PlainNumbers D cfg
      → run_files D S tools cfg fmts total idx files (start_progress D S tools w) ≡ some q
      → get_elem? q.all_files i ≡ some rec
      → commas rec.short_name ≡ 0
      → commas (csv_row D cfg rec) ≡ commas (csv_header D cfg q.all_files)
  run_files-csv_row total idx files w q i rec plain run nth name =
      row_of_named q.all_files i rec
        (run_files-AllNamed D S tools cfg fmts total idx files (start_progress D S tools w) q run
          tt)
        nth plain name
