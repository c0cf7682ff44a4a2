-- ===== src/Report/Commas.antt =====
-- The rows of the CSV file have the columns of its title row.
use encoder_rle4k_cpu.Base.{
  ℕ, suc, ◌+◌, ◌*◌, length, ◌≡◌, refl, ◌∙◌, inl, inr, Bool, true, false, List, [], ◌∷◌, ◌++◌, ◌==◌,
  Bool-cases, arith, if◌then◌else◌,
}
use encoder_rle4k_cpu.Text.{Text}
use encoder_rle4k_cpu.Double.{Double}
use encoder_rle4k_cpu.Config.{BenchConfig}
use encoder_rle4k_cpu.Report.{FmtResult, FileRecord, is_on, verdict_text}
use encoder_rle4k_cpu.Report.Csv.{
  csv_titles, csv_title_row, csv_header, csv_cells, csv_fmts, csv_row,
}

unfoldable pub commas : Text → ℕ
commas [] = 0
commas (c ∷ s) = let n = commas s in if c == b',' then suc n else n

commas-append : (s t : Text) → commas (s ++ t) ≡ commas s + commas t
unfolding commas
commas-append [] t = omega arith
commas-append (c ∷ s) t = let ih = commas-append s t in ground (arith, ih)

nat_step : (k n : ℕ) {a b : ℕ} → a ≡ k → b ≡ n * k → a + b ≡ suc n * k
nat_step k n e f = let g : suc n * k ≡ n * k + k = omega arith in omega (arith, e, f, g)

module _ (D : Double) (cfg : BenchConfig D.W) where
  -- Numbers in fixed notation have no commas.
  abbrev pub PlainNumbers : Type 0
  PlainNumbers = (digits : ℕ) (x : D.W) → commas (D.fixed digits x) ≡ 0

  -- The columns of a format.
  abbrev per_format : ℕ
  per_format = if is_on cfg.check_enabled then 8 else 7

  commas-csv_titles : (a : Text) → commas a ≡ 0 → commas (csv_titles D cfg a) ≡ per_format
  unfolding csv_titles commas
  commas-csv_titles a plain = elim (Bool-cases (is_on cfg.check_enabled)) [
    | inl e ↦ rw e (simp (commas-append, plain))
    | inr e ↦ rw e (simp (commas-append, plain))
  ]

  commas-verdict : (b : Bool) → commas (verdict_text b) ≡ 0
  unfolding commas
  commas-verdict true = refl
  commas-verdict false = refl

  commas-csv_cells : PlainNumbers → (r : FmtResult D.W) → commas (csv_cells D cfg r) ≡ per_format
  unfolding csv_cells commas
  commas-csv_cells plain r = elim (Bool-cases (is_on cfg.check_enabled)) [
    | inl e ↦ rw e (simp (commas-append, plain, commas-verdict))
    | inr e ↦ rw e (simp (commas-append, plain))
  ]

  -- The names of formats have no commas.
  abbrev pub PlainNames : List (FmtResult D.W) → Type 0
  PlainNames [] = Unit {0}
  PlainNames (r ∷ rs) = (commas r.name ≡ 0) × PlainNames rs

  -- As many columns as formats.
  commas-csv_title_row :
      (rs : List (FmtResult D.W))
      → PlainNames rs
      → commas (csv_title_row D cfg rs) ≡ length rs * per_format
  unfolding csv_title_row commas
  commas-csv_title_row [] plain = omega arith
  commas-csv_title_row (r ∷ rs) plain =
      let here = commas-csv_titles r.name (plain.0) in
      let later = commas-csv_title_row rs (plain.1) in
      let both = commas-append (csv_titles D cfg r.name) (csv_title_row D cfg rs) in
      both ∙ nat_step per_format (length rs) here later

  commas-csv_fmts :
      PlainNumbers
      → (rs : List (FmtResult D.W)) → commas (csv_fmts D cfg rs) ≡ length rs * per_format
  unfolding csv_fmts commas
  commas-csv_fmts plain [] = omega arith
  commas-csv_fmts plain (r ∷ rs) =
      let here = commas-csv_cells plain r in
      let later = commas-csv_fmts plain rs in
      let both = commas-append (csv_cells D cfg r) (csv_fmts D cfg rs) in
      both ∙ nat_step per_format (length rs) here later

  -- A row of the CSV file has as many commas, hence columns, as the title row, which is made from the
  -- first file, where both files have results of equally many formats, the name of the file has no commas,
  -- and neither have numbers in fixed notation and the names of the formats.
  pub csv_row-commas :
      (first : FileRecord D.W) (recs : List (FileRecord D.W)) (rec : FileRecord D.W)
      → PlainNumbers
      → PlainNames first.fmts
      → commas rec.short_name ≡ 0
      → length rec.fmts ≡ length first.fmts
      → commas (csv_row D cfg rec) ≡ commas (csv_header D cfg (first ∷ recs))
  unfolding csv_row csv_header commas
  csv_row-commas first recs rec plain names name same_length =
      let cells = commas-csv_fmts plain rec.fmts in
      let titles = commas-csv_title_row first.fmts names in
      let one : 1 + length first.fmts * per_format ≡ suc (length first.fmts * per_format) =
        omega arith in
      simp (commas-append, name, plain, cells, titles, same_length) one
