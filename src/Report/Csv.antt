-- ===== src/Report/Csv.antt =====
-- The CSV file: `rle4k_write_csv` of redcli/main.cpp.
use encoder_rle4k_cpu.Base.{Bool, false, List, [], ◌∷◌, ◌++◌, Option, none, some, if◌then◌else◌}
use encoder_rle4k_cpu.Text.{Text, codes}
use encoder_rle4k_cpu.Double.{Double}
use encoder_rle4k_cpu.System.{System}
use encoder_rle4k_cpu.Config.{BenchConfig}
use encoder_rle4k_cpu.Report.{FmtResult, FileRecord, line_feed, is_on, verdict_text}

abbrev comma : Text
comma = b',' ∷ []

abbrev pub byte_order_mark : Text
byte_order_mark = 0xEF ∷ 0xBB ∷ 0xBF ∷ []

module _ (D : Double) (cfg : BenchConfig D.W) where
  abbrev check : Bool
  check = is_on cfg.check_enabled

  -- The titles of a format.
  unfoldable pub csv_titles : Text → Text
  csv_titles a =
      comma
      ++ a
      ++ codes "_cr"
      ++ comma
      ++ a
      ++ codes "_cs_mb"
      ++ comma
      ++ a
      ++ codes "_sed_ms"
      ++ comma
      ++ a
      ++ codes "_set_gbps"
      ++ comma
      ++ a
      ++ codes "_sdd_ms"
      ++ comma
      ++ a
      ++ codes "_sdt_gbps"
      ++ (if check then comma ++ a ++ codes "_sch_ms" else [])
      ++ comma
      ++ a
      ++ codes "_chk"

  unfoldable pub csv_title_row : List (FmtResult D.W) → Text
  csv_title_row [] = []
  csv_title_row (r ∷ rs) = csv_titles r.name ++ csv_title_row rs

  -- `files.front().fmts`, where there is a file
  abbrev pub front_fmts : List (FileRecord D.W) → List (FmtResult D.W)
  front_fmts [] = []
  front_fmts (rec ∷ recs) = rec.fmts

  unfoldable pub csv_header : List (FileRecord D.W) → Text
  unfolding csv_title_row
  csv_header files = codes "file,ss_gb" ++ csv_title_row (front_fmts files)

  unfoldable pub csv_cells : FmtResult D.W → Text
  csv_cells r =
      comma
      ++ D.fixed 4 r.cr
      ++ comma
      ++ D.fixed 6 r.cs_mb
      ++ comma
      ++ D.fixed 4 r.sed_ms
      ++ comma
      ++ D.fixed 4 r.set_gbps
      ++ comma
      ++ D.fixed 4 r.sdd_ms
      ++ comma
      ++ D.fixed 4 r.sdt_gbps
      ++ (if check then comma ++ D.fixed 4 r.sch_ms else [])
      ++ comma
      ++ (if check then verdict_text r.ok else codes "SKIP")

  unfoldable pub csv_fmts : List (FmtResult D.W) → Text
  csv_fmts [] = []
  csv_fmts (r ∷ rs) = csv_cells r ++ csv_fmts rs

  unfoldable pub csv_row : FileRecord D.W → Text
  unfolding csv_fmts
  csv_row rec =
      codes "\"" ++ rec.short_name ++ codes "\"," ++ D.fixed 6 rec.total_ss_gb ++ csv_fmts rec.fmts

  abbrev pub csv_rows : List (FileRecord D.W) → Text
  csv_rows [] = []
  csv_rows (rec ∷ recs) = csv_row rec ++ line_feed ++ csv_rows recs

  unfoldable pub csv_text : List (FileRecord D.W) → Text
  unfolding csv_header csv_row
  csv_text files =
      byte_order_mark
      ++ codes "# Encoding: UTF-8 (BOM)\n"
      ++ codes "# redcli comparison report; one row per DIF file; algorithms in columns\n"
      ++ csv_header files
      ++ line_feed
      ++ csv_rows files

  module _ (S : System) where
    abbrev pub csv_opened : Text → List (FileRecord D.W) → S.Disk → Option S.Disk → S.Disk × Bool
    csv_opened path files disk none = (disk, false)
    csv_opened path files disk (some opened) = S.write opened path (csv_text files)

    unfoldable pub rle4k_write_csv : Text → List (FileRecord D.W) → S.Disk → S.Disk × Bool
    rle4k_write_csv path files disk = csv_opened path files disk (S.open_out disk path)
