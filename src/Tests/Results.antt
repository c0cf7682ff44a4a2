-- ===== src/Tests/Results.antt =====
-- A run over two files at concrete settings.
use encoder_rle4k_cpu.Base.{ℕ, ◌≡◌, refl, sym, subst, true, List, [], ◌∷◌, some, arith}
use encoder_rle4k_cpu.Base.Int.{pos, ◌+ℤ◌, ◌-ℤ◌}
use encoder_rle4k_cpu.Text.{Text, codes, same}
use encoder_rle4k_cpu.BufferPool.{new_manager}
use encoder_rle4k_cpu.System.{World}
use encoder_rle4k_cpu.Encoder.{gzip, get_supported_format, get_supported_formats}
use encoder_rle4k_cpu.Phase.Decode.Rounds.{KeepsBuffer}
use encoder_rle4k_cpu.Config.{BenchConfig, default_config}
use encoder_rle4k_cpu.Factory.{
  get_encoder, initialize_default_processors, register_processor, put_all, put,
}
use encoder_rle4k_cpu.Column.{run_windows, window, window_size}
use encoder_rle4k_cpu.Phase.Raster.{raster_window}
use encoder_rle4k_cpu.Settings.{threads}
use encoder_rle4k_cpu.Fnv.{rle4k_fnv1a64}
use encoder_rle4k_cpu.Report.{FileRecord}
use encoder_rle4k_cpu.Report.Csv.{csv_row, csv_header}
use encoder_rle4k_cpu.Report.Commas.{commas}
use encoder_rle4k_cpu.Run.Messages.{title_text, missing_text, loading_text}
use encoder_rle4k_cpu.Run.Times.{ColumnTimes, no_times, load_ms, column_times}
use encoder_rle4k_cpu.Run.Files.{
  Progress, img_w, img_h, new_record, with_lines, file_record, say, fail_load, keep_record,
  run_files, run_file,
}
use encoder_rle4k_cpu.Run.Geometry.{blocks_of, quotient}
use encoder_rle4k_cpu.Run.Accumulate.{FmtAcc, switches_of}
use encoder_rle4k_cpu.Run.Formats.{
  Tally, new_tally, tally_column, run_formats, run_columns, run_column,
}
use encoder_rle4k_cpu.Run.Command.{start_progress}
use encoder_rle4k_cpu.Run.Rectangular.{run_files-csv_row}
use encoder_rle4k_cpu.Run.Checked.{Checking, Fits, FitsAny, AllFit, AllOk, file_record-AllOk}
use encoder_rle4k_cpu.Run.Named.{names, encoders, encoder_names}
use encoder_rle4k_cpu.Run.Sound.{AllOn, KeepsAny, AllKeep, AllStand, file_record-AllStand}
use encoder_rle4k_cpu.Tests.Toy.{toy, block, toy-Documented, toy-Recovers, toy-KeepsBuffer}
use encoder_rle4k_cpu.Tests.Codecs.{packed, packed_lem}
use encoder_rle4k_cpu.Tests.Machine.{numbers, machine, toy_tools, numbers_plain}

abbrev config : BenchConfig ℕ
config = record (default_config numbers) {
  pitch_width_um = 1;
  strip_width = pos 1000;
  block_line = pos 100;
  check_enabled = pos 1;
  brotli_level = pos 5;
}

abbrev checking : Checking numbers machine toy_tools config (codes "a.dif") tt (pos 1) (pos 2)
checking = record { encodes = refl; decodes = refl; checks = refl; documented = toy-Documented }

pub get_gzip : get_encoder initialize_default_processors (pos 7) ≡ some gzip
unfolding get_encoder initialize_default_processors register_processor put_all put
    get_supported_formats get_supported_format
get_gzip = refl

pub keeps_buffer : KeepsBuffer toy (get_supported_format gzip)
unfolding get_supported_format
keeps_buffer = toy-KeepsBuffer

gzip-Fits : Fits numbers machine toy_tools config (codes "a.dif") tt (pos 1) (pos 2) gzip
gzip-Fits = (
  keeps_buffer,
  λ col lt row inside. (some block, refl, (omega arith, (packed, packed_lem), toy-Recovers)),
)

abbrev fits :
    AllFit numbers machine toy_tools config (codes "a.dif") tt (pos 1) (pos 2) (pos 7 ∷ [])
fits = (
  subst (FitsAny numbers machine toy_tools config (codes "a.dif") tt (pos 1) (pos 2)) (sym get_gzip)
      gzip-Fits,
  tt,
)

one_column :
    blocks_of (img_w numbers machine toy_tools config (pos 7 ∷ []) tt) (pos 1000) ≡ some (pos 1)
unfolding blocks_of quotient ◌+ℤ◌ ◌-ℤ◌
one_column = refl

two_rows :
    blocks_of (img_h numbers machine toy_tools config (pos 7 ∷ []) tt) (pos 100) ≡ some (pos 2)
unfolding blocks_of quotient ◌+ℤ◌ ◌-ℤ◌
two_rows = refl

recorded :
    (r : FileRecord ℕ × Text) × (file_record numbers machine toy_tools config
        (pos 7 ∷ [])
        (codes "a.dif")
        tt
      ≡ some r)
    × AllOk r.0.fmts
    × (names r.0.fmts ≡ encoder_names (encoders (pos 7 ∷ [])))
    × (r.0.short_name ≡ codes "a.dif")
recorded =
    file_record-AllOk numbers machine toy_tools config (codes "a.dif") tt (pos 1) (pos 2) checking
      (pos 7 ∷ []) fits one_column two_rows

keeps_all : AllKeep numbers machine toy_tools config (pos 7 ∷ [])
keeps_all = (subst (KeepsAny numbers machine toy_tools config) (sym get_gzip) keeps_buffer, tt)

all_on : AllOn numbers machine toy_tools config
all_on = record { encodes = refl; decodes = refl; checks = refl }

file_record-AllStand_example :
    AllStand numbers machine toy_tools config
      (codes "a.dif")
      tt
      (pos 1)
      (pos 2)
      (pos 7 ∷ [])
      recorded.0.0.fmts
file_record-AllStand_example =
    file_record-AllStand numbers machine toy_tools config (pos 7 ∷ []) (codes "a.dif") tt (pos 1)
      (pos 2) recorded.0 all_on keeps_all one_column two_rows recorded.1

-- Without encoding; the second file is missing.
abbrev quick : BenchConfig ℕ
quick = record config { encode_enabled = pos 0 }

abbrev disk_of_one : World machine
disk_of_one = record {
  disk = (codes "a.dif", codes "x") ∷ [];
  out = [];
  err = [];
  buffers = new_manager;
}

abbrev two_files : List Text
two_files = codes "a.dif" ∷ codes "b.dif" ∷ []

abbrev rastered : FmtAcc ℕ
rastered = record {
  raster_wall = 1;
  enc_wall = 0;
  dec_wall = 0;
  check_wall = 0;
  enc_cpu = 0;
  dec_cpu = 0;
  cs = 0;
  ss = 4;
  ok = true;
}

abbrev first_times : ColumnTimes ℕ
first_times = record (no_times numbers 1) { wrd = 1 }

abbrev tally : Tally ℕ
tally =
    tally_column numbers machine toy_tools quick (codes "a.dif") tt (pos 1) (pos 2) gzip 0
      (new_tally numbers) (record { ss_bytes = 4; cs_bytes_sum = 0; all_ok = true }) first_times

abbrev first_record : FileRecord ℕ
first_record =
    new_record numbers machine toy_tools quick (pos 7 ∷ []) (codes "a.dif") tt (pos 1) (pos 2)
      (rastered ∷ [])

abbrev said : Text → Progress numbers machine → Progress numbers machine
said = say numbers machine toy_tools quick (pos 7 ∷ [])

abbrev first_done : Progress numbers machine
first_done =
    keep_record numbers machine toy_tools quick (pos 7 ∷ [])
      (said loading_text (
        said (title_text 1 2 (codes "a.dif"))
          (start_progress numbers machine toy_tools disk_of_one)))
      (with_lines numbers machine toy_tools quick (pos 7 ∷ []) first_record (tally ∷ []))

abbrev done : Progress numbers machine
done =
    fail_load numbers machine toy_tools quick (pos 7 ∷ [])
      (said (missing_text (codes "b.dif")) (said (title_text 2 2 (codes "b.dif")) first_done))

ran :
    run_files numbers machine toy_tools quick
      (pos 7 ∷ [])
      2
      0
      two_files
      (start_progress numbers machine toy_tools disk_of_one)
    ≡ some done
unfolding run_files run_file file_record run_formats run_columns run_column same
    initialize_default_processors run_windows window raster_window window_size threads switches_of
    rle4k_fnv1a64 column_times load_ms
ran = refl

run_files-csv_row_example :
    commas (csv_row numbers quick first_record) ≡ commas (csv_header numbers quick done.all_files)
unfolding commas new_record
run_files-csv_row_example =
    run_files-csv_row numbers machine toy_tools quick (pos 7 ∷ []) 2 0 two_files disk_of_one done 0
      first_record numbers_plain ran refl refl
