-- ===== src/Tests/Runs.antt =====
-- A column, the registry and the levels of redcli at concrete inputs.
use encoder_rle4k_cpu.Base.{
  ℕ, ◌<◌, ◌≡◌, refl, true, [], ◌∷◌, Option, some, arith, length, get_elem?,
}
use encoder_rle4k_cpu.Base.Int.{ℤ, pos}
use encoder_rle4k_cpu.Bitmap.{Bitmap, EncodeFormatArgs, Result, ok}
use encoder_rle4k_cpu.Encoder.{Encoder, gzip, get_supported_format, process_pack}
use encoder_rle4k_cpu.Encoder.Levels.{InRange, process_pack-InRange}
use encoder_rle4k_cpu.Factory.{chosen_formats}
use encoder_rle4k_cpu.Factory.Serves.{Served, chosen_formats-Served}
use encoder_rle4k_cpu.Phase.Decode.Rounds.{KeepsBuffer}
use encoder_rle4k_cpu.Column.{Switches, Totals, column, run_windows}
use encoder_rle4k_cpu.Column.Good.{GoodColumn}
use encoder_rle4k_cpu.Column.Verdict.{column-all_ok}
use encoder_rle4k_cpu.Column.Windows.{list_rows, rows_from, run_windows-rows_from}
use encoder_rle4k_cpu.Tests.Toy.{toy, block, levels, toy-Documented, toy-Recovers, toy-KeepsBuffer}
use encoder_rle4k_cpu.Tests.Codecs.{packed, packed_lem}

run_windows-rows_from_example : run_windows list_rows 2 5 5 0 [] ≡ some (rows_from 0 5)
run_windows-rows_from_example = run_windows-rows_from 2 5 (omega arith)

abbrev rasterize : ℕ → ℕ → Result (Option Bitmap)
rasterize col row = ok (some block)

abbrev switches : Switches
switches = record { repeat = 3; do_encode = true; do_decode = true; do_check = true }

good : GoodColumn toy gzip levels rasterize 0 5
good row lt = (some block, refl, (omega arith, (packed, packed_lem), toy-Recovers))

keeps : KeepsBuffer toy (get_supported_format gzip)
unfolding get_supported_format
keeps = toy-KeepsBuffer

column-all_ok_example :
    (t : Totals) × (column toy gzip levels switches rasterize 0 2 5 ≡ some t) × (t.all_ok ≡ true)
column-all_ok_example =
    column-all_ok toy gzip levels rasterize 0 2 5 switches toy-Documented keeps good (omega arith)
      (omega arith) refl refl refl

chosen_formats-Served_example :
    (0 < length (chosen_formats (pos 9 ∷ pos 4 ∷ [])))
    × ((i : ℕ) (fmt : ℤ)
        → get_elem? (chosen_formats (pos 9 ∷ pos 4 ∷ [])) i ≡ some fmt
        → Served fmt)
chosen_formats-Served_example = chosen_formats-Served (pos 9 ∷ pos 4 ∷ [])

process_pack-InRange_example :
    (args' : EncodeFormatArgs) × InRange args'
    × ((e : Encoder) (source : Option Bitmap)
        → process_pack toy e source levels ≡ process_pack toy e source args')
process_pack-InRange_example = process_pack-InRange toy levels
