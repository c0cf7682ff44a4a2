-- ===== src/Tests/Texts.antt =====
-- The readers of redcli.json and the options of the command line at concrete texts.
use encoder_rle4k_cpu.Base.{◌≡◌, refl, List, [], ◌∷◌, none, some, false, arith}
use encoder_rle4k_cpu.Base.Int.{pos, negsuc}
use encoder_rle4k_cpu.Text.{Text, codes, search, starts}
use encoder_rle4k_cpu.Text.Number.{atoi, stoi}
use encoder_rle4k_cpu.Text.Decimal.{show_ℤ, show_ℕ, emit}
use encoder_rle4k_cpu.Json.{
  json_get_int, json_get_str, value_pos, array_loop, skip_separators, span_digits,
}
use encoder_rle4k_cpu.Json.Value.{KeyAt, value_pos-undefined}
use encoder_rle4k_cpu.Json.Entry.{json_get_int-show_ℤ, json_get_str-quoted, json_get_int-comment}
use encoder_rle4k_cpu.Json.Numbers.{run_values, digit_runs, array_loop-run_values}
use encoder_rle4k_cpu.Config.{default_config}
use encoder_rle4k_cpu.Cli.{Overrides, go_on, parse_args}
use encoder_rle4k_cpu.Cli.Options.{
  Setting, repeats, pitch, formats, check, csv, command_line, override_all, AllReadable,
  parse_args-command_line, parse_args-positional,
}
use encoder_rle4k_cpu.Tests.Machine.{numbers}

abbrev repeat_text : Text
repeat_text = codes "{ \"repeat\": -7,"

repeat_at : KeyAt (codes "{ ") (codes "repeat") (codes " ") (codes "-7,") repeat_text
unfolding search starts
repeat_at = (refl, refl)

minus_seven : show_ℤ (negsuc 6) ≡ codes "-7"
unfolding show_ℤ show_ℕ emit
minus_seven = refl

json_get_int-show_ℤ_example : json_get_int repeat_text (codes "repeat") (pos 0) ≡ some (negsuc 6)
unfolding show_ℤ show_ℕ emit
json_get_int-show_ℤ_example =
    json_get_int-show_ℤ (codes "{ ") (codes "repeat") (codes " ") (negsuc 6) b',' [] repeat_text
      (pos 0) repeat_at (refl, tt) (omega arith) refl

abbrev verbose_text : Text
verbose_text = codes "{\"verbose\":\"strip\"}"

verbose_at : KeyAt (codes "{") (codes "verbose") [] (codes "\"strip\"}") verbose_text
unfolding search starts
verbose_at = (refl, refl)

json_get_str-quoted_example : json_get_str verbose_text (codes "verbose") ≡ some (codes "strip")
json_get_str-quoted_example =
    json_get_str-quoted (codes "{") (codes "verbose") [] (codes "strip") (codes "}") verbose_text
      verbose_at tt (refl, (refl, (refl, (refl, (refl, tt)))))

abbrev comment_text : Text
comment_text = codes "{\"mode\": // 1\n1}"

comment_at : KeyAt (codes "{") (codes "mode") (codes " ") (codes "// 1\n1}") comment_text
unfolding search starts
comment_at = (refl, refl)

json_get_int-comment_example :
    (json_get_int comment_text (codes "mode") (pos 1) ≡ some (pos 0))
    × (json_get_str comment_text (codes "mode") ≡ some [])
json_get_int-comment_example =
    json_get_int-comment (codes "{") (codes "mode") (codes " ") (codes " 1") (codes "1}")
      comment_text (pos 1) comment_at (refl, tt) (refl, (refl, tt))

abbrev cut_text : Text
cut_text = codes "{\"mode\": "

cut_at : KeyAt (codes "{") (codes "mode") (codes " ") [] cut_text
unfolding search starts
cut_at = (refl, refl)

value_pos-undefined_example : value_pos cut_text (codes "mode") ≡ none
value_pos-undefined_example =
    value_pos-undefined (codes "{") (codes "mode") (codes " ") cut_text cut_at (refl, tt)

array_loop-run_values_example :
    array_loop 9 (codes "0, 1,x 34") ≡ run_values (digit_runs [] (codes "0, 1,x 34"))
array_loop-run_values_example = array_loop-run_values 9 (codes "0, 1,x 34") (omega arith)

-- The formats of a list with blanks, commas and another byte.
array_of_three : array_loop 9 (codes "0, 1,x 34") ≡ some (pos 0 ∷ pos 1 ∷ pos 34 ∷ [])
unfolding array_loop skip_separators span_digits atoi
array_of_three = refl

abbrev wanted : List Setting
wanted =
    repeats (pos 5)
    ∷ pitch (codes "2")
    ∷ formats (pos 0 ∷ pos 4 ∷ [])
    ∷ check
    ∷ csv (codes "out.csv")
    ∷ []

two_read : numbers.stod (codes "2") ≡ some 2
unfolding stoi
two_read = refl

abbrev wanted_readable : AllReadable numbers wanted
wanted_readable = (omega arith, ((2, two_read), ((omega arith, (omega arith, tt)), (tt, (tt, tt)))))

abbrev before : Overrides numbers.W
before = record { cfg = default_config numbers; force = false; csv_path = [] }

parse_args-command_line_example :
    parse_args numbers (command_line wanted) before
    ≡ some (go_on (override_all numbers wanted wanted_readable before))
parse_args-command_line_example = parse_args-command_line numbers wanted wanted_readable before

parse_args-positional_example :
    parse_args numbers (codes "my.json" ∷ codes "--check" ∷ []) before
    ≡ parse_args numbers (codes "--check" ∷ []) before
parse_args-positional_example =
    parse_args-positional numbers (codes "my.json") (codes "--check" ∷ []) before refl
