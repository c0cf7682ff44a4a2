-- ===== src/Json.antt =====
-- The readers of redcli/rle4k_config.h: they look a key up by a search for it in quotes, and read what
-- stands behind the next colon. A read past the end of the text has no result (none).
pub mod Value
pub mod Entry
pub mod Numbers
use encoder_rle4k_cpu.Base.{
  ℕ, zero, suc, ◌+◌, ◌-◌, Bool, true, false, ◌&&◌, ◌||◌, List, [], ◌∷◌, ◌++◌, Option, none, some,
  drop, length, get_elem?, leb, ◌==◌, ◌>>=◌, if◌then◌else◌,
}
use encoder_rle4k_cpu.Base.Int.{ℤ}
use encoder_rle4k_cpu.Text.{
  Text, codes, find, find_first_of, find_first_not_of, substr, is_empty, member,
}
use encoder_rle4k_cpu.Text.Number.{atoi, is_digit}

-- `std::string("\"") + key + "\""`
abbrev pub quoted : Text → Text
quoted key = b'"' ∷ (key ++ (b'"' ∷ []))

-- " \t\r\n"
abbrev pub blanks : Text
blanks = b' ' ∷ b'\t' ∷ b'\r' ∷ b'\n' ∷ []

-- "}\r\n"
abbrev pub value_ends : Text
value_ends = b',' ∷ b'}' ∷ b'\r' ∷ b'\n' ∷ []

-- The test `s[p] == '/' && s[p+1] == '/'` where `p + 1` is inside.
abbrev pub both_slash : Option ℕ → Option ℕ → Bool
both_slash (some c) (some d) = c == b'/' && d == b'/'
both_slash (some c) none = false
both_slash none d = false

unfoldable pub is_comment : Text → ℕ → Bool
is_comment s p = both_slash (get_elem? s p) (get_elem? s (p + 1))

-- `skip_comment`. At `npos` the sum `p + 1` wraps to 0, and where the text is not empty `s[npos]` is
-- read: no result.
unfoldable pub skip_comment : Text → Option ℕ → Option (Option ℕ)
unfolding find
skip_comment s none = if is_empty s then some none else none
skip_comment s (some p) = some (if is_comment s p then find s (b'\n' ∷ []) p else some p)

-- From the colon: the blanks and a comment are skipped.
abbrev pub after_colon : Text → Option ℕ → Option (Option ℕ)
after_colon json none = some none
after_colon json (some p) = skip_comment json (find_first_not_of json blanks (p + 1))

abbrev pub after_key : Text → Text → Option ℕ → Option (Option ℕ)
after_key json pat none = some none
after_key json pat (some p) = after_colon json (find json (b':' ∷ []) (p + length pat))

-- The first half that three readers share: where the value of a key starts, if it is there.
unfoldable pub value_pos : Text → Text → Option (Option ℕ)
unfolding skip_comment find_first_not_of find
value_pos json key = let pat = quoted key in after_key json pat (find json pat 0)

-- The text of a value up to `end`, or nothing where it does not end.
abbrev pub closed : Text → ℕ → Option ℕ → Text
closed json p none = []
closed json p (some end) = substr json p (some end)

abbrev pub str_from : Text → ℕ → Option ℕ → Option Text
str_from json p none = none
str_from json p (some c) =
    some (if c == b'"' then closed json (p + 1) (find json (b'"' ∷ []) (p + 1)) else [])

abbrev pub str_or : Text → Option ℕ → Option Text
str_or json none = some []
str_or json (some p) = str_from json p (get_elem? json p)

unfoldable pub json_get_str : Text → Text → Option Text
json_get_str json key = do p ← value_pos json key; str_or json p

-- `json.substr(pos, end - pos)`
abbrev pub number_text : Text → ℕ → Text
number_text json p = substr json p (find_first_of json value_ends p)

abbrev pub int_or : Text → ℤ → Option ℕ → Option ℤ
int_or json fallback none = some fallback
int_or json fallback (some p) = atoi (number_text json p)

unfoldable pub json_get_int : Text → Text → ℤ → Option ℤ
json_get_int json key fallback = do p ← value_pos json key; int_or json fallback p

module _ {ℓ} {W : Type ℓ} (atof : Text → W) where
  abbrev pub double_or : Text → W → Option ℕ → W
  double_or json fallback none = fallback
  double_or json fallback (some p) = atof (number_text json p)

  unfoldable pub json_get_double : Text → Text → W → Option W
  json_get_double json key fallback = do p ← value_pos json key; some (double_or json fallback p)

-- The bytes between the numbers of an array that the inner loop skips.
abbrev pub is_separator : ℕ → Bool
is_separator c = member c blanks || c == b','

unfoldable pub skip_separators : Text → Text
skip_separators [] = []
skip_separators (c ∷ s) =
    let further = skip_separators s in if is_separator c then further else c ∷ s

-- The digits in front, and what is behind them.
unfoldable pub span_digits : Text → Text × Text
span_digits [] = ([], [])
span_digits (c ∷ s) =
    let further = span_digits s in if is_digit c then (c ∷ further.0, further.1) else ([], c ∷ s)

-- A number is pushed, and any other byte is passed over; `loop` is the rest of the loop.
abbrev pub array_push : (Text → Option (List ℤ)) → Text → Text × Text → Option (List ℤ)
array_push loop t ([], rest) = loop t
array_push loop t (d ∷ ds, rest) = do v ← atoi (d ∷ ds); vs ← loop rest; some (v ∷ vs)

abbrev pub array_round : (Text → Option (List ℤ)) → Text → Option (List ℤ)
array_round loop [] = some []
array_round loop (c ∷ t) = array_push loop t (span_digits (c ∷ t))

-- The loop over `inner`, from `i` on; a round for each unit of fuel, and no result where it runs out.
unfoldable pub array_loop : ℕ → Text → Option (List ℤ)
array_loop zero s = if is_empty s then some [] else none
array_loop (suc fuel) s = array_round (array_loop fuel) (skip_separators s)

abbrev pub array_in : Text → Option ℕ → Option (List ℤ)
array_in json none = some []
array_in json (some p) = elim (find json (b']' ∷ []) p) [
  | none ↦ some []
  | some end ↦ let inner = substr json (p + 1) (some end) in array_loop (length inner) inner
]

abbrev pub array_after : Text → Text → Option ℕ → Option (List ℤ)
array_after json pat none = some []
array_after json pat (some p) = array_in json (find json (b'[' ∷ []) (p + length pat))

unfoldable pub json_get_int_array : Text → Text → Option (List ℤ)
unfolding find array_loop
json_get_int_array json key = let pat = quoted key in array_after json pat (find json pat 0)
