-- ===== src/Json/Entry.antt =====
-- What the readers of redcli/rle4k_config.h return at an entry of the configuration.
use mathlib.Core.List.{append_assoc}
use encoder_rle4k_cpu.Base.{
  ℕ, ◌+◌, ◌≡◌, refl, ap, sym, ◌∙◌, true, not, [], ◌∷◌, ◌++◌, some, arith, length, length-append,
  get_elem?, ◌==◌, ◌>>=◌, if◌then◌else◌,
}
use encoder_rle4k_cpu.Base.Int.{ℤ, pos, negsuc}
use encoder_rle4k_cpu.Text.{Text, find, first_where, member, shifted, substr}
use encoder_rle4k_cpu.Text.Number.{atoi}
use encoder_rle4k_cpu.Text.Decimal.{
  show_ℕ, show_ℤ, IsInt, AllDigits, StartsDigit, show_ℕ-AllDigits, show_ℕ-StartsDigit, atoi-show_ℤ,
}
use encoder_rle4k_cpu.Text.Search.{
  AllFail, first_where-append, find-at, find_first_of-at, substr-at, get_elem?-at, search_byte,
}
use encoder_rle4k_cpu.Json.{
  blanks, value_ends, value_pos, number_text, int_or, json_get_int, json_get_str, str_or, str_from,
  closed, skip_comment, is_comment, both_slash,
}
use encoder_rle4k_cpu.Json.Value.{
  AllBlank, entry_front, KeyAt, StartsValue, value_pos-entry, value_pos_hit,
}

-- A number that ends before a byte of `value_ends`.
abbrev pub NoEnd : Text → Type 0
NoEnd = AllFail (λ c. member c value_ends)

module _ (front key gap v : Text) (stop : ℕ) (rest json : Text)
    (k : KeyAt front key gap (v ++ stop ∷ rest) json) where
  number_text-entry :
      NoEnd v
      → member stop value_ends ≡ true
      → number_text json (length (entry_front front key gap)) ≡ v
  number_text-entry inside ends =
      let p : ℕ = length (entry_front front key gap) in
      let stopped =
        find_first_of-at json (entry_front front key gap) (v ++ stop ∷ rest) k.0 p refl value_ends
        ∙ ap (shifted p) (first_where-append (λ c. member c value_ends) v stop rest inside ends) in
      ap (substr json p) stopped
      ∙ substr-at json (entry_front front key gap) (v ++ stop ∷ rest) k.0 p refl v (stop ∷ rest)
          refl

digits-NoEnd : (s : Text) → AllDigits s → NoEnd s
digits-NoEnd [] all = tt
digits-NoEnd (c ∷ s) all = let d = all.0 in (ground arith, digits-NoEnd s all.1)

digits-StartsValue : (s : Text) → StartsDigit s → StartsValue s
digits-StartsValue [] h = elim h [ ]
digits-StartsValue (c ∷ s) h = (ground arith, ground arith)

show_ℤ-NoEnd : (z : ℤ) → NoEnd (show_ℤ z) × StartsValue (show_ℤ z)
unfolding show_ℤ
show_ℤ-NoEnd (pos n) = (
  digits-NoEnd (show_ℕ n) (show_ℕ-AllDigits n),
  digits-StartsValue (show_ℕ n) (show_ℕ-StartsDigit n),
)
show_ℤ-NoEnd (negsuc n) =
    ((refl, digits-NoEnd (show_ℕ (n + 1)) (show_ℕ-AllDigits (n + 1))), (refl, refl))

-- An int that is written behind the first hit of its key in quotes, a colon and blanks, and before a
-- comma, a brace or a line end, is what `json_get_int` returns.
pub json_get_int-show_ℤ :
    (front key gap : Text) (z : ℤ) (stop : ℕ) (rest json : Text) (fallback : ℤ)
    → KeyAt front key gap (show_ℤ z ++ stop ∷ rest) json
    → AllBlank gap
    → IsInt z
    → member stop value_ends ≡ true
    → json_get_int json key fallback ≡ some z
unfolding json_get_int
json_get_int-show_ℤ front key gap z stop rest json fallback k blank int ends =
    let (inside, start) = show_ℤ-NoEnd z in
    let place = value_pos-entry front key gap (show_ℤ z) (stop ∷ rest) json k blank start in
    ap (λ p. p >>= int_or json fallback) place
    ∙ ap atoi (number_text-entry front key gap (show_ℤ z) stop rest json k inside ends)
    ∙ (atoi-show_ℤ z int).0

-- No byte of a text is `c`.
abbrev pub Without : ℕ → Text → Type 0
Without c = AllFail (λ d. c == d)

==_refl : (c : ℕ) → (c == c) ≡ true
==_refl c = ground arith

-- A find of a byte behind a front that is known.
find_byte :
    (json front v : Text) (c : ℕ) (rest : Text) (n : ℕ)
    → json ≡ front ++ (v ++ c ∷ rest)
    → n ≡ length front
    → Without c v
    → find json (c ∷ []) n ≡ some (n + length v)
find_byte json front v c rest n parts here none_before =
    find-at json front (v ++ c ∷ rest) parts n here (c ∷ [])
    ∙ ap (shifted n) (
        search_byte c (v ++ c ∷ rest)
        ∙ first_where-append (λ d. c == d) v c rest none_before (==_refl c))

-- A text in quotes, with none inside, that is written behind the first hit of its key in quotes, a
-- colon and blanks, is what `json_get_str` returns.
pub json_get_str-quoted :
    (front key gap v rest json : Text)
    → KeyAt front key gap (b'"' ∷ (v ++ b'"' ∷ rest)) json
    → AllBlank gap
    → Without b'"' v
    → json_get_str json key ≡ some v
unfolding json_get_str
json_get_str-quoted front key gap v rest json k blank plain =
    let before : Text = entry_front front key gap in
    let p : ℕ = length before in
    let place =
      value_pos-entry front key gap (b'"' ∷ []) (v ++ b'"' ∷ rest) json k blank (refl, refl) in
    let quote : get_elem? json p ≡ some b'"' =
      get_elem?-at json before (b'"' ∷ (v ++ b'"' ∷ rest)) k.0 p refl refl in
    let parts : json ≡ (before ++ (b'"' ∷ [])) ++ (v ++ b'"' ∷ rest) =
      k.0 ∙ sym (append_assoc before _ _) in
    let behind : p + 1 ≡ length (before ++ (b'"' ∷ [])) = sym (length-append before (b'"' ∷ [])) in
    let close = find_byte json (before ++ (b'"' ∷ [])) v b'"' rest (p + 1) parts behind plain in
    ap (λ q. q >>= str_or json) place
    ∙ ap (str_from json p) quote
    ∙ ap (λ q. some (closed json (p + 1) q)) close
    ∙ ap some (
        substr-at json (before ++ (b'"' ∷ [])) (v ++ b'"' ∷ rest) parts (p + 1) behind v
          (b'"' ∷ rest) refl)

atoi-nil : atoi [] ≡ some (pos 0)
unfolding atoi
atoi-nil = refl

comment_end :
    (front key gap note rest json : Text)
    → KeyAt front key gap (b'/' ∷ b'/' ∷ (note ++ b'\n' ∷ rest)) json
    → AllBlank gap
    → Without b'\n' note
    → value_pos json key
      ≡ some (some (length (entry_front front key gap) + length (b'/' ∷ b'/' ∷ note)))
unfolding skip_comment is_comment
comment_end front key gap note rest json k blank one_line =
    let before : Text = entry_front front key gap in
    let p : ℕ = length before in
    let tail : Text = note ++ b'\n' ∷ rest in
    let first : get_elem? json p ≡ some b'/' =
      get_elem?-at json before (b'/' ∷ b'/' ∷ tail) k.0 p refl refl in
    let parts : json ≡ (before ++ (b'/' ∷ [])) ++ (b'/' ∷ tail) =
      k.0 ∙ sym (append_assoc before _ _) in
    let second : get_elem? json (p + 1) ≡ some b'/' =
      get_elem?-at json (before ++ (b'/' ∷ [])) (b'/' ∷ tail) parts (p + 1)
        (sym (length-append before (b'/' ∷ []))) refl in
    let slashes : is_comment json p ≡ true =
      ap (λ a. both_slash a (get_elem? json (p + 1))) first ∙ ap (both_slash (some b'/')) second in
    let line =
      find_byte json before (b'/' ∷ b'/' ∷ note) b'\n' rest p k.0 refl (refl, (refl, one_line)) in
    value_pos_hit front key gap (b'/' ∷ b'/' ∷ tail) json k
      (first_where-append (λ d. not (member d blanks)) gap b'/' (b'/' ∷ tail) blank refl)
    ∙ ap (λ b. some (if b then find json (b'\n' ∷ []) p else some p)) slashes
    ∙ ap some line

-- Where a comment stands between the blanks behind a key's colon and its value, the value is not read:
-- `json_get_int` returns 0, whatever its default, and `json_get_str` the empty text.
pub json_get_int-comment :
    (front key gap note rest json : Text) (fallback : ℤ)
    → KeyAt front key gap (b'/' ∷ b'/' ∷ (note ++ b'\n' ∷ rest)) json
    → AllBlank gap
    → Without b'\n' note
    → (json_get_int json key fallback ≡ some (pos 0)) × (json_get_str json key ≡ some [])
unfolding json_get_int json_get_str substr first_where
json_get_int-comment front key gap note rest json fallback k blank one_line =
    let before : Text = entry_front front key gap in
    let p : ℕ = length before in
    let comment : Text = b'/' ∷ b'/' ∷ note in
    let place = comment_end front key gap note rest json k blank one_line in
    let q : ℕ = p + length comment in
    let parts : json ≡ (before ++ comment) ++ (b'\n' ∷ rest) =
      k.0 ∙ sym (append_assoc before comment (b'\n' ∷ rest)) in
    let here : q ≡ length (before ++ comment) = sym (length-append before comment) in
    let none_left : number_text json q ≡ [] =
      ap (substr json q)
        (find_first_of-at json (before ++ comment) (b'\n' ∷ rest) parts q here value_ends)
      ∙ substr-at json (before ++ comment) (b'\n' ∷ rest) parts q here [] (b'\n' ∷ rest) refl in
    (
      ap (λ p. p >>= int_or json fallback) place ∙ ap atoi none_left ∙ atoi-nil,
      ap (λ p. p >>= str_or json) place
          ∙ ap (str_from json q)
              (get_elem?-at json (before ++ comment) (b'\n' ∷ rest) parts q here refl),
    )
