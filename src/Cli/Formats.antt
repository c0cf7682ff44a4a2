-- ===== src/Cli/Formats.antt =====
-- The list of `--formats` in `rle4k_cmd_run` of redcli/main.cpp: `std::getline` with ',' and `stoi`.
use mathlib.Core.List.{append_assoc, append-nil}
use encoder_rle4k_cpu.Base.{
  ◌+◌, ◌≡◌, refl, ap, sym, ◌∙◌, false, List, [], ◌∷◌, ◌++◌, Option, some, ◌>>=◌, ◌==◌, arith,
  if◌then◌else◌,
}
use encoder_rle4k_cpu.Base.Int.{ℤ, pos, negsuc}
use encoder_rle4k_cpu.Text.{Text}
use encoder_rle4k_cpu.Text.Number.{stoi, digits_of, skip_spaces}
use encoder_rle4k_cpu.Text.Decimal.{show_ℤ, show_ℕ, IsInt, AllDigits, show_ℕ-AllDigits, atoi-show_ℤ}

-- The last token, which is there if a byte was read.
abbrev pub last_token : Text → List Text
last_token [] = []
last_token (c ∷ tok) = (c ∷ tok) ∷ []

-- The tokens that `getline` reads; `tok` is the part of the first that has been read.
unfoldable pub tokens : Text → Text → List Text
tokens tok [] = last_token tok
tokens tok (c ∷ s) =
    let next = tokens [] s in
    let further = tokens (tok ++ (c ∷ [])) s in if c == b',' then tok ∷ next else further

abbrev pub read_token : Text → Option (List ℤ) → Option (List ℤ)
read_token [] later = later
read_token (c ∷ tok) later = do id ← stoi (c ∷ tok); ids ← later; some (id ∷ ids)

unfoldable pub read_tokens : List Text → Option (List ℤ)
read_tokens [] = some []
read_tokens (tok ∷ toks) = read_token tok (read_tokens toks)

unfoldable pub parse_formats : Text → Option (List ℤ)
unfolding tokens read_tokens
parse_formats list = read_tokens (tokens [] list)

-- The texts without commas.
abbrev CommaFree : Text → Type 0
CommaFree [] = Unit {0}
CommaFree (c ∷ s) = ((c == b',') ≡ false) × CommaFree s

digits_CommaFree : (s : Text) → AllDigits s → CommaFree s
digits_CommaFree [] all = tt
digits_CommaFree (c ∷ s) all = (ground arith, digits_CommaFree s all.1)

show_ℤ-CommaFree : (z : ℤ) → CommaFree (show_ℤ z)
unfolding show_ℤ
show_ℤ-CommaFree (pos n) = digits_CommaFree (show_ℕ n) (show_ℕ-AllDigits n)
show_ℤ-CommaFree (negsuc n) = (refl, digits_CommaFree (show_ℕ (n + 1)) (show_ℕ-AllDigits (n + 1)))

tokens-piece :
    (tok t rest : Text) → CommaFree t → tokens tok (t ++ b',' ∷ rest) ≡ (tok ++ t) ∷ tokens [] rest
unfolding tokens
tokens-piece tok [] rest free = ap (λ s. s ∷ tokens [] rest) (sym (append-nil tok))
tokens-piece tok (c ∷ t) rest free = rw (free.0) (
    tokens-piece (tok ++ (c ∷ [])) t rest (free.1)
    ∙ ap (λ s. s ∷ tokens [] rest) (append_assoc tok (c ∷ []) t))

tokens-end : (tok t : Text) → CommaFree t → tokens tok t ≡ last_token (tok ++ t)
unfolding tokens
tokens-end tok [] free = ap last_token (sym (append-nil tok))
tokens-end tok (c ∷ t) free =
    rw (free.0)
      (tokens-end (tok ++ (c ∷ [])) t (free.1) ∙ ap last_token (append_assoc tok (c ∷ []) t))

read_token-some :
    (tok : Text) {id : ℤ} {ids : List ℤ}
    → stoi tok ≡ some id
    → read_token tok (some ids) ≡ some (id ∷ ids)
unfolding stoi digits_of skip_spaces
read_token-some [] h = cc h
read_token-some (c ∷ tok) h = rw h refl

last_token-some :
    (tok : Text) {id : ℤ} → stoi tok ≡ some id → read_tokens (last_token tok) ≡ some (id ∷ [])
unfolding stoi digits_of skip_spaces read_tokens
last_token-some [] h = cc h
last_token-some (c ∷ tok) h = rw h refl

-- The ids behind the first, each with its comma.
abbrev further_ids : List ℤ → Text
further_ids [] = []
further_ids (id ∷ ids) = b',' ∷ (show_ℤ id ++ further_ids ids)

-- Ids with commas between them.
abbrev pub joined_ids : List ℤ → Text
joined_ids [] = []
joined_ids (id ∷ ids) = show_ℤ id ++ further_ids ids

abbrev pub AllInts : List ℤ → Type 0
AllInts [] = Unit {0}
AllInts (id ∷ ids) = IsInt id × AllInts ids

read_tokens-joined :
    (id : ℤ) (ids : List ℤ)
    → IsInt id
    → AllInts ids
    → read_tokens (tokens [] (joined_ids (id ∷ ids))) ≡ some (id ∷ ids)
unfolding read_tokens
read_tokens-joined id [] int all =
    ap (λ s. read_tokens (tokens [] s)) (append-nil (show_ℤ id))
    ∙ ap read_tokens (tokens-end [] (show_ℤ id) (show_ℤ-CommaFree id))
    ∙ last_token-some (show_ℤ id) (atoi-show_ℤ id int).1
read_tokens-joined id (next ∷ ids) int all =
    ap read_tokens (tokens-piece [] (show_ℤ id) (joined_ids (next ∷ ids)) (show_ℤ-CommaFree id))
    ∙ ap (read_token (show_ℤ id)) (read_tokens-joined next ids (all.0) (all.1))
    ∙ read_token-some (show_ℤ id) (atoi-show_ℤ id int).1

-- A list of ids in decimal with commas between them is read back.
pub parse_formats-joined_ids :
    (ids : List ℤ) → AllInts ids → parse_formats (joined_ids ids) ≡ some ids
unfolding parse_formats tokens read_tokens
parse_formats-joined_ids [] all = refl
parse_formats-joined_ids (id ∷ ids) all = read_tokens-joined id ids (all.0) (all.1)
