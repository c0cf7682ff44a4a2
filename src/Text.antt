-- ===== src/Text.antt =====
-- `std::string` as redcli uses it: bytes, comparison, `find` and its variants, `substr`. A position is
-- an index, and `npos` is none.
pub mod Number
pub mod Search
pub mod Decimal
use Prim.Native.Char.{code}
use Prim.Native.String
use encoder_rle4k_cpu.Base.{
  ℕ, zero, suc, ◌+◌, ◌-◌, ◌*◌, ◌/◌, ◌%◌, Bool, true, false, not, ◌&&◌, ◌||◌, List, [], ◌∷◌, ◌++◌,
  Option, none, some, drop, take, length, ltb, ◌==◌, if◌then◌else◌,
}

abbrev pub Text : Type 0
Text = List ℕ

-- The UTF-8 bytes of a code point.
abbrev pub utf8 : ℕ → Text
utf8 c =
    if ltb c 0x80
    then c ∷ []
    else if ltb c 0x800
    then (0xC0 + c / 64) ∷ (0x80 + c % 64) ∷ []
    else (0xE0 + c / 4096) ∷ (0x80 + c / 64 % 64) ∷ (0x80 + c % 64) ∷ []

-- The bytes of a literal.
abbrev pub codes : String.String → Text
codes String.[] = []
codes (String.◌∷◌ c s) = utf8 (code c) ++ codes s

-- `operator==`
unfoldable pub same : Text → Text → Bool
same [] [] = true
same [] (b ∷ t) = false
same (a ∷ s) [] = false
same (a ∷ s) (b ∷ t) = a == b && same s t

abbrev pub is_empty : Text → Bool
is_empty [] = true
is_empty (c ∷ s) = false

abbrev pub member : ℕ → Text → Bool
member c [] = false
member c (d ∷ ds) = c == d || member c ds

unfoldable pub starts : Text → Text → Bool
starts [] s = true
starts (p ∷ ps) [] = false
starts (p ∷ ps) (c ∷ s) = p == c && starts ps s

abbrev pub shifted : ℕ → Option ℕ → Option ℕ
shifted n none = none
shifted n (some k) = some (n + k)

abbrev pub next_place : Option ℕ → Option ℕ
next_place none = none
next_place (some k) = some (suc k)

-- The first place at which `pat` stands.
unfoldable pub search : Text → Text → Option ℕ
unfolding starts
search pat [] = if starts pat [] then some 0 else none
search pat (c ∷ s) =
    let later = next_place (search pat s) in if starts pat (c ∷ s) then some 0 else later

-- The first place of a byte that passes the test.
unfoldable pub first_where : (ℕ → Bool) → Text → Option ℕ
first_where test [] = none
first_where test (c ∷ s) =
    let later = next_place (first_where test s) in if test c then some 0 else later

-- `s.find(pat, pos)`, for a pattern that is not empty
unfoldable pub find : Text → Text → ℕ → Option ℕ
unfolding search
find s pat p = shifted p (search pat (drop p s))

-- `s.find_first_not_of(set, pos)`
unfoldable pub find_first_not_of : Text → Text → ℕ → Option ℕ
unfolding first_where
find_first_not_of s set p = shifted p (first_where (λ c. not (member c set)) (drop p s))

-- `s.find_first_of(set, pos)`
unfoldable pub find_first_of : Text → Text → ℕ → Option ℕ
unfolding first_where
find_first_of s set p = shifted p (first_where (λ c. member c set) (drop p s))

-- `s.substr(pos, end - pos)`; with `end` at `npos` it goes to the end.
unfoldable pub substr : Text → ℕ → Option ℕ → Text
substr s p none = drop p s
substr s p (some end) = take (end - p) (drop p s)
