-- ===== src/Text/Number.antt =====
-- `std::atoi` and `std::stoi` (base 10). A value that is no int is undefined for the one and an
-- exception of the other: no result for both.
use encoder_rle4k_cpu.Base.{
  ℕ, ◌+◌, ◌-◌, ◌*◌, ◌^◌, Bool, true, false, ◌&&◌, ◌||◌, [], ◌∷◌, Option, none, some, leb, ltb, ◌==◌,
  if◌then◌else◌,
}
use encoder_rle4k_cpu.Base.Int.{ℤ, pos, negsuc}
use encoder_rle4k_cpu.Text.{Text}

abbrev pub is_digit : ℕ → Bool
is_digit c = leb b'0' c && leb c b'9'

-- `isspace` in the C locale
abbrev pub is_space : ℕ → Bool
is_space c = c == b' ' || (leb 9 c && leb c 13)

unfoldable pub skip_spaces : Text → Text
skip_spaces [] = []
skip_spaces (c ∷ s) = let further = skip_spaces s in if is_space c then further else c ∷ s

-- The digits in front.
unfoldable pub digits_of : Text → Text
digits_of [] = []
digits_of (c ∷ s) = let further = digits_of s in if is_digit c then c ∷ further else []

-- The number that digits spell behind `n`.
unfoldable pub value : Text → ℕ → ℕ
value [] n = n
value (c ∷ s) n = value s (n * 10 + (c - b'0'))

-- An int, with its sign.
unfoldable pub signed_value : Bool → ℕ → Option ℤ
signed_value false n = if ltb n (2 ^ 31) then some (pos n) else none
signed_value true n =
    if n == 0 then some (pos 0) else if leb n (2 ^ 31) then some (negsuc (n - 1)) else none

-- The sign in front, and what is behind it.
unfoldable pub sign_of : Text → Bool × Text
sign_of [] = (false, [])
sign_of (c ∷ s) = if c == b'-' then (true, s) else if c == b'+' then (false, s) else (false, c ∷ s)

unfoldable pub atoi : Text → Option ℤ
unfolding skip_spaces digits_of value signed_value sign_of
atoi s =
    let (negative, rest) = sign_of (skip_spaces s) in
    signed_value negative (value (digits_of rest) 0)

abbrev pub with_digits : Text → Option ℤ → Option ℤ
with_digits [] v = none
with_digits (c ∷ s) v = v

-- No digit is an exception, too.
unfoldable pub stoi : Text → Option ℤ
unfolding skip_spaces digits_of value signed_value sign_of
stoi s =
    let (negative, rest) = sign_of (skip_spaces s) in
    with_digits (digits_of rest) (signed_value negative (value (digits_of rest) 0))
