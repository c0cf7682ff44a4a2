-- ===== src/Text/Decimal.antt =====
-- Ints in decimal, as streams print them, and `atoi` and `stoi` on such texts.
use encoder_rle4k_cpu.Base.{
  ℕ, zero, suc, ◌+◌, ◌-◌, ◌*◌, ◌/◌, ◌%◌, ◌^◌, ◌<◌, ◌≡◌, refl, ◌∙◌, ap, inl, inr, true, false, [],
  ◌∷◌, some, arith, ltb, ◌==◌, Bool-cases, if◌then◌else◌,
}
use native.Mathlib.Nat.{pow-succ'}
use encoder_rle4k_cpu.Base.Int.{ℤ, pos, negsuc}
use encoder_rle4k_cpu.Text.{Text}
use encoder_rle4k_cpu.Text.Number.{
  is_digit, is_space, skip_spaces, digits_of, value, signed_value, sign_of, atoi, stoi,
}

-- The last digits of `n` in front of `out`.
unfoldable pub emit : ℕ → ℕ → Text → Text
emit zero n out = out
emit (suc fuel) n out =
    let further = emit fuel (n / 10) ((b'0' + n % 10) ∷ out) in
    if ltb n 10 then (b'0' + n) ∷ out else further

-- An int has 10 digits at most.
unfoldable pub show_ℕ : ℕ → Text
unfolding emit
show_ℕ n = emit 10 n []

unfoldable pub show_ℤ : ℤ → Text
unfolding show_ℕ
show_ℤ (pos n) = show_ℕ n
show_ℤ (negsuc n) = b'-' ∷ show_ℕ (n + 1)

value-emit : (fuel n : ℕ) (out : Text) → n < 10 ^ fuel → value (emit fuel n out) 0 ≡ value out n
unfolding value emit
value-emit zero n out h = let e : n ≡ 0 = omega arith in rw e refl
value-emit (suc fuel) n out h = elim (Bool-cases (ltb n 10)) [
  | inl small ↦ let e : 0 * 10 + (b'0' + n - b'0') ≡ n = omega arith in rw small (ap (value out) e)
  | inr large ↦
      let e10 : 10 ^ suc fuel ≡ 10 * 10 ^ fuel = pow-succ' 10 fuel in
      let below : n < 10 * 10 ^ fuel = omega (arith, h, e10) in
      let e : n / 10 * 10 + (b'0' + n % 10 - b'0') ≡ n = omega arith in
      rw large (value-emit fuel (n / 10) _ (omega (arith, below)) ∙ ap (value out) e)
]

abbrev pub AllDigits : Text → Type 0
AllDigits [] = Unit {0}
AllDigits (c ∷ s) = (is_digit c ≡ true) × AllDigits s

emit-AllDigits : (fuel n : ℕ) (out : Text) → AllDigits out → AllDigits (emit fuel n out)
unfolding emit
emit-AllDigits zero n out all = all
emit-AllDigits (suc fuel) n out all = elim (Bool-cases (ltb n 10)) [
  | inl small ↦ rw small (ground arith, all)
  | inr large ↦ rw large (emit-AllDigits fuel (n / 10) _ (ground arith, all))
]

digits_of-AllDigits : (s : Text) → AllDigits s → digits_of s ≡ s
unfolding digits_of
digits_of-AllDigits [] all = refl
digits_of-AllDigits (c ∷ s) all = rw (all.0, digits_of-AllDigits s all.1) refl

-- The first digit.
abbrev pub StartsDigit : Text → Type 0
StartsDigit [] = ⊥
StartsDigit (c ∷ s) = is_digit c ≡ true

emit-StartsDigit : (fuel n : ℕ) (out : Text) → StartsDigit out → StartsDigit (emit fuel n out)
unfolding emit
emit-StartsDigit zero n out h = h
emit-StartsDigit (suc fuel) n out h = elim (Bool-cases (ltb n 10)) [
  | inl small ↦ rw small (ground arith)
  | inr large ↦ rw large (emit-StartsDigit fuel (n / 10) _ (ground arith))
]

pub show_ℕ-StartsDigit : (n : ℕ) → StartsDigit (show_ℕ n)
unfolding show_ℕ emit
show_ℕ-StartsDigit n = elim (Bool-cases (ltb n 10)) [
  | inl small ↦ rw small (ground arith)
  | inr large ↦ rw large (emit-StartsDigit 9 (n / 10) _ (ground arith))
]

pub show_ℕ-AllDigits : (n : ℕ) → AllDigits (show_ℕ n)
unfolding show_ℕ
show_ℕ-AllDigits n = emit-AllDigits 10 n [] tt

pub value-show_ℕ : (n : ℕ) → n < 10 ^ 10 → value (show_ℕ n) 0 ≡ n
unfolding show_ℕ value
value-show_ℕ n h = value-emit 10 n [] h

-- `atoi` and `stoi` of digits, without and with a sign.
atoi_digits :
    (s : Text)
    → AllDigits s
    → StartsDigit s
    → (atoi s ≡ signed_value false (value s 0))
      × (atoi (b'-' ∷ s) ≡ signed_value true (value s 0))
      × (stoi s ≡ signed_value false (value s 0))
      × (stoi (b'-' ∷ s) ≡ signed_value true (value s 0))
unfolding atoi stoi skip_spaces sign_of
atoi_digits [] all h = elim h [ ]
atoi_digits (c ∷ s) all h =
    let digits = digits_of-AllDigits (c ∷ s) all in
    let solid : is_space c ≡ false = ground arith in
    let minus : (c == b'-') ≡ false = ground arith in
    let plus : (c == b'+') ≡ false = ground arith in
    (
      rw (solid, minus, plus, digits) refl,
      rw digits refl,
      rw (solid, minus, plus, digits) refl,
      rw digits refl,
    )

-- The ints: 32 bits with a sign.
abbrev pub IsInt : ℤ → Type 0
IsInt (pos n) = n < 2 ^ 31
IsInt (negsuc n) = n < 2 ^ 31

signed_value-pos : (n : ℕ) → n < 2 ^ 31 → signed_value false n ≡ some (pos n)
unfolding signed_value
signed_value-pos n h = ground arith

signed_value-negsuc : (n : ℕ) → n < 2 ^ 31 → signed_value true (n + 1) ≡ some (negsuc n)
unfolding signed_value
signed_value-negsuc n h = let e : n + 1 - 1 ≡ n = omega arith in ground arith

-- Every int is read back from its decimal text.
pub atoi-show_ℤ : (z : ℤ) → IsInt z → (atoi (show_ℤ z) ≡ some z) × (stoi (show_ℤ z) ≡ some z)
unfolding show_ℤ
atoi-show_ℤ (pos n) h =
    let (a, _, c, _) = atoi_digits (show_ℕ n) (show_ℕ-AllDigits n) (show_ℕ-StartsDigit n) in
    let v = value-show_ℕ n (omega arith) in
    let w = ap (signed_value false) v ∙ signed_value-pos n h in (a ∙ w, c ∙ w)
atoi-show_ℤ (negsuc n) h =
    let (_, b, _, d) =
      atoi_digits (show_ℕ (n + 1)) (show_ℕ-AllDigits (n + 1)) (show_ℕ-StartsDigit (n + 1)) in
    let v = value-show_ℕ (n + 1) (omega arith) in
    let w = ap (signed_value true) v ∙ signed_value-negsuc n h in (b ∙ w, d ∙ w)
