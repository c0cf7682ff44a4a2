-- ===== src/Json/Value.antt =====
-- Where redcli/rle4k_config.h finds the value of a key.
use mathlib.Core.List.{append_assoc, append-nil}
use encoder_rle4k_cpu.Base.{
  ℕ, ◌+◌, ◌≡◌, refl, ap, sym, ◌∙◌, Bool, false, not, [], ◌∷◌, ◌++◌, Option, none, some, arith,
  length, length-append, get_elem?, ◌==◌,
}
use encoder_rle4k_cpu.Text.{Text, search, first_where, find, member, shifted, is_empty}
use encoder_rle4k_cpu.Text.Search.{
  AllFail, search-here, first_where-append, find-at, find_first_not_of-at, get_elem?-at,
  starts-append,
}
use encoder_rle4k_cpu.Json.{
  quoted, blanks, both_slash, is_comment, skip_comment, after_colon, after_key, value_pos,
}

-- Nothing but blanks.
abbrev pub AllBlank : Text → Type 0
AllBlank = AllFail (λ c. not (member c blanks))

-- A text with a key in quotes, a colon, blanks, and what follows them.
abbrev pub entry_front : Text → Text → Text → Text
entry_front front key gap = front ++ (quoted key ++ (b':' ∷ gap))

plus_zero : (n : ℕ) → shifted n (some 0) ≡ some n
plus_zero n = let e : n + 0 ≡ n = omega arith in ap some e

module _ (front key gap rest json : Text) where
  -- The first hit of the key in quotes is behind `front`.
  abbrev pub KeyAt : Type 0
  KeyAt =
      (json ≡ entry_front front key gap ++ rest) × (search (quoted key) json ≡ some (length front))

  module _ (k : KeyAt) where
    key_found : find json (quoted key) 0 ≡ some (length front)
    unfolding find
    key_found =
        let e : 0 + length front ≡ length front = omega arith in ap (shifted 0) k.1 ∙ ap some e

    colon_parts : json ≡ (front ++ quoted key) ++ (b':' ∷ (gap ++ rest))
    colon_parts = k.0 ∙ simp append_assoc

    gap_parts : json ≡ (front ++ (quoted key ++ (b':' ∷ []))) ++ (gap ++ rest)
    gap_parts = k.0 ∙ simp append_assoc

    colon_at : ℕ
    colon_at = length front + length (quoted key)

    colon_found : find json (b':' ∷ []) colon_at ≡ some colon_at
    unfolding colon_at
    colon_found =
        find-at json (front ++ quoted key) (b':' ∷ (gap ++ rest)) colon_parts colon_at
          (sym (length-append front (quoted key))) (b':' ∷ [])
        ∙ ap (shifted colon_at) (
            search-here (b':' ∷ []) (b':' ∷ (gap ++ rest))
              (starts-append (b':' ∷ []) (gap ++ rest)))
        ∙ plus_zero colon_at

    gap_at : colon_at + 1 ≡ length (front ++ (quoted key ++ (b':' ∷ [])))
    unfolding colon_at
    gap_at = omega (
      arith,
      length-append front (quoted key ++ (b':' ∷ [])),
      length-append (quoted key) (b':' ∷ []),
    )

    value_pos-skip_comment :
        value_pos json key
        ≡ skip_comment json
            (shifted (colon_at + 1) (first_where (λ c. not (member c blanks)) (gap ++ rest)))
    unfolding value_pos colon_at
    value_pos-skip_comment =
        ap (after_key json (quoted key)) key_found
        ∙ ap (after_colon json) colon_found
        ∙ ap (skip_comment json) (
            find_first_not_of-at json (front ++ (quoted key ++ (b':' ∷ []))) (gap ++ rest) gap_parts
              (colon_at + 1) gap_at blanks)

    value_start : colon_at + 1 + length gap ≡ length (entry_front front key gap)
    unfolding colon_at
    value_start = omega (
      arith,
      length-append front (quoted key ++ (b':' ∷ gap)),
      length-append (quoted key) (b':' ∷ gap),
      length-append front (quoted key),
    )

    -- What the blanks give, in terms of the position of what follows them.
    pub value_pos_hit :
        first_where (λ c. not (member c blanks)) (gap ++ rest) ≡ some (length gap)
        → value_pos json key ≡ skip_comment json (some (length (entry_front front key gap)))
    value_pos_hit hit =
        value_pos-skip_comment
        ∙ ap (λ p. skip_comment json (shifted (colon_at + 1) p)) hit
        ∙ ap (λ n. skip_comment json (some n)) value_start

    value_pos_miss :
        first_where (λ c. not (member c blanks)) (gap ++ rest) ≡ none
        → value_pos json key ≡ skip_comment json none
    value_pos_miss miss =
        value_pos-skip_comment ∙ ap (λ p. skip_comment json (shifted (colon_at + 1) p)) miss

-- A value starts with a byte that is no blank and no slash.
abbrev pub StartsValue : Text → Type 0
StartsValue [] = ⊥
StartsValue (c ∷ s) = (member c blanks ≡ false) × ((c == b'/') ≡ false)

no_slash : (c : ℕ) (d : Option ℕ) → (c == b'/') ≡ false → both_slash (some c) d ≡ false
no_slash c none h = refl
no_slash c (some d) h = rw h refl

skip_comment-value :
    (json : Text) (n : ℕ) {c : ℕ}
    → get_elem? json n ≡ some c
    → (c == b'/') ≡ false
    → skip_comment json (some n) ≡ some (some n)
unfolding skip_comment is_comment
skip_comment-value json n {c} here other =
    rw
      (ap (λ a. both_slash a (get_elem? json (n + 1))) here
        ∙ no_slash c (get_elem? json (n + 1)) other)
      refl

-- The value of a key is where the blanks behind its colon end.
pub value_pos-entry :
    (front key gap v more json : Text)
    → KeyAt front key gap (v ++ more) json
    → AllBlank gap
    → StartsValue v
    → value_pos json key ≡ some (some (length (entry_front front key gap)))
value_pos-entry front key gap [] more json k blank starts_value = elim starts_value [ ]
value_pos-entry front key gap (c ∷ v) more json k blank (solid, other) =
    value_pos_hit front key gap (c ∷ (v ++ more)) json k
      (first_where-append (λ d. not (member d blanks)) gap c (v ++ more) blank (ap not solid))
    ∙ skip_comment-value json (length (entry_front front key gap))
        (get_elem?-at json (entry_front front key gap) (c ∷ (v ++ more)) k.0 _ refl refl) other

first_where-AllFail : (test : ℕ → Bool) (s : Text) → AllFail test s → first_where test s ≡ none
unfolding first_where
first_where-AllFail test [] all = refl
first_where-AllFail test (c ∷ s) all = rw (all.0, first_where-AllFail test s all.1) refl

not_empty : (s : Text) (c : ℕ) (t : Text) → is_empty (s ++ c ∷ t) ≡ false
not_empty [] c t = refl
not_empty (d ∷ s) c t = refl

-- A key whose colon is followed by nothing but blanks makes its reader read `s[npos]`.
pub value_pos-undefined :
    (front key gap json : Text)
    → KeyAt front key gap [] json
    → AllBlank gap
    → value_pos json key ≡ none
unfolding skip_comment
value_pos-undefined front key gap json k blank =
    let nowhere = first_where-AllFail (λ c. not (member c blanks)) gap blank in
    let here : is_empty json ≡ false =
      ap is_empty (k.0 ∙ append-nil (entry_front front key gap)) ∙ not_empty front b'"' _ in
    value_pos_miss front key gap [] json k (ap (first_where _) (append-nil gap) ∙ nowhere)
    ∙ rw here refl
