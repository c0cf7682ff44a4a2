-- ===== src/Text/Search.antt =====
-- Laws of the searches in texts: what stands in front, and the first hit.
use encoder_rle4k_cpu.Base.{
  ℕ, suc, ◌+◌, ◌-◌, ◌≡◌, ◌↔◌, refl, ap, ◌∙◌, inl, inr, Bool, true, false, not, List, [], ◌∷◌, ◌++◌,
  some, arith, drop, take, length, get_elem?, Bool-cases, ◌==◌, ==_iff,
}
use encoder_rle4k_cpu.Text.{
  Text, same, starts, search, first_where, shifted, next_place, member, find, find_first_of,
  find_first_not_of, substr,
}

head_equal : {a b : ℕ} {s t : Text} → ◌≡◌ {A = Text} (a ∷ s) (b ∷ t) → a ≡ b
head_equal h = cc h

tail_equal : {a b : ℕ} {s t : Text} → ◌≡◌ {A = Text} (a ∷ s) (b ∷ t) → s ≡ t
tail_equal h = cc h

pub same_iff : (s t : Text) → ((same s t ≡ true) ↔ (s ≡ t))
unfolding same
same_iff [] [] = (λ _. refl, λ _. refl)
same_iff [] (b ∷ t) = (λ h. cc h, λ h. cc h)
same_iff (a ∷ s) [] = (λ h. cc h, λ h. cc h)
same_iff (a ∷ s) (b ∷ t) =
    let heads = ==_iff a b in
    let tails = same_iff s t in
    (
      λ h. elim (Bool-cases (a == b)) [
        | inl e ↦ ap (λ c. c ∷ s) (heads.0 e) ∙ ap (◌∷◌ b) (tails.0 (rw e at h))
        | inr e ↦ let clash : false ≡ true = rw e at h in cc clash
      ],
      λ h. rw (heads.1 (head_equal h), tails.1 (tail_equal h)) refl,
    )

pub same_refl : (s : Text) → same s s ≡ true
same_refl s = (same_iff s s).1 refl

module _ {ℓ} {A : Type ℓ} where
  -- Behind the front.
  pub drop-append : (xs ys : List A) (n : ℕ) → drop (length xs + n) (xs ++ ys) ≡ drop n ys
  drop-append [] ys n = let e : 0 + n ≡ n = omega arith in ap (λ k. drop k ys) e
  drop-append (x ∷ xs) ys n =
      let e : suc (length xs) + n ≡ suc (length xs + n) = omega arith in
      ap (λ k. drop k (x ∷ xs ++ ys)) e ∙ drop-append xs ys n

  pub drop-append_self : (xs ys : List A) → drop (length xs) (xs ++ ys) ≡ ys
  drop-append_self [] ys = refl
  drop-append_self (x ∷ xs) ys = drop-append_self xs ys

  pub take-append : (xs ys : List A) → take (length xs) (xs ++ ys) ≡ xs
  take-append [] ys = refl
  take-append (x ∷ xs) ys = ap (◌∷◌ x) (take-append xs ys)

pub get_elem?-append :
    (front : Text) (c : ℕ) (more : Text) → get_elem? (front ++ c ∷ more) (length front) ≡ some c
get_elem?-append [] c more = refl
get_elem?-append (x ∷ front) c more = get_elem?-append front c more

pub starts-append : (pat rest : Text) → starts pat (pat ++ rest) ≡ true
unfolding starts
starts-append [] rest = refl
starts-append (p ∷ ps) rest = ground (arith, starts-append ps rest)

pub search-here : (pat s : Text) → starts pat s ≡ true → search pat s ≡ some 0
unfolding search
search-here pat [] h = rw h refl
search-here pat (c ∷ s) h = rw h refl

-- Every byte of a text fails the test.
abbrev pub AllFail : (ℕ → Bool) → Text → Type 0
AllFail test [] = Unit {0}
AllFail test (c ∷ s) = (test c ≡ false) × AllFail test s

pub first_where-append :
    (test : ℕ → Bool) (front : Text) (c : ℕ) (rest : Text)
    → AllFail test front
    → test c ≡ true
    → first_where test (front ++ c ∷ rest) ≡ some (length front)
unfolding first_where
first_where-append test [] c rest all h = rw h refl
first_where-append test (d ∷ front) c rest all h =
    rw (all.0, first_where-append test front c rest all.1 h) refl

-- What stands at and behind a position, with the text in two parts.
module _ (s front rest : Text) (parts : s ≡ front ++ rest) (n : ℕ) (here : n ≡ length front) where
  drop-at : drop n s ≡ rest
  drop-at = ap (drop n) parts ∙ ap (λ k. drop k (front ++ rest)) here ∙ drop-append_self front rest

  pub find-at : (pat : Text) → find s pat n ≡ shifted n (search pat rest)
  unfolding find
  find-at pat = ap (λ t. shifted n (search pat t)) drop-at

  pub find_first_not_of-at :
      (set : Text)
      → find_first_not_of s set n ≡ shifted n (first_where (λ c. not (member c set)) rest)
  unfolding find_first_not_of
  find_first_not_of-at set = ap (λ t. shifted n (first_where (λ c. not (member c set)) t)) drop-at

  pub find_first_of-at :
      (set : Text) → find_first_of s set n ≡ shifted n (first_where (λ c. member c set) rest)
  unfolding find_first_of
  find_first_of-at set = ap (λ t. shifted n (first_where (λ c. member c set) t)) drop-at

  -- The piece up to a second position.
  pub substr-at :
      (piece more : Text) → rest ≡ piece ++ more → substr s n (some (n + length piece)) ≡ piece
  unfolding substr
  substr-at piece more split =
      let e : n + length piece - n ≡ length piece = omega arith in
      ap (λ k. take k (drop n s)) e
      ∙ ap (take (length piece)) (drop-at ∙ split)
      ∙ take-append piece more

  pub get_elem?-at : {c : ℕ} {more : Text} → rest ≡ c ∷ more → get_elem? s n ≡ some c
  get_elem?-at {c} {more} split =
      ap (λ t. get_elem? t n) (parts ∙ ap (λ t. front ++ t) split)
      ∙ ap (get_elem? (front ++ c ∷ more)) here
      ∙ get_elem?-append front c more

-- A search for one byte.
pub search_byte : (c : ℕ) (s : Text) → search (c ∷ []) s ≡ first_where (λ d. c == d) s
unfolding search first_where starts
search_byte c [] = refl
search_byte c (d ∷ s) = elim (Bool-cases (c == d)) [
  | inl e ↦ rw e refl
  | inr e ↦ rw e (ap next_place (search_byte c s))
]
