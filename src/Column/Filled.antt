-- ===== src/Column/Filled.antt =====
-- What the repetitions of phase 2 of redcli/main.cpp leave in the slots of a window.
use encoder_rle4k_cpu.Base.{
  ℕ, zero, suc, ◌+◌, ◌≡◌, refl, ◌∙◌, sym, ap, subst, List, Option, none, some, length, get_elem?,
  bind-eq-some, some_injective,
}
use encoder_rle4k_cpu.Bitmap.{Bitmap, EncodeFormatArgs, ok}
use encoder_rle4k_cpu.Libraries.{Libraries}
use encoder_rle4k_cpu.Encoder.{Encoder, process_pack}
use encoder_rle4k_cpu.Phase.Encode.{encode_window}
use encoder_rle4k_cpu.Phase.Encode.Cache.{encode_window-rows}
use encoder_rle4k_cpu.Column.{encode_repeats}

module _ (lib : Libraries) (enc : Encoder) (args : EncodeFormatArgs) where
  -- What phase 2 leaves for a block: nothing for none, and otherwise what `process_pack` makes of it.
  abbrev pub Payload : Option Bitmap → Option Bitmap → Type 0
  Payload none e = e ≡ none
  Payload (some b) e = (p : Bitmap) × (process_pack lib enc (some b) args ≡ ok p) × (e ≡ some p)

  module _ (raw : List (Option Bitmap)) where
    -- A slot for each row, and nothing in those of rows without a block.
    pub record Empties (cache : List (Option Bitmap)) : Type 0 where
      pub slots : length raw ≡ length cache
      pub empty : (i : ℕ) → get_elem? raw i ≡ some none → get_elem? cache i ≡ some none

    -- The slot of each row holds its payload.
    abbrev pub Filled : List (Option Bitmap) → Type 0
    Filled cache =
        (i : ℕ) (block : Option Bitmap)
        → get_elem? raw i ≡ some block
        → (e : Option Bitmap) × (get_elem? cache i ≡ some e) × Payload block e

    encode_window-Filled :
        (cache : List (Option Bitmap)) (c : List (Option Bitmap) × ℕ)
        → Empties cache
        → encode_window lib enc args raw cache ≡ some c
        → Empties c.0 × Filled c.0
    encode_window-Filled cache c p e =
        let (slots, _, kept, packed) = encode_window-rows lib enc args raw cache p.slots e in
        (
          record { slots = p.slots ∙ sym slots; empty = λ i h. kept i h ∙ p.empty i h },
          λ i block. filled kept packed i block,
        )
      where
        filled :
            ((i : ℕ) → get_elem? raw i ≡ some none → get_elem? c.0 i ≡ get_elem? cache i)
            → ((i : ℕ) (b : Bitmap)
                → get_elem? raw i ≡ some (some b)
                → (e : Bitmap) × (process_pack lib enc (some b) args ≡ ok e)
                  × (get_elem? c.0 i ≡ some (some e)))
            → (i : ℕ) (block : Option Bitmap) → get_elem? raw i ≡ some block
            → (e : Option Bitmap) × (get_elem? c.0 i ≡ some e) × Payload block e
        filled kept packed i none h = (none, kept i h ∙ p.empty i h, refl)
        filled kept packed i (some b) h =
            let (e, made, here) = packed i b h in (some e, here, (e, made, refl))

    encode_repeats-Filled :
        (n : ℕ) (cache : List (Option Bitmap)) (cs : ℕ) (c : List (Option Bitmap) × ℕ)
        → Empties cache
        → Filled cache
        → encode_repeats lib enc args raw n cache cs ≡ some c
        → Empties c.0 × Filled c.0
    unfolding encode_repeats
    encode_repeats-Filled zero cache cs c p q e =
        let same = ap (λ x. x.0) (some_injective e) in (subst Empties same p, subst Filled same q)
    encode_repeats-Filled (suc n) cache cs c p q e =
        let (w, e0, e1) = bind-eq-some (encode_window lib enc args raw cache) _ e in
        let (p1, q1) = encode_window-Filled cache w p e0 in
        encode_repeats-Filled n w.0 (cs + w.1) c p1 q1 e1

    pub encode_repeats_first :
        (n : ℕ) (cache : List (Option Bitmap)) (cs : ℕ) (c : List (Option Bitmap) × ℕ)
        → Empties cache
        → encode_repeats lib enc args raw (suc n) cache cs ≡ some c
        → Empties c.0 × Filled c.0
    unfolding encode_repeats
    encode_repeats_first n cache cs c p e =
        let (w, e0, e1) = bind-eq-some (encode_window lib enc args raw cache) _ e in
        let (p1, q1) = encode_window-Filled cache w p e0 in
        encode_repeats-Filled n w.0 (cs + w.1) c p1 q1 e1
