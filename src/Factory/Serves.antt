-- ===== src/Factory/Serves.antt =====
-- The answers of the registry of redcli/rle4k_format_encoder.cpp, also for the formats of a run.
use encoder_rle4k_cpu.Base.{
  ℕ, zero, suc, ◌<◌, ◌≡◌, refl, ◌∙◌, ap, sym, subst, inl, inr, false, List, [], ◌∷◌, some, arith,
  Bool-cases, length, some_injective, get_elem?, if◌then◌else◌,
}
use encoder_rle4k_cpu.Base.Int.{ℤ, pos, negsuc, ltb_ℤ, eq_ℤ, eq_ℤ→eq, eq_ℤ-refl}
use encoder_rle4k_cpu.Format.{map_format_id}
use encoder_rle4k_cpu.Encoder.{
  Encoder, rle4k, gzip, lzo2, snappy, zstd, brotli, get_supported_format, get_supported_formats,
}
use encoder_rle4k_cpu.Factory.{
  Processors, get_encoder, put, put_all, register_processor, initialize_default_processors,
  known_formats, chosen_formats, or_all,
}

get_encoder-put :
    (fmt key : ℤ) (e : Encoder) (p : Processors)
    → get_encoder (put key e p) fmt ≡ (if eq_ℤ fmt key then some e else get_encoder p fmt)
unfolding get_encoder put
get_encoder-put fmt key e [] = refl
get_encoder-put fmt key e ((k, f) ∷ rest) =
    let ih = get_encoder-put fmt key e rest in
    elim (Bool-cases (ltb_ℤ key k)) [
      | inl before ↦ rw before refl
      | inr after ↦ elim (Bool-cases (eq_ℤ key k)) [
        | inl here ↦
            let eq = eq_ℤ→eq key k here in
            rw (after, here)
              (subst
                (λ j. (if eq_ℤ fmt key then some e else get_encoder rest fmt) ≡ (
                  if eq_ℤ fmt key
                  then some e
                  else if eq_ℤ fmt j
                  then some f
                  else get_encoder rest fmt))
                eq (ground arith))
        | inr there ↦
            rw (after, there)
              (elim (Bool-cases (eq_ℤ fmt k)) [
                | inl at_k ↦ elim (Bool-cases (eq_ℤ fmt key)) [
                  | inl at_key ↦
                      let both : key ≡ k = sym (eq_ℤ→eq fmt key at_key) ∙ eq_ℤ→eq fmt k at_k in
                      cc (ap (λ j. eq_ℤ key j) both, eq_ℤ-refl key, there)
                  | inr off ↦ rw (at_k, off) refl
                ]
                | inr off ↦ rw off ih
              ])
      ]
    ]

-- After a registration the registry answers with the new encoder at its format and as before elsewhere.
pub get_encoder-register_processor :
    (fmt : ℤ) (e : Encoder) (p : Processors)
    → get_encoder (register_processor (some e) p) fmt
      ≡ (if eq_ℤ fmt (get_supported_format e) then some e else get_encoder p fmt)
unfolding register_processor put_all get_supported_formats
get_encoder-register_processor fmt e p = get_encoder-put fmt (get_supported_format e) e p

-- An encoder of its own format is registered for the format.
abbrev pub Served : ℤ → Type 0
Served fmt =
    (e : Encoder) × (get_encoder initialize_default_processors fmt ≡ some e)
    × (get_supported_format e ≡ fmt)

map_format_id-Served :
    (id : ℤ) → ltb_ℤ (map_format_id id) (pos 0) ≡ false → Served (map_format_id id)
unfolding map_format_id initialize_default_processors register_processor get_encoder put put_all
    get_supported_formats get_supported_format
map_format_id-Served (pos zero) h = (rle4k, refl, refl)
map_format_id-Served (pos (suc zero)) h = (gzip, refl, refl)
map_format_id-Served (pos (suc (suc zero))) h = (lzo2, refl, refl)
map_format_id-Served (pos (suc (suc (suc zero)))) h = (snappy, refl, refl)
map_format_id-Served (pos (suc (suc (suc (suc zero))))) h = (zstd, refl, refl)
map_format_id-Served (pos (suc (suc (suc (suc (suc zero)))))) h = (brotli, refl, refl)
map_format_id-Served (pos (suc (suc (suc (suc (suc (suc n))))))) h = cc h
map_format_id-Served (negsuc n) h = cc h

known_formats-Served :
    (ids : List ℤ) (i : ℕ) (fmt : ℤ) → get_elem? (known_formats ids) i ≡ some fmt → Served fmt
unfolding known_formats
known_formats-Served [] i fmt h = cc h
known_formats-Served (id ∷ ids) zero fmt h = elim (Bool-cases (ltb_ℤ (map_format_id id) (pos 0))) [
  | inl unknown ↦ known_formats-Served ids zero fmt (rw unknown at h)
  | inr known ↦
      let e : some (map_format_id id) ≡ some fmt = rw known at h in
      subst Served (some_injective e) (map_format_id-Served id known)
]
known_formats-Served (id ∷ ids) (suc j) fmt h =
    elim (Bool-cases (ltb_ℤ (map_format_id id) (pos 0))) [
      | inl unknown ↦ known_formats-Served ids (suc j) fmt (rw unknown at h)
      | inr known ↦ known_formats-Served ids j fmt (rw known at h)
    ]

all_known : known_formats (pos 0 ∷ pos 1 ∷ pos 2 ∷ pos 3 ∷ pos 4 ∷ pos 5 ∷ []) ≡ or_all []
unfolding known_formats map_format_id
all_known = refl

some_format : (fs : List ℤ) → 0 < length (or_all fs)
some_format [] = omega arith
some_format (f ∷ fs) = omega arith

or_all-Served :
    (fs : List ℤ)
    → ((i : ℕ) (fmt : ℤ) → get_elem? fs i ≡ some fmt → Served fmt)
    → (i : ℕ) (fmt : ℤ) → get_elem? (or_all fs) i ≡ some fmt
    → Served fmt
or_all-Served [] served i fmt h =
    known_formats-Served (pos 0 ∷ pos 1 ∷ pos 2 ∷ pos 3 ∷ pos 4 ∷ pos 5 ∷ []) i fmt (by_ids ∙ h)
  where
    by_ids :
        get_elem? (known_formats (pos 0 ∷ pos 1 ∷ pos 2 ∷ pos 3 ∷ pos 4 ∷ pos 5 ∷ [])) i
        ≡ get_elem? (or_all []) i
    by_ids = ap (λ l. get_elem? l i) all_known
or_all-Served (f ∷ fs) served i fmt h = served i fmt h

-- Whatever ids the configuration lists, a run has a format at least, and for each format of the run the
-- default registry has an encoder whose own format it is.
pub chosen_formats-Served :
    (ids : List ℤ)
    → (0 < length (chosen_formats ids))
      × ((i : ℕ) (fmt : ℤ) → get_elem? (chosen_formats ids) i ≡ some fmt → Served fmt)
unfolding chosen_formats
chosen_formats-Served ids =
    (some_format (known_formats ids), or_all-Served (known_formats ids) (known_formats-Served ids))
