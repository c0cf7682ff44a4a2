-- ===== src/Phase/Encode/Cache.antt =====
-- What the cache of redcli/main.cpp holds after phase 2, row by row.
use encoder_rle4k_cpu.Base.{
  ℕ, suc, ◌≤◌, ◌<◌, ◌≡◌, ◌≢◌, ap, subst, refl, ◌∙◌, List, Option, some, none, arith, get_elem?,
  length, length-set, get_elem?-set_self, get_elem?-set_ne, get_elem?-lt, bind-eq-some, run_from,
  ℕ_discrete,
}
use encoder_rle4k_cpu.Bitmap.{Bitmap, EncodeFormatArgs, Result, ok, throw}
use encoder_rle4k_cpu.Libraries.{Libraries}
use encoder_rle4k_cpu.Encoder.{Encoder, process_pack}
use encoder_rle4k_cpu.Phase.Slots.{run_from_inv}
use encoder_rle4k_cpu.Phase.Raster.{total_bytes}
use encoder_rle4k_cpu.Phase.Encode.{
  encode_block_of, encode_row, encode_write, encode_body, encode_window,
}

-- A slot after its row: the new bitmap, or what it held.
abbrev slot_after : Option (Option Bitmap) → Option Bitmap → Option (Option Bitmap)
slot_after old none = old
slot_after old (some e) = some (some e)

length-encode_write :
    (k : ℕ) (out : Option Bitmap) (cache : List (Option Bitmap))
    → length (encode_write k out cache) ≡ length cache
length-encode_write k none cache = refl
length-encode_write k (some e) cache = length-set cache k (some e)

get_elem?-encode_write_self :
    (k : ℕ) (out : Option Bitmap) (cache : List (Option Bitmap))
    → k < length cache
    → get_elem? (encode_write k out cache) k ≡ slot_after (get_elem? cache k) out
get_elem?-encode_write_self k none cache lt = refl
get_elem?-encode_write_self k (some e) cache lt = get_elem?-set_self cache k (some e) lt

get_elem?-encode_write_ne :
    (k i : ℕ) (out : Option Bitmap) (cache : List (Option Bitmap))
    → k ≢ i
    → get_elem? (encode_write k out cache) i ≡ get_elem? cache i
get_elem?-encode_write_ne k i none cache ne = refl
get_elem?-encode_write_ne k i (some e) cache ne = get_elem?-set_ne cache (some e) ne

module _ (lib : Libraries) (enc : Encoder) (args : EncodeFormatArgs)
    (raw cache0 : List (Option Bitmap)) where
  record Progress (k : ℕ) (cache : List (Option Bitmap)) : Type 0 where
    slots : length cache ≡ length cache0
    rows :
        (i : ℕ)
        → i < k
        → (out : Option Bitmap) × (encode_row lib enc args raw i ≡ some out)
          × (get_elem? cache i ≡ slot_after (get_elem? cache0 i) out)
    rest : (i : ℕ) → k ≤ i → get_elem? cache i ≡ get_elem? cache0 i

  body-Progress :
      length raw ≡ length cache0
      → (k : ℕ) (cache cache' : List (Option Bitmap)) → k < length raw
      → Progress k cache
      → encode_body lib enc args raw k cache ≡ some cache'
      → Progress (suc k) cache'
  unfolding encode_body
  body-Progress same_size k cache cache' lt p e =
      let (out, e0, e1) = bind-eq-some (encode_row lib enc args raw k) _ e in
      let e2 : encode_write k out cache ≡ cache' = cc in
      subst (Progress (suc k)) e2 (record {
        slots = length-encode_write k out cache ∙ p.slots;
        rows = λ i below. elim (ℕ_discrete k i) [
          | yes same ↦ rw (← same) (
            out,
            e0,
            get_elem?-encode_write_self k out cache (omega (arith, p.slots))
                ∙ ap (λ x. slot_after x out) (p.rest k (omega arith)),
          )
          | no other ↦
              let (old, o0, o1) = p.rows i (omega arith) in
              (old, o0, get_elem?-encode_write_ne k i out cache other ∙ o1)
        ];
        rest = λ i above.
            get_elem?-encode_write_ne k i out cache (omega arith) ∙ p.rest i (omega arith);
      })

  start-Progress : Progress 0 cache0
  start-Progress = record {
    slots = refl;
    rows = λ i lt. absurd (omega arith);
    rest = λ i above. refl;
  }

encode_block_of-some :
    (lib : Libraries) (enc : Encoder) (args : EncodeFormatArgs) (b : Bitmap) (out : Option Bitmap)
    → encode_block_of lib enc args (some b) ≡ some out
    → (e : Bitmap) × (process_pack lib enc (some b) args ≡ ok e) × (out ≡ some e)
unfolding encode_block_of
encode_block_of-some lib enc args b out h = go (process_pack lib enc (some b) args) refl
  where
    go :
        (r : Result Bitmap)
        → process_pack lib enc (some b) args ≡ r
        → (e : Bitmap) × (process_pack lib enc (some b) args ≡ ok e) × (out ≡ some e)
    go (ok e) p = (e, p, let k : some (some e) ≡ some out = rw p at h in cc)
    go (throw c) p = let k : none ≡ some out = rw p at h in cc

module _ (lib : Libraries) (enc : Encoder) (args : EncodeFormatArgs)
    (raw cache0 cache : List (Option Bitmap)) where
  encode_row-get :
      (i : ℕ) {block : Option Bitmap}
      → get_elem? raw i ≡ some block
      → encode_row lib enc args raw i ≡ encode_block_of lib enc args block
  unfolding encode_row
  encode_row-get i h = rw h

  skipped :
      Progress lib enc args raw cache0 (length raw) cache
      → (i : ℕ) → get_elem? raw i ≡ some none
      → get_elem? cache i ≡ get_elem? cache0 i
  unfolding encode_block_of
  skipped p i h =
      let (out, o0, o1) = p.rows i (get_elem?-lt raw i h) in
      let no_output : out ≡ none = cc (encode_row-get i h) in rw no_output at o1

  packed :
      Progress lib enc args raw cache0 (length raw) cache
      → (i : ℕ) (b : Bitmap) → get_elem? raw i ≡ some (some b)
      → (e : Bitmap) × (process_pack lib enc (some b) args ≡ ok e)
        × (get_elem? cache i ≡ some (some e))
  packed p i b h =
      let (out, o0, o1) = p.rows i (get_elem?-lt raw i h) in
      let (e, e0, e1) = encode_block_of-some lib enc args b out (rw (encode_row-get i h) at o0) in
      (e, e0, rw e1 at o1)

-- When the phase returns, on a cache with a slot for each row: the cache has as many slots as before,
-- the slot of a row with no raw bitmap is as it was, the slot of any other row holds what
-- `process_pack` made of its bitmap (which did not throw), and `cs_bytes` is the sum of the lengths.
pub encode_window-rows :
    (lib : Libraries) (enc : Encoder) (args : EncodeFormatArgs) (raw cache0 : List (Option Bitmap))
    {cache : List (Option Bitmap)} {cs_bytes : ℕ}
    → length raw ≡ length cache0
    → encode_window lib enc args raw cache0 ≡ some (cache, cs_bytes)
    → (length cache ≡ length cache0)
      × (cs_bytes ≡ total_bytes cache)
      × ((i : ℕ) → get_elem? raw i ≡ some none → get_elem? cache i ≡ get_elem? cache0 i)
      × ((i : ℕ) (b : Bitmap)
          → get_elem? raw i ≡ some (some b)
          → (e : Bitmap) × (process_pack lib enc (some b) args ≡ ok e)
            × (get_elem? cache i ≡ some (some e)))
unfolding encode_window
encode_window-rows lib enc args raw cache0 {cache} {cs_bytes} same_size e =
    let body : ℕ → List (Option Bitmap) → Option (List (Option Bitmap)) =
      encode_body lib enc args raw in
    let (s, e0, e1) = bind-eq-some (run_from body (length raw) 0 cache0) _ e in
    let same : s ≡ cache = cc in
    let bytes : total_bytes s ≡ cs_bytes = cc in
    let p : Progress lib enc args raw cache0 (length raw) cache =
      subst (Progress lib enc args raw cache0 (length raw)) same (
        run_from_inv body (Progress lib enc args raw cache0) (length raw)
          (body-Progress lib enc args raw cache0 same_size) (length raw) 0 cache0 s (omega arith)
          (start-Progress lib enc args raw cache0) e0) in
    (
      p.slots,
      rw (← bytes, same),
      skipped lib enc args raw cache0 cache p,
      packed lib enc args raw cache0 cache p,
    )
