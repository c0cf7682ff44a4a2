-- ===== src/Bitmap.antt =====
-- The bitmap that the parts of redcli hand one another (deps/libraster/1.0.0/include/bitmap_info.h,
-- the inline functions only) and the codec parameters (redcli/rle4k_bitmap.h).
use encoder_rle4k_cpu.Base.{
  ℕ, ◌*◌, ◌%◌, ◌^◌, ◌≡◌, refl, Bool, true, false, ◌||◌, List, [], Option, none, some, ltb, ◌==◌,
  if◌then◌else◌,
}
use encoder_rle4k_cpu.Base.Int.{ℤ, negsuc, signed32}

-- A `char*`: the bytes of its buffer, or null.
abbrev pub Bytes : Type 0
Bytes = Option (List ℕ)

abbrev pub contents : Bytes → List ℕ
contents none = []
contents (some bs) = bs

-- `extends` is never null: each constructor of the library sets it, and its fields are read without a
-- test. They stand among the others here.
pub record Bitmap : Type 0 where
  pub width : ℕ
  pub height : ℕ
  pub data_length : ℕ
  pub bytes : Bytes
  pub source_length : ℕ
  pub format : ℤ
  pub stride_bytes : ℕ
  pub data_buffer_size : ℕ
  pub compression_ratio : ℕ
  pub raster_elapsed_us : ℕ
  pub encode_elapsed_us : ℕ

unfoldable pub get_buffer_size : Bitmap → ℕ
get_buffer_size b =
    if ltb 0 b.data_buffer_size
    then b.data_buffer_size
    else if ltb b.data_length b.source_length
    then b.source_length
    else b.data_length

pub record EncodeFormatArgs : Type 0 where
  pub gzip_level : ℤ
  pub zstd_level : ℤ
  pub lzo2_level : ℤ
  pub snappy_level : ℤ
  pub brotli_level : ℤ
  pub brotli_window : ℤ

-- A `raster_exception` carries its error code.
pub data Result {ℓ} (A : Type ℓ) : Type ℓ where
  ok : A → Result A
  throw : (error_code : ℤ) → Result A

infixl 5 ◌>>=◌ ◌>>◌
abbrev pub ◌>>=◌ {ℓ κ} : {A : Type ℓ} {B : Type κ} → Result A → (A → Result B) → Result B
ok a >>= f = f a
throw e >>= f = throw e

abbrev pub ◌>>◌ {ℓ} : {B : Type ℓ} → Result (Unit {0}) → Result B → Result B
m >> k = m >>= λ _. k

pub then-eq-ok {ℓ} :
    {B : Type ℓ} (m : Result (Unit {0})) (k : Result B) {b : B}
    → (m >> k) ≡ ok b
    → (m ≡ ok tt) × (k ≡ ok b)
then-eq-ok (ok tt) k h = (refl, h)
then-eq-ok (throw e) k h = cc

-- RASTER_ERROR_BASE is -1.
abbrev pub invalid_bitmap_source : ℤ
invalid_bitmap_source = negsuc 12

abbrev pub invalid_bitmap_zerosize : ℤ
invalid_bitmap_zerosize = negsuc 7

abbrev pub invalid_bitmap_oversize : ℤ
invalid_bitmap_oversize = negsuc 8

abbrev pub max_bitmap_width : ℕ
max_bitmap_width = 1024 * 1024

abbrev pub max_bitmap_height : ℕ
max_bitmap_height = 1024 * 1024

abbrev pub is_null : Bytes → Bool
is_null none = true
is_null (some _) = false

unfoldable pub validate_bitmap : Option Bitmap → Result (Unit {0})
validate_bitmap none = throw invalid_bitmap_source
validate_bitmap (some b) =
    if is_null b.bytes || b.data_length == 0 || b.source_length == 0
    then throw invalid_bitmap_source
    else if b.width == 0 || b.height == 0
    then throw invalid_bitmap_zerosize
    else if ltb max_bitmap_width b.width || ltb max_bitmap_height b.height
    then throw invalid_bitmap_oversize
    else ok tt

-- Casts: `(uint32_t)n` and `(int)n`.
abbrev pub to_u32 : ℕ → ℕ
to_u32 n = n % 2 ^ 32

unfoldable pub to_int : ℕ → ℤ
unfolding signed32
to_int n = signed32 (n % 2 ^ 32)
