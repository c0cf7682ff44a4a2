-- ===== src/Tests/Toy.antt =====
-- Concrete libraries for the tests of redcli: every codec copies, and a decoder overwrites the front of
-- its output. They do what `Documented` and `Recovers` ask.
use encoder_rle4k_cpu.Base.{
  ℕ, zero, suc, ◌+◌, ◌*◌, ◌≤◌, ◌≡◌, refl, ap, true, false, List, [], ◌∷◌, none, some, arith, length,
  take, replicate, length-replicate, if◌then◌else◌,
}
use encoder_rle4k_cpu.Base.Int.{pos, negsuc, ltb_ℤ}
use encoder_rle4k_cpu.Bitmap.{Bytes, Bitmap, contents, EncodeFormatArgs, get_buffer_size}
use encoder_rle4k_cpu.Libraries.{Libraries}
use encoder_rle4k_cpu.Libraries.Laws.{Documented, Recovers}
use encoder_rle4k_cpu.Decode.{rle4k_decode_payload, decode_as}
use encoder_rle4k_cpu.Encoder.{gzip, snappy}
use encoder_rle4k_cpu.Encoder.Levels.{RefusesLevels}
use encoder_rle4k_cpu.Phase.Decode.{attempt, need}
use encoder_rle4k_cpu.Phase.Decode.Rounds.{KeepsBuffer}

-- The first `n` bytes of `src` over those of `dst`.
unfoldable pub overwrite : ℕ → List ℕ → List ℕ → List ℕ
overwrite zero src dst = dst
overwrite (suc n) [] dst = dst
overwrite (suc n) (s ∷ src) [] = []
overwrite (suc n) (s ∷ src) (d ∷ dst) = s ∷ overwrite n src dst

length-overwrite : (n : ℕ) (src dst : List ℕ) → length (overwrite n src dst) ≡ length dst
unfolding overwrite
length-overwrite zero src dst = refl
length-overwrite (suc n) [] dst = refl
length-overwrite (suc n) (s ∷ src) [] = refl
length-overwrite (suc n) (s ∷ src) (d ∷ dst) = ap suc (length-overwrite n src dst)

abbrev pub copied : Bytes → ℕ → Bytes → Bytes
copied out n src = some (overwrite n (contents src) (contents out))

abbrev pub toy : Libraries
toy = record {
  new_bitmap = λ format width align height. record {
    width = width;
    height = height;
    data_length = 0;
    bytes = some (0 ∷ 0 ∷ 0 ∷ 0 ∷ []);
    source_length = 0;
    format = format;
    stride_bytes = 1;
    data_buffer_size = 4;
    compression_ratio = 0;
    raster_elapsed_us = 0;
    encode_elapsed_us = 0;
  };
  resize = λ b. record b { bytes = some (replicate (get_buffer_size b) 0) };
  shrink_to_fit = λ b. b;
  rle4k_encode_block = λ block height width encoded stride cap. record {
    code = pos (height * stride);
    buffer = block;
  };
  rle4k_decode_block = λ encoded len block width height stride. record {
    code = pos 0;
    buffer = copied block len encoded;
  };
  wide_ulong = false;
  compress2 = λ dest cap source len level. record { code = pos 0; length = 2; buffer = source };
  uncompress =
      λ dest cap source len. record { code = pos 0; length = len; buffer = copied dest len source };
  lzo1x_1_compress = λ src len dst cap. record { code = pos 0; length = 2; buffer = src };
  lzo1x_999_compress_level = λ src len dst cap level. record {
    code = if ltb_ℤ (pos 9) level then negsuc 0 else pos 0;
    length = 2;
    buffer = src;
  };
  lzo1x_decompress =
      λ src len dst cap. record { code = pos 0; length = len; buffer = copied dst len src };
  max_compressed_length = λ n. n + 2;
  raw_compress = λ input len compressed. record { code = pos 0; length = 2; buffer = input };
  raw_uncompress = λ compressed len out. record { done = true; buffer = copied out len compressed };
  zstd_compress = λ dst cap src len level. record { code = pos 0; length = 2; buffer = src };
  zstd_decompress =
      λ dst cap src len. record { code = pos 0; length = len; buffer = copied dst len src };
  zstd_is_error = λ n. false;
  zstd_get_error_code = λ n. pos 0;
  brotli_encoder_compress =
      λ quality window len input cap encoded. record { code = pos 1; length = 2; buffer = input };
  compression_ratio = λ target source. 0;
}

-- Two rows of one byte.
abbrev pub block : Bitmap
block = record {
  width = 8;
  height = 2;
  data_length = 2;
  bytes = some (7 ∷ 9 ∷ []);
  source_length = 2;
  format = pos 1;
  stride_bytes = 1;
  data_buffer_size = 2;
  compression_ratio = 0;
  raster_elapsed_us = 0;
  encode_elapsed_us = 0;
}

abbrev pub levels : EncodeFormatArgs
levels = record {
  gzip_level = pos 6;
  zstd_level = pos 3;
  lzo2_level = pos 1;
  snappy_level = pos 0;
  brotli_level = pos 5;
  brotli_window = pos 22;
}

pub toy-Documented : Documented toy
unfolding get_buffer_size
toy-Documented = record {
  new_format = λ format width align height. refl;
  new_room = λ format width align height. omega arith;
  resize_room = λ b. omega (arith, length-replicate {A = ℕ} (get_buffer_size b) 0);
  shrink_length = λ b. refl;
  shrink_front = λ b. refl;
  compress2_codes = λ dest cap source len level. omega arith;
  lzo1x_1_codes = λ src len dst cap. omega arith;
  lzo1x_999_codes = λ src len dst cap level. ground arith;
  zstd_codes = λ n. omega arith;
}

front_of_two :
    (src dst : List ℕ)
    → take 2 src ≡ 7 ∷ 9 ∷ []
    → 2 ≤ length dst
    → take 2 (overwrite 2 src dst) ≡ 7 ∷ 9 ∷ []
unfolding overwrite
front_of_two [] dst e le = cc
front_of_two (a ∷ []) dst e le = cc
front_of_two (a ∷ b ∷ src) [] e le = absurd (omega arith)
front_of_two (a ∷ b ∷ src) (c ∷ []) e le = absurd (omega arith)
front_of_two (a ∷ b ∷ src) (c ∷ d ∷ dst) e le = e

pub toy-Recovers : Recovers toy block gzip
toy-Recovers = (
  omega arith,
  tt,
  λ dst cap level there done. (
    omega arith,
    λ enc out room front fits there.
        (refl, front_of_two (contents enc) (contents out) front (omega arith)),
  ),
)

-- With the copying Snappy as well, whose target has the four bytes that it wants.
pub snappy-Recovers : Recovers toy block snappy
unfolding get_buffer_size
snappy-Recovers = (
  omega arith,
  omega arith,
  λ dst there. (
    omega arith,
    λ enc out room front fits there.
        (refl, front_of_two (contents enc) (contents out) front (omega arith)),
  ),
)

pub toy-RefusesLevels : RefusesLevels toy
toy-RefusesLevels src len dst cap level high = ground (arith, high)

pub toy-KeepsBuffer : KeepsBuffer toy (pos 0x7)
unfolding attempt need rle4k_decode_payload decode_as
toy-KeepsBuffer dig none = length-replicate (dig.nbytes + 4096) 0
toy-KeepsBuffer dig (some e) =
    let zeros : List ℕ = replicate (dig.nbytes + 4096) 0 in
    let size : length zeros ≡ dig.nbytes + 4096 = length-replicate (dig.nbytes + 4096) 0 in
    let kept = length-overwrite e.data_length (contents e.bytes) zeros in ground (arith, size, kept)
