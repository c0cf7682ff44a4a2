-- ===== src/Digest.antt =====
-- What redcli/main.cpp keeps of a raw block once its bitmap is dropped (`rle4k_block_digest`).
use encoder_rle4k_cpu.Base.{ℕ, Bool, true, false, ◌||◌, Option, some, ◌==◌, ◌>>=◌, if◌then◌else◌}
use encoder_rle4k_cpu.Bitmap.{Bitmap, is_null, contents}
use encoder_rle4k_cpu.Fnv.{rle4k_fnv1a64}

pub record Digest : Type 0 where
  pub hash : ℕ
  pub width : ℕ
  pub height : ℕ
  pub stride : ℕ
  pub nbytes : ℕ
  pub valid : Bool

abbrev pub blank_digest : Digest
blank_digest = record { hash = 0; width = 0; height = 0; stride = 0; nbytes = 0; valid = false }

-- The digest before its hash is set.
abbrev pub unhashed : Bitmap → Digest
unhashed src = record {
  hash = 0;
  width = src.width;
  height = src.height;
  stride = src.stride_bytes;
  nbytes = src.data_length;
  valid = true;
}

-- `none` is a read past the end of the bitmap's buffer.
unfoldable pub rle4k_make_digest : Bitmap → Bool → Option Digest
rle4k_make_digest src do_hash =
    if is_null src.bytes || src.width == 0 || src.height == 0
    then some blank_digest
    else if do_hash
    then (do
      h ← rle4k_fnv1a64 (contents src.bytes) src.data_length
      some (record (unhashed src) { hash = h }))
    else some (unhashed src)
