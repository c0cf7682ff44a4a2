-- ===== src/Libraries/Laws.antt =====
-- What the theorems of redcli's encoders assume of libraster and of the codecs where they say so: that
-- they do what their documentation says. Each law is a hypothesis of the theorems that need it.
use encoder_rle4k_cpu.Base.{ℕ, ◌+◌, ◌/◌, ◌^◌, ◌≤◌, ◌<◌, ◌≡◌, true, false, take, length}
use encoder_rle4k_cpu.Base.Int.{ℤ, pos, ◌≤ℤ◌, ltb_ℤ, pos_part}
use encoder_rle4k_cpu.Bitmap.{Bytes, Bitmap, contents, get_buffer_size}
use encoder_rle4k_cpu.Libraries.{Libraries, Written, Answer, Verdict}
use encoder_rle4k_cpu.Decode.{done_at_zero, done_unless_negative, done_unless_error}
use encoder_rle4k_cpu.Encoder.{
  Encoder, get_supported_format, rle4k, gzip, lzo2, snappy, zstd, brotli,
}

-- Two buffers begin with the same `n` bytes.
abbrev pub SameFront : ℕ → Bytes → Bytes → Type 0
SameFront n x y = take n (contents x) ≡ take n (contents y)

-- libraster: a new bitmap has the format of its settings; its buffer, and that of a resized one, has the
-- size that it reports; `shrink_to_fit` keeps the data.
-- The codecs: an error code lies within a thousand.
pub record Documented (lib : Libraries) : Type 0 where
  pub new_format :
      (format : ℤ) (width align height : ℕ)
      → (lib.new_bitmap format width align height).format ≡ format
  pub new_room :
      (format : ℤ) (width align height : ℕ)
      → let b = lib.new_bitmap format width align height in
        get_buffer_size b ≤ length (contents b.bytes)
  pub resize_room :
      (b : Bitmap) → get_buffer_size (lib.resize b) ≤ length (contents (lib.resize b).bytes)
  pub shrink_length : (b : Bitmap) → (lib.shrink_to_fit b).data_length ≡ b.data_length
  pub shrink_front : (b : Bitmap) → SameFront b.data_length (lib.shrink_to_fit b).bytes b.bytes
  pub compress2_codes :
      (dest : Bytes) (dest_len : ℕ) (source : Bytes) (source_len : ℕ) (level : ℤ)
      → (lib.compress2 dest dest_len source source_len level).code ≤ℤ pos 999
  pub lzo1x_1_codes :
      (src : Bytes) (src_len : ℕ) (dst : Bytes) (dst_len : ℕ)
      → (lib.lzo1x_1_compress src src_len dst dst_len).code ≤ℤ pos 999
  pub lzo1x_999_codes :
      (src : Bytes) (src_len : ℕ) (dst : Bytes) (dst_len : ℕ) (level : ℤ)
      → (lib.lzo1x_999_compress_level src src_len dst dst_len level).code ≤ℤ pos 999
  pub zstd_codes : (length : ℕ) → lib.zstd_get_error_code length ≤ℤ pos 999

-- What a codec wrote of `b` is short of 4 GB, and any buffer that begins with it unpacks to the bytes
-- of `b`, where `room` covers them and is there.
abbrev pub Unpacks : Bitmap → Written → (Bytes → ℕ → Bytes → ℕ → Verdict) → Type 0
Unpacks b w unpack =
    (w.length < 2 ^ 32)
    × ((enc out : Bytes) (room : ℕ)
        → SameFront w.length enc w.buffer
        → b.data_length ≤ room
        → room ≤ length (contents out)
        → ((unpack enc w.length out room).done ≡ true)
          × SameFront b.data_length (unpack enc w.length out room).buffer b.bytes)

-- LZO's documented worst case for `n` bytes.
abbrev pub lzo_worst : ℕ → ℕ
lzo_worst n = n + n / 16 + 67

abbrev pub as_written : Answer → Written
as_written a = record { code = a.code; length = pos_part a.code; buffer = a.buffer }

module _ (lib : Libraries) (b : Bitmap) where
  -- How a payload of each encoder is decoded into `out`, for a block with the measures of `b`.
  abbrev pub unpack : Encoder → Bytes → ℕ → Bytes → ℕ → Verdict
  unpack rle4k enc len out room =
      done_unless_negative (lib.rle4k_decode_block enc len out b.width b.height b.stride_bytes)
  unpack gzip enc len out room = done_at_zero (lib.uncompress out room enc len)
  unpack lzo2 enc len out room = done_at_zero (lib.lzo1x_decompress enc len out room)
  unpack snappy enc len out room = lib.raw_uncompress enc len out
  unpack zstd enc len out room = done_unless_error lib (lib.zstd_decompress out room enc len)
  unpack brotli enc len out room = record { done = true; buffer = out }

  -- The codec of each encoder gives back the bytes of `b`, from a buffer that is as long as it is said
  -- to be and, for LZO and Snappy, which do not look, as long as their worst case. Brotli's are never
  -- unpacked.
  abbrev pub Codec : Encoder → Type 0
  Codec rle4k =
      (dst : Bytes) (cap : ℕ)
      → cap ≤ length (contents dst)
      → let a = lib.rle4k_encode_block b.bytes b.height b.width dst b.stride_bytes cap in
        ltb_ℤ a.code (pos 0) ≡ false → Unpacks b (as_written a) (unpack rle4k)
  Codec gzip =
      (dst : Bytes) (cap : ℕ) (level : ℤ)
      → cap ≤ length (contents dst)
      → let w = lib.compress2 dst cap b.bytes b.data_length level in
        w.code ≡ pos 0 → Unpacks b w (unpack gzip)
  Codec lzo2 =
      ((dst : Bytes) (cap : ℕ)
        → lzo_worst b.data_length ≤ length (contents dst)
        → let w = lib.lzo1x_1_compress b.bytes b.data_length dst cap in
          w.code ≡ pos 0 → Unpacks b w (unpack lzo2))
      × ((dst : Bytes) (cap : ℕ) (level : ℤ)
          → lzo_worst b.data_length ≤ length (contents dst)
          → let w = lib.lzo1x_999_compress_level b.bytes b.data_length dst cap level in
            w.code ≡ pos 0 → Unpacks b w (unpack lzo2))
  Codec snappy =
      (dst : Bytes)
      → lib.max_compressed_length b.data_length ≤ length (contents dst)
      → Unpacks b (lib.raw_compress b.bytes b.data_length dst) (unpack snappy)
  Codec zstd =
      (dst : Bytes) (cap : ℕ) (level : ℤ)
      → cap ≤ length (contents dst)
      → let w = lib.zstd_compress dst cap b.bytes b.data_length level in
        lib.zstd_is_error w.length ≡ false → Unpacks b w (unpack zstd)
  Codec brotli = Unit

  -- A target has room for the worst case of LZO and of Snappy; the others report that it has not.
  abbrev pub Ample : Encoder → Bitmap → Type 0
  Ample lzo2 target = lzo_worst b.data_length ≤ get_buffer_size target
  Ample snappy target = lib.max_compressed_length b.data_length ≤ get_buffer_size target
  Ample rle4k target = Unit {0}
  Ample gzip target = Unit {0}
  Ample zstd target = Unit {0}
  Ample brotli target = Unit {0}

  -- `b` and the 4096 bytes more that it is decoded into are short of 4 GB, the bitmap that libraster
  -- makes for a payload of `b` is ample, and the codec gives back the bytes of `b`.
  abbrev pub Recovers : Encoder → Type 0
  Recovers enc =
      (b.data_length + 4096 < 2 ^ 32)
      × Ample enc (lib.new_bitmap (get_supported_format enc) b.width 3 b.height)
      × Codec enc
