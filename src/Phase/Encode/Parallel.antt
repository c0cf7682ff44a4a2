-- ===== src/Phase/Encode/Parallel.antt =====
-- Encoding by the worker threads of redcli/main.cpp, in any interleaving.
use encoder_rle4k_cpu.Base.{ℕ, ◌+◌, ◌^◌, ◌<◌, ◌≡◌, refl, List, Option, none, some, length}
use encoder_rle4k_cpu.Bitmap.{Bitmap, EncodeFormatArgs}
use encoder_rle4k_cpu.Libraries.{Libraries}
use encoder_rle4k_cpu.Encoder.{Encoder}
use encoder_rle4k_cpu.WorkerPool.{Pool, spawn, Steps, alive}
use encoder_rle4k_cpu.WorkerPool.Held.{Commutes}
use encoder_rle4k_cpu.WorkerPool.Refine.{joined-run_from}
use encoder_rle4k_cpu.Phase.Slots.{set_comm, slot_body-Commutes}
use encoder_rle4k_cpu.Phase.Raster.{total_bytes}
use encoder_rle4k_cpu.Phase.Encode.{encode_row, encode_write, encode_body, encode_window}
use encoder_rle4k_cpu.Base.{◌≢◌}

encode_write_swap :
    (i j : ℕ) (a b : Option Bitmap) (s : List (Option Bitmap))
    → i ≢ j
    → encode_write j b (encode_write i a s) ≡ encode_write i a (encode_write j b s)
encode_write_swap i j none none s ne = refl
encode_write_swap i j none (some b) s ne = refl
encode_write_swap i j (some a) none s ne = refl
encode_write_swap i j (some a) (some b) s ne = set_comm s i j (some a) (some b) ne

module _ (lib : Libraries) (enc : Encoder) (args : EncodeFormatArgs)
    (raw : List (Option Bitmap)) where
  encode_body-Commutes : Commutes (encode_body lib enc args raw)
  unfolding encode_body
  encode_body-Commutes =
      slot_body-Commutes (encode_row lib enc args raw) encode_write encode_write_swap

-- When the workers of a window have all left their loops, in any interleaving of any number `n` (at
-- least one, and the counter must not overflow) of them, the cache that they share is what `encode_window` returns, with the bytes of its blocks. So no
-- block failed to encode.
pub joined-encode_window :
    (lib : Libraries) (enc : Encoder) (args : EncodeFormatArgs) (raw cache : List (Option Bitmap))
    (n : ℕ) {k : ℕ} {q : Pool (List (Option Bitmap))}
    → length raw + n < 2 ^ 31
    → 0 < n
    → Steps (encode_body lib enc args raw) (spawn (length raw) n cache) k q
    → alive q.workers ≡ 0
    → encode_window lib enc args raw cache ≡ some (q.shared, total_bytes q.shared)
unfolding encode_window
joined-encode_window lib enc args raw cache n {q = q} small some_worker r joined = rw (
    joined-run_from (encode_body lib enc args raw) (length raw) n cache
      (encode_body-Commutes lib enc args raw) small some_worker r joined)
