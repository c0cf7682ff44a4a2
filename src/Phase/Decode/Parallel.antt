-- ===== src/Phase/Decode/Parallel.antt =====
-- Decoding by the worker threads of redcli/main.cpp, in any interleaving.
use encoder_rle4k_cpu.Base.{
  ℕ, ◌+◌, ◌^◌, ◌<◌, ◌≡◌, ◌≢◌, refl, Bool, true, List, Option, none, some, arith, length, run_from,
  if◌then◌else◌,
}
use encoder_rle4k_cpu.Base.Int.{ℤ}
use encoder_rle4k_cpu.Bitmap.{Bitmap, contents}
use encoder_rle4k_cpu.Libraries.{Libraries, Verdict}
use encoder_rle4k_cpu.Digest.{Digest}
use encoder_rle4k_cpu.WorkerPool.{Pool, spawn, Steps, alive}
use encoder_rle4k_cpu.WorkerPool.Held.{Commutes}
use encoder_rle4k_cpu.WorkerPool.Refine.{joined-run_from}
use encoder_rle4k_cpu.Phase.Slots.{set_comm, slot_body-Commutes}
use encoder_rle4k_cpu.Phase.Decode.{
  Decoded, decode_row, decode_write, decode_body, decode_start, verify_body, decode_window,
}

decode_write_swap :
    (check : Bool) (i j : ℕ) (a b : Option Verdict) (s : Decoded)
    → i ≢ j
    → decode_write check j b (decode_write check i a s)
      ≡ decode_write check i a (decode_write check j b s)
decode_write_swap check i j none none s ne = refl
decode_write_swap check i j none (some b) s ne = refl
decode_write_swap check i j (some a) none s ne = refl
decode_write_swap check i j (some a) (some b) s ne = ground (
  arith,
  set_comm s.check_bufs i j (contents a.buffer) (contents b.buffer),
  set_comm s.decoded_ok i j true true,
)

module _ (lib : Libraries) (fmt : ℤ) (check : Bool) (digests : List Digest)
    (enc_cache : List (Option Bitmap)) where
  decode_body-Commutes : Commutes (decode_body lib fmt digests enc_cache check)
  unfolding decode_body
  decode_body-Commutes =
      slot_body-Commutes (decode_row lib fmt digests enc_cache) (decode_write check)
        (decode_write_swap check)

-- When the workers of a window have all left their loops, in any interleaving of any number `n` (at
-- least one, and the counter must not overflow) of them, the check that runs after the join on what they share gives the answer of `decode_window`.
pub joined-decode_window :
    (lib : Libraries) (fmt : ℤ) (check : Bool) (digests : List Digest)
    (enc_cache : List (Option Bitmap)) (n : ℕ) {k : ℕ} {q : Pool Decoded}
    → length digests + n < 2 ^ 31
    → 0 < n
    → Steps
        (decode_body lib fmt digests enc_cache check)
        (spawn (length digests) n (decode_start check (length digests)))
        k
        q
    → alive q.workers ≡ 0
    → decode_window lib fmt digests enc_cache check ≡ (
        if check
        then run_from (verify_body fmt digests q.shared) (length digests) 0 q.shared.ok
        else some q.shared.ok)
unfolding decode_window
joined-decode_window lib fmt check digests enc_cache n {q = q} small some_worker r joined = rw (
    joined-run_from (decode_body lib fmt digests enc_cache check) (length digests) n _
      (decode_body-Commutes lib fmt check digests enc_cache) small some_worker r joined)
