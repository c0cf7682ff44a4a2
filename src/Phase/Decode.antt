-- ===== src/Phase/Decode.antt =====
-- Phase 3 (`rle4k_phase_decode_window` of redcli/main.cpp): decode a window and, with the check on,
-- compare the hash of each decoded block with the digest of its raw block.
pub mod Parallel
pub mod Rows
pub mod Rounds
pub mod Verify
use encoder_rle4k_cpu.Base.{
  ℕ, ◌+◌, Bool, true, false, not, ◌||◌, ◌&&◌, List, [], Option, none, some, get_elem?, set,
  replicate, length, ◌==◌, ◌>>=◌, run_from, if◌then◌else◌,
}
use encoder_rle4k_cpu.Base.Int.{ℤ, eq_ℤ}
use encoder_rle4k_cpu.Bitmap.{Bitmap, contents}
use encoder_rle4k_cpu.Libraries.{Libraries, Verdict}
use encoder_rle4k_cpu.Format.{raster_output_format_brotli}
use encoder_rle4k_cpu.Fnv.{rle4k_fnv1a64}
use encoder_rle4k_cpu.Digest.{Digest}
use encoder_rle4k_cpu.Phase.Slots.{slot_body}
use encoder_rle4k_cpu.Decode.{rle4k_decode_payload}

-- What the workers share; the two vectors are empty unless the check is on.
pub record Decoded : Type 0 where
  pub check_bufs : List (List ℕ)
  pub decoded_ok : List Bool
  pub ok : Bool

abbrev pub is_missing : Option Bitmap → Bool
is_missing none = true
is_missing (some _) = false

-- `dig.nbytes + 4096` bytes of zeros are decoded into.
unfoldable pub need : Digest → ℕ
need dig = dig.nbytes + 4096

module _ (check : Bool) where
  -- After a decode: the buffer stays in its slot, and the row is marked or the run is not ok. Without
  -- the check the worker's own buffer is used, and nothing shared changes. A skipped row has no verdict.
  abbrev pub decode_write : ℕ → Option Verdict → Decoded → Decoded
  decode_write local none shared = shared
  decode_write local (some v) shared =
      if not check
      then shared
      else if v.done
      then record shared {
        check_bufs = set shared.check_bufs local (contents v.buffer);
        decoded_ok = set shared.decoded_ok local true;
      }
      else record shared {
        check_bufs = set shared.check_bufs local (contents v.buffer);
        ok = false;
      }

  unfoldable pub decode_start : ℕ → Decoded
  decode_start nwin = record {
    check_bufs = if check then replicate nwin [] else [];
    decoded_ok = if check then replicate nwin false else [];
    ok = true;
  }

-- `got != dig.hash`; `none` is a read past the end of a buffer.
unfoldable pub compare_hash : Decoded → Digest → ℕ → Bool → Option Bool
compare_hash shared dig i ok = do
  buf ← get_elem? shared.check_bufs i
  got ← rle4k_fnv1a64 buf dig.nbytes
  some (if got == dig.hash then ok else false)

module _ (fmt : ℤ) where
  -- One round of the check after the join.
  unfoldable pub verify_slot : Decoded → Digest → ℕ → Bool → Option Bool
  verify_slot shared dig i ok =
      if not dig.valid
      then some ok
      else if eq_ℤ fmt raster_output_format_brotli
      then some ok
      else (do
        marked ← get_elem? shared.decoded_ok i
        (if marked then compare_hash shared dig i ok else some false))

  unfoldable pub verify_body : List Digest → Decoded → ℕ → Bool → Option Bool
  verify_body digests shared i ok = do dig ← get_elem? digests i; verify_slot shared dig i ok

module _ (lib : Libraries) (fmt : ℤ) where
  unfoldable pub attempt : Digest → Option Bitmap → Verdict
  unfolding need
  attempt dig e =
      rle4k_decode_payload lib fmt e dig.width dig.height dig.stride (some (replicate (need dig) 0))
        (need dig)

  -- `if (!dig.valid || !e) continue;`
  unfoldable pub decode_block_of : Digest → Option Bitmap → Option Verdict
  decode_block_of dig e = if not dig.valid || is_missing e then none else some (attempt dig e)

  module _ (digests : List Digest) (enc_cache : List (Option Bitmap)) where
    unfoldable pub decode_row : ℕ → Option (Option Verdict)
    decode_row local = do
      dig ← get_elem? digests local
      e ← get_elem? enc_cache local
      some (decode_block_of dig e)

    unfoldable pub decode_body : Bool → ℕ → Decoded → Option Decoded
    decode_body check = slot_body decode_row (decode_write check)

    -- `all_ok`
    unfoldable pub decode_window : Bool → Option Bool
    decode_window check = do
      shared ← run_from (decode_body check) (length digests) 0 (decode_start check (length digests))
      if check
          then run_from (verify_body fmt digests shared) (length digests) 0 shared.ok
          else some shared.ok
