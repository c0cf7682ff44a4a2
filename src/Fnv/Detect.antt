-- ===== src/Fnv/Detect.antt =====
-- What the digest of `rle4k_fnv1a64` (redcli/main.cpp) tells of the bytes.
use encoder_rle4k_cpu.Base.{
  ℕ, zero, suc, ◌+◌, ◌^◌, ◌≤◌, ◌<◌, ◌≡◌, ◌≢◌, refl, List, [], ◌∷◌, ◌++◌, some, arith, length, take,
}
use encoder_rle4k_cpu.Fnv.{fnv_step, fnv_loop, rle4k_fnv1a64, fnv_offset_basis}
use encoder_rle4k_cpu.Fnv.Step.{IsByte, fnv_step-lt, fnv_step_hash, fnv_step_byte}

abbrev pub AllBytes : List ℕ → Type 0
AllBytes [] = Unit {0}
AllBytes (b ∷ bs) = IsByte b × AllBytes bs

-- The loop reads the first `n` bytes and no other.
fnv_loop-take :
    (h : ℕ) (bs : List ℕ) (n : ℕ) → n ≤ length bs → fnv_loop h bs n ≡ fnv_loop h (take n bs) n
unfolding fnv_loop
fnv_loop-take h bs zero p = refl
fnv_loop-take h [] (suc n) p = absurd (omega arith)
fnv_loop-take h (b ∷ bs) (suc n) p = fnv_loop-take (fnv_step h b) bs n (omega arith)

fnv_loop-some : (h : ℕ) (bs : List ℕ) (n : ℕ) → n ≤ length bs → (g : ℕ) × (fnv_loop h bs n ≡ some g)
unfolding fnv_loop
fnv_loop-some h bs zero p = (h, refl)
fnv_loop-some h [] (suc n) p = absurd (omega arith)
fnv_loop-some h (b ∷ bs) (suc n) p = fnv_loop-some (fnv_step h b) bs n (omega arith)

-- Different hashes stay different over the same bytes.
fnv_loop_hash :
    (h g : ℕ) (bs : List ℕ) (n : ℕ)
    → h < 2 ^ 64
    → g < 2 ^ 64
    → AllBytes bs
    → n ≤ length bs
    → fnv_loop h bs n ≡ fnv_loop g bs n
    → h ≡ g
unfolding fnv_loop
fnv_loop_hash h g bs zero ph pg all p e = cc
fnv_loop_hash h g [] (suc n) ph pg all p e = absurd (omega arith)
fnv_loop_hash h g (b ∷ bs) (suc n) ph pg all p e = fnv_step_hash h g b ph pg all.0 (
    fnv_loop_hash (fnv_step h b) (fnv_step g b) bs n (fnv_step-lt h b) (fnv_step-lt g b) all.1
      (omega arith) e)

fnv_loop_byte :
    (h b c : ℕ) (front back : List ℕ) (n : ℕ)
    → h < 2 ^ 64
    → IsByte b
    → IsByte c
    → AllBytes back
    → length front < n
    → n ≤ length front + suc (length back)
    → fnv_loop h (front ++ b ∷ back) n ≡ fnv_loop h (front ++ c ∷ back) n
    → b ≡ c
unfolding fnv_loop
fnv_loop_byte h b c front back zero ph pb pc all lt le e = absurd (omega arith)
fnv_loop_byte h b c [] back (suc n) ph pb pc all lt le e = fnv_step_byte h b c ph pb pc (
    fnv_loop_hash (fnv_step h b) (fnv_step h c) back n (fnv_step-lt h b) (fnv_step-lt h c) all
      (omega arith) e)
fnv_loop_byte h b c (a ∷ front) back (suc n) ph pb pc all lt le e =
    fnv_loop_byte (fnv_step h a) b c front back n (fnv_step-lt h a) pb pc all (omega arith)
      (omega arith) e

-- Two buffers that differ in exactly one byte among the first `n` have different hashes over `n`. The
-- values from the difference on are bytes.
pub rle4k_fnv1a64_detects :
    (front back : List ℕ) (b c n : ℕ)
    → IsByte b
    → IsByte c
    → AllBytes back
    → length front < n
    → n ≤ length front + suc (length back)
    → b ≢ c
    → rle4k_fnv1a64 (front ++ b ∷ back) n ≢ rle4k_fnv1a64 (front ++ c ∷ back) n
unfolding rle4k_fnv1a64
rle4k_fnv1a64_detects front back b c n pb pc all lt le differ e =
    differ (fnv_loop_byte fnv_offset_basis b c front back n (omega arith) pb pc all lt le e)

pub rle4k_fnv1a64-take :
    (bs : List ℕ) (n : ℕ) → n ≤ length bs → rle4k_fnv1a64 bs n ≡ rle4k_fnv1a64 (take n bs) n
unfolding rle4k_fnv1a64
rle4k_fnv1a64-take bs n p = fnv_loop-take fnv_offset_basis bs n p

pub rle4k_fnv1a64-some :
    (bs : List ℕ) (n : ℕ) → n ≤ length bs → (g : ℕ) × (rle4k_fnv1a64 bs n ≡ some g)
unfolding rle4k_fnv1a64
rle4k_fnv1a64-some bs n p = fnv_loop-some fnv_offset_basis bs n p

fnv_loop-bound : (h : ℕ) (bs : List ℕ) (n : ℕ) {g : ℕ} → fnv_loop h bs n ≡ some g → n ≤ length bs
unfolding fnv_loop
fnv_loop-bound h bs zero e = omega arith
fnv_loop-bound h [] (suc n) e = cc
fnv_loop-bound h (b ∷ bs) (suc n) e = omega (arith, fnv_loop-bound (fnv_step h b) bs n e)

-- A hash is returned only of bytes that are there.
pub rle4k_fnv1a64-bound :
    (bs : List ℕ) (n : ℕ) {g : ℕ} → rle4k_fnv1a64 bs n ≡ some g → n ≤ length bs
unfolding rle4k_fnv1a64
rle4k_fnv1a64-bound bs n e = fnv_loop-bound fnv_offset_basis bs n e
