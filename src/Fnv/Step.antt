-- ===== src/Fnv/Step.antt =====
-- One round of `rle4k_fnv1a64` (redcli/main.cpp), with the byte or the old hash known.
use Prim.Native.Nat.{bit_xor}
use encoder_rle4k_cpu.Base.{ℕ, ◌*◌, ◌%◌, ◌^◌, ◌<◌, ◌≡◌, ◌∙◌, sym, ap, arith}
use encoder_rle4k_cpu.Fnv.{fnv_step, fnv_prime}
use encoder_rle4k_cpu.Fnv.Xor.{bit_xor-lt, bit_xor_undo, bit_xor_comm}

-- The prime is odd, so a product by it modulo 2 ^ 64 can be undone.
times_prime_injective :
    (x y : ℕ) → x < 2 ^ 64 → y < 2 ^ 64 → x * fnv_prime % 2 ^ 64 ≡ y * fnv_prime % 2 ^ 64 → x ≡ y
times_prime_injective x y p q e = omega arith

abbrev pub IsByte : ℕ → Type 0
IsByte b = b < 256

pub fnv_step-lt : (h b : ℕ) → fnv_step h b < 2 ^ 64
unfolding fnv_step
fnv_step-lt h b = omega arith

fnv_step_xor :
    (h g b c : ℕ)
    → h < 2 ^ 64
    → g < 2 ^ 64
    → IsByte b
    → IsByte c
    → fnv_step h b ≡ fnv_step g c
    → bit_xor h b ≡ bit_xor g c
unfolding fnv_step
fnv_step_xor h g b c ph pg pb pc e =
    times_prime_injective (bit_xor h b) (bit_xor g c) (bit_xor-lt 64 h b ph (omega arith))
      (bit_xor-lt 64 g c pg (omega arith)) e

pub fnv_step_hash :
    (h g b : ℕ) → h < 2 ^ 64 → g < 2 ^ 64 → IsByte b → fnv_step h b ≡ fnv_step g b → h ≡ g
fnv_step_hash h g b ph pg pb e =
    sym (bit_xor_undo 64 h b ph (omega arith))
    ∙ ap (λ x. bit_xor x b) (fnv_step_xor h g b b ph pg pb pb e)
    ∙ bit_xor_undo 64 g b pg (omega arith)

pub fnv_step_byte :
    (h b c : ℕ) → h < 2 ^ 64 → IsByte b → IsByte c → fnv_step h b ≡ fnv_step h c → b ≡ c
fnv_step_byte h b c ph pb pc e =
    sym (undo b pb) ∙ ap (λ x. bit_xor x h) (fnv_step_xor h h b c ph ph pb pc e) ∙ undo c pc
  where
    undo : (a : ℕ) → IsByte a → bit_xor (bit_xor h a) h ≡ a
    undo a pa =
        ap (λ x. bit_xor x h) (bit_xor_comm 64 h a ph (omega arith))
        ∙ bit_xor_undo 64 a h (omega arith) ph
