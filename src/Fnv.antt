-- ===== src/Fnv.antt =====
-- The 64-bit FNV-1a hash of redcli/main.cpp (`rle4k_fnv1a64`).
pub mod Xor
pub mod Step
pub mod Detect
use Prim.Native.Nat.{bit_xor}
use encoder_rle4k_cpu.Base.{ℕ, zero, suc, ◌*◌, ◌%◌, ◌^◌, List, [], ◌∷◌, Option, none, some}

abbrev pub fnv_offset_basis : ℕ
fnv_offset_basis = 14695981039346656037

abbrev pub fnv_prime : ℕ
fnv_prime = 1099511628211

-- `h ^= data[i]; h *= 1099511628211ull;`
unfoldable pub fnv_step : ℕ → ℕ → ℕ
fnv_step h b = bit_xor h b * fnv_prime % 2 ^ 64

-- The loop over the bytes that are left of `n`; `none` is a read past the end of the buffer.
unfoldable pub fnv_loop : ℕ → List ℕ → ℕ → Option ℕ
unfolding fnv_step
fnv_loop h bytes zero = some h
fnv_loop h [] (suc n) = none
fnv_loop h (b ∷ rest) (suc n) = fnv_loop (fnv_step h b) rest n

unfoldable pub rle4k_fnv1a64 : List ℕ → ℕ → Option ℕ
unfolding fnv_loop
rle4k_fnv1a64 bytes n = fnv_loop fnv_offset_basis bytes n
