-- ===== src/RowQueue/Order.antt =====
-- The order in which `pop` of redcli/rle4k_block_pipeline.h issues the rows.
use native.Mathlib.Nat.{zero-add}
use encoder_rle4k_cpu.Base.{
  ℕ, zero, suc, ◌+◌, ◌%◌, ◌^◌, ◌≤◌, ◌<◌, ◌≡◌, List, [], ◌∷◌, some, arith, ltb, get_elem?,
  if◌then◌else◌,
}
use encoder_rle4k_cpu.Base.Int.{ℤ, pos, negsuc, signed32_small}
use encoder_rle4k_cpu.RowQueue.{RowQueue, new_queue, pop}

-- The results of `n` calls in the order in which the atomic counter serves them.
pub pops : ℕ → RowQueue → List ℤ
pops zero q = []
pops (suc n) q = (pop q).0 ∷ pops n (pop q).1

pops_from :
    (n total k j : ℕ)
    → k + n ≤ 2 ^ 31
    → j < n
    → get_elem? (pops n (record { total = pos total; next = k })) j
      ≡ some (if ltb (k + j) total then pos (k + j) else negsuc 0)
unfolding pops pop
pops_from zero total k j h lt = absurd (omega arith)
pops_from (suc n) total k zero h lt = rw (signed32_small k (omega arith)) (ground arith)
pops_from (suc n) total k (suc j) h lt =
    let wrap : (k + 1) % 2 ^ 32 ≡ k + 1 = omega arith in
    let shift : k + suc j ≡ k + 1 + j = omega arith in
    rw (wrap, shift) (pops_from n total (k + 1) j (omega arith) (omega arith))

-- The `j`-th of up to 2 ^ 31 calls on a fresh queue of `total` rows returns row `j`, in order and
-- without a gap, and -1 from the `total`-th call on.
pub get_elem?-pops :
    (n total j : ℕ)
    → n ≤ 2 ^ 31
    → j < n
    → get_elem? (pops n (new_queue (pos total))) j ≡ some (if ltb j total then pos j else negsuc 0)
unfolding new_queue
get_elem?-pops n total j h lt = rw zero-add at (pops_from n total 0 j (omega arith) lt)
