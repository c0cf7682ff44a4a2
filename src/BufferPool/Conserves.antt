-- ===== src/BufferPool/Conserves.antt =====
-- The places of a buffer before and after a call of redcli/rle4k_buffer_mgr.cpp.
use encoder_rle4k_cpu.Base.{
  ℕ, ◌+◌, ◌≡◌, inl, inr, Bool, List, [], ◌∷◌, ◌++◌, Option, none, some, arith, ltb, leb, ◌==◌,
  Bool-cases, if◌then◌else◌,
}
use encoder_rle4k_cpu.BufferPool.{Buffer, Manager, new_from_system, pop_reusable, free, ids}

-- How often `i` stands in a list.
abbrev pub occurs : ℕ → List ℕ → ℕ
occurs i [] = 0
occurs i (j ∷ js) = (if i == j then 1 else 0) + occurs i js

abbrev pub found_ids : Option Buffer → List ℕ
found_ids none = []
found_ids (some b) = b.id ∷ []

-- The places of buffer `i` that the manager knows: its caches and the deleted ones.
abbrev pub kept : ℕ → Manager → ℕ
kept i m = occurs i (ids m.normal) + occurs i (ids m.big) + occurs i m.freed

-- 1 where buffer `i` exists.
abbrev pub exists : ℕ → Manager → ℕ
exists i m = if ltb i m.next then 1 else 0

pub occurs-pop_reusable :
    (i : ℕ) (stack : List Buffer) (size : ℕ) (freed : List ℕ)
    → let popped = pop_reusable stack size freed in
      occurs i (found_ids popped.0) + occurs i (ids popped.1) + occurs i popped.2
      ≡ occurs i (ids stack) + occurs i freed
unfolding pop_reusable
occurs-pop_reusable i [] size freed = omega arith
occurs-pop_reusable i (b ∷ rest) size freed =
    let ih = occurs-pop_reusable i rest size (b.id ∷ freed) in
    elim (Bool-cases (leb size b.buffer_size)) [
      | inl large ↦ rw large (omega arith)
      | inr small ↦ rw small (omega (arith, ih))
    ]

pub occurs-append : (i : ℕ) (xs ys : List ℕ) → occurs i (xs ++ ys) ≡ occurs i xs + occurs i ys
occurs-append i [] ys = omega arith
occurs-append i (x ∷ xs) ys = omega (arith, occurs-append i xs ys)

-- What an allocation leaves of buffer `i`, with what it returns, is what was there and what is new.
abbrev pub Conserves : ℕ → Manager → Option Buffer × Manager → Type 0
Conserves i m r = occurs i (found_ids r.0) + kept i r.1 + exists i m ≡ kept i m + exists i r.1

module _ (i : ℕ) (granted : Bool) (size : ℕ) where
  pub new_from_system-Conserves :
      (flag : Bool) (m : Manager) (alloc_size : ℕ)
      → Conserves i m (new_from_system granted alloc_size flag m)
  unfolding new_from_system
  new_from_system-Conserves flag m alloc_size = ground arith

pub free-kept :
    (i : ℕ) (b : Buffer) (m : Manager)
    → (kept i (free (some b) m) ≡ occurs i (b.id ∷ []) + kept i m)
      × ((free (some b) m).next ≡ m.next)
unfolding free
free-kept i b m = (ground arith, ground arith)
