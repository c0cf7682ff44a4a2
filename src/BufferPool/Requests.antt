-- ===== src/BufferPool/Requests.antt =====
-- The requests of one thread to redcli/rle4k_buffer_mgr.cpp, and the places of a buffer before and
-- after them.
use encoder_rle4k_cpu.Base.{
  ℕ, zero, suc, ◌+◌, ◌≡◌, refl, Bool, List, [], ◌∷◌, Option, none, some, arith,
}
use encoder_rle4k_cpu.BufferPool.{
  Buffer, Manager, alloc, free, clear, initialize, delete_caches, ids,
}
use encoder_rle4k_cpu.BufferPool.Conserves.{occurs, found_ids, kept, free-kept}

-- What a thread asks of the manager, with the answer of the heap, or the position of the buffer among
-- those that its client holds.
pub data Op : Type 0 where
  allocate : (granted : Bool) (size : ℕ) (big : Bool) → Op
  release : (position : ℕ) → Op
  prepare : (strip_width block_height : ℕ) → Op
  reset : Op
  exit_thread : Op

-- The manager, and the buffers that clients hold.
pub record World : Type 0 where
  pub manager : Manager
  pub held : List Buffer

abbrev pub with_found : Option Buffer → List Buffer → List Buffer
with_found none held = held
with_found (some b) held = b ∷ held

-- The buffer at a position, and the others.
unfoldable pub pick : ℕ → List Buffer → Option Buffer × List Buffer
pick k [] = (none, [])
pick zero (b ∷ bs) = (some b, bs)
pick (suc k) (b ∷ bs) = let (found, rest) = pick k bs in (found, b ∷ rest)

unfoldable pub perform : Op → World → World
perform (allocate granted size big) w =
    let (found, m) = alloc granted size big w.manager in
    record { manager = m; held = with_found found w.held }
perform (release k) w =
    let (found, rest) = pick k w.held in record { manager = free found w.manager; held = rest }
perform (prepare strip_width block_height) w = record w {
  manager = initialize strip_width block_height w.manager;
}
perform reset w = record w { manager = clear w.manager }
perform exit_thread w = record w { manager = delete_caches w.manager }

module _ (i : ℕ) where
  pub occurs-pick :
      (k : ℕ) (held : List Buffer)
      → occurs i (found_ids (pick k held).0) + occurs i (ids (pick k held).1) ≡ occurs i (ids held)
  unfolding pick
  occurs-pick k [] = omega arith
  occurs-pick zero (b ∷ bs) = omega arith
  occurs-pick (suc k) (b ∷ bs) = omega (arith, occurs-pick k bs)

  pub occurs-with_found :
      (found : Option Buffer) (held : List Buffer)
      → occurs i (ids (with_found found held)) ≡ occurs i (found_ids found) + occurs i (ids held)
  occurs-with_found none held = omega arith
  occurs-with_found (some b) held = omega arith

  pub free_found-kept :
      (found : Option Buffer) (m : Manager)
      → (kept i (free found m) ≡ occurs i (found_ids found) + kept i m)
        × ((free found m).next ≡ m.next)
  unfolding free
  free_found-kept none m = (omega arith, refl)
  free_found-kept (some b) m = free-kept i b m
