-- ===== src/BufferPool/Threads/Solo.antt =====
-- The calls of redcli/rle4k_buffer_mgr.cpp by their moves, and each call as one function.
use encoder_rle4k_cpu.Base.{
  ℕ, ◌≡◌, refl, inl, inr, Bool, true, false, List, [], ◌∷◌, Option, none, some, arith, ltb, leb,
  Bool-cases,
}
use encoder_rle4k_cpu.BufferPool.{
  Buffer, Manager, get_memory_buffer_size, new_from_system, atomic_raise_size, normal_new, or_else,
  normal_alloc, big_alloc, alloc, initialize, clear, pop_reusable,
}
use encoder_rle4k_cpu.BufferPool.Requests.{
  Op, allocate, release, prepare, reset, exit_thread, World, with_found, perform,
}
use encoder_rle4k_cpu.BufferPool.Threads.{
  idle, loading, creating, View, Event, call_alloc, call_free, call_initialize, call_clear,
  end_thread, proceed, resume, start_alloc, tested, advance, turn,
}

unfoldable pub turns : List Event → View → View
unfolding turn
turns [] v = v
turns (e ∷ es) v = turns es (turn e v)

-- The moves of a call that no other thread interrupts, and whose exchange does not fail by chance.
-- A move of a thread that is in no call does nothing.
abbrev pub moves_of : Op → List Event
moves_of (allocate granted size true) = call_alloc size true ∷ proceed granted ∷ []
moves_of (allocate granted size false) =
    call_alloc size false ∷ proceed true ∷ proceed granted ∷ proceed true ∷ proceed granted ∷ []
moves_of (release k) = call_free k ∷ []
moves_of (prepare strip_width block_height) =
    call_initialize strip_width block_height
    ∷ proceed true
    ∷ proceed true
    ∷ proceed true
    ∷ proceed true
    ∷ []
moves_of reset = call_clear ∷ proceed true ∷ []
moves_of exit_thread = end_thread ∷ []

abbrev pub at_rest : World → View
at_rest w = record { pc = idle; manager = w.manager; held = w.held }

abbrev answered : List Buffer → Option Buffer × Manager → View
answered held (found, m) = record { pc = idle; manager = m; held = with_found found held }

resumed-normal :
    (granted : Bool) (size : ℕ) (found : Option Buffer) (m : Manager) (held : List Buffer)
    → turns
        (proceed true ∷ proceed granted ∷ proceed true ∷ proceed granted ∷ [])
        (resume found (loading size) (record { pc = idle; manager = m; held = held }))
      ≡ answered held (or_else found m (normal_new granted size m))
unfolding turns turn advance tested normal_new new_from_system atomic_raise_size
resumed-normal granted size none m held = elim (Bool-cases granted) [
  | inl g ↦ elim (Bool-cases (ltb size m.current_buffer_size)) [
    | inl small ↦ ground arith
    | inr large ↦ ground arith
  ]
  | inr g ↦ ground arith
]
resumed-normal granted size (some b) m held = refl

resumed-big :
    (granted : Bool) (size : ℕ) (found : Option Buffer) (m : Manager) (held : List Buffer)
    → turns
        (proceed granted ∷ [])
        (resume found (creating size true) (record { pc = idle; manager = m; held = held }))
      ≡ answered held (or_else found m (new_from_system granted size true m))
unfolding turns turn advance
resumed-big granted size none m held = refl
resumed-big granted size (some b) m held = refl

-- A call that no other thread interrupts, and whose exchanges do not fail by chance, does in its moves
-- what the one function does, for each of the calls and for the end of the thread: it returns the same
-- buffer and leaves the same manager.
pub turns-perform : (op : Op) (w : World) → turns (moves_of op) (at_rest w) ≡ at_rest (perform op w)
unfolding turns turn advance perform alloc normal_alloc big_alloc start_alloc initialize clear
turns-perform (allocate granted size true) w =
    let popped = pop_reusable w.manager.big size w.manager.freed in
    resumed-big granted size popped.0 (record w.manager { big = popped.1; freed = popped.2 }) w.held
turns-perform (allocate granted size false) w =
    let popped = pop_reusable w.manager.normal size w.manager.freed in
    resumed-normal granted size popped.0 (record w.manager { normal = popped.1; freed = popped.2 })
      w.held
turns-perform (release k) w = refl
turns-perform (prepare strip_width block_height) w = elim (Bool-cases w.manager.initialized) [
  | inl was ↦
      elim (Bool-cases
        (leb (get_memory_buffer_size strip_width block_height) w.manager.current_buffer_size)) [
          | inl covers ↦ simp (was, covers)
          | inr short ↦ simp (was, short)
        ]
  | inr new ↦ simp new
]
turns-perform reset w = refl
turns-perform exit_thread w = refl
