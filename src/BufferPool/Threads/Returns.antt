-- ===== src/BufferPool/Threads/Returns.antt =====
-- How many moves a call of redcli/rle4k_buffer_mgr.cpp takes, whatever the other threads do.
use encoder_rle4k_cpu.Base.{
  ℕ, dec_lt, ◌-◌, ◌+◌, ◌≡◌, ◌≤◌, refl, Bool, false, not, ◌&&◌, List, [], ◌∷◌, arith, ◌==◌, length,
  if◌then◌else◌,
}
use encoder_rle4k_cpu.BufferPool.{new_from_system}
use encoder_rle4k_cpu.BufferPool.Threads.{
  Pc, idle, loading, raising, exchanging, creating, checking, comparing, storing, marking,
  unmarking, View, tested, advance,
}

-- The moves of a thread in a call: before each, the other threads have left it some view, and with it
-- goes the answer that the move gets.
unfoldable pub journey : List (Bool × View) → Pc → Pc
unfolding advance
journey [] pc = pc
journey ((answer, v) ∷ moves) pc = journey moves (advance answer pc (record v { pc = pc })).pc

-- Whether a move is an exchange that fails.
abbrev pub fails : Bool → View → Pc → Bool
fails answer v (exchanging alloc_size cur) = not (answer && v.manager.current_buffer_size == cur)
fails answer v _ = false

unfoldable pub failures : List (Bool × View) → Pc → ℕ
unfolding advance
failures [] pc = 0
failures ((answer, v) ∷ moves) pc =
    (if fails answer v pc then 1 else 0)
    + failures moves (advance answer pc (record v { pc = pc })).pc

-- The moves that are left where no exchange fails.
abbrev rank : Pc → ℕ
rank idle = 0
rank (loading size) = 4
rank (raising alloc_size) = 3
rank (exchanging alloc_size cur) = 2
rank (creating alloc_size big) = 1
rank (checking ts) = 4
rank (comparing ts) = 3
rank (storing ts) = 2
rank marking = 1
rank unmarking = 1

-- In a call, a move that is no failed exchange leaves less to do; out of a call nothing happens.
advance-rank :
    (answer : Bool) (v : View) (pc : Pc)
    → rank (advance answer pc (record v { pc = pc })).pc
      ≤ rank pc - 1 + (if fails answer v pc then 1 else 0)
unfolding advance tested new_from_system
advance-rank answer v idle = omega arith
advance-rank answer v (loading size) = ground arith
advance-rank answer v (raising alloc_size) = ground arith
advance-rank answer v (exchanging alloc_size cur) = ground arith
advance-rank answer v (creating alloc_size big) = ground arith
advance-rank answer v (checking ts) = ground arith
advance-rank answer v (comparing ts) = ground arith
advance-rank answer v (storing ts) = ground arith
advance-rank answer v marking = ground arith
advance-rank answer v unmarking = ground arith

rank-idle : (pc : Pc) → rank pc ≤ 0 → pc ≡ idle
rank-idle idle h = refl
rank-idle (loading size) h = absurd (omega arith)
rank-idle (raising alloc_size) h = absurd (omega arith)
rank-idle (exchanging alloc_size cur) h = absurd (omega arith)
rank-idle (creating alloc_size big) h = absurd (omega arith)
rank-idle (checking ts) h = absurd (omega arith)
rank-idle (comparing ts) h = absurd (omega arith)
rank-idle (storing ts) h = absurd (omega arith)
rank-idle marking h = absurd (omega arith)
rank-idle unmarking h = absurd (omega arith)

rank-le : (pc : Pc) → rank pc ≤ 4
rank-le idle = omega arith
rank-le (loading size) = omega arith
rank-le (raising alloc_size) = omega arith
rank-le (exchanging alloc_size cur) = omega arith
rank-le (creating alloc_size big) = omega arith
rank-le (checking ts) = omega arith
rank-le (comparing ts) = omega arith
rank-le (storing ts) = omega arith
rank-le marking = omega arith
rank-le unmarking = omega arith

journey_idle : (moves : List (Bool × View)) → journey moves idle ≡ idle
unfolding journey advance
journey_idle [] = refl
journey_idle ((answer, v) ∷ moves) = journey_idle moves

journey_done :
    (moves : List (Bool × View)) (pc : Pc)
    → rank pc + failures moves pc ≤ length moves
    → journey moves pc ≡ idle
unfolding journey failures
journey_done [] pc enough = rank-idle pc (omega (arith, enough))
journey_done ((answer, v) ∷ moves) pc enough = elim (dec_lt 0 (rank pc)) [
  | yes in_call ↦
      journey_done moves (advance answer pc (record v { pc = pc })).pc
        (omega (arith, enough, in_call, advance-rank answer v pc))
  | no ended ↦
      let out : pc ≡ idle = rank-idle pc (omega (arith, ended)) in
      rw out (journey_idle ((answer, v) ∷ moves))
]

-- Wherever a thread stands in a call of `alloc`, `initialize` or `clear`, and whatever the other
-- threads do between its moves, the call has returned after four moves and one more for each exchange
-- of its own that failed.
pub journey-returns :
    (moves : List (Bool × View)) (pc : Pc)
    → 4 + failures moves pc ≤ length moves
    → journey moves pc ≡ idle
journey-returns moves pc enough = journey_done moves pc (omega (arith, enough, rank-le pc))
