-- ===== src/BufferPool/Threads/Served.antt =====
-- What a call of `alloc` in redcli/rle4k_buffer_mgr.cpp returns, whatever the other threads do
-- between its moves.
use encoder_rle4k_cpu.Base.{
  ℕ, ◌≡◌, ◌≤◌, refl, inl, inr, Bool, true, false, ◌&&◌, ◌∷◌, Option, none, some, arith, ltb, ◌==◌,
  Bool-cases, if◌then◌else◌,
}
use encoder_rle4k_cpu.BufferPool.{Buffer, Manager, new_from_system, pop_reusable}
use encoder_rle4k_cpu.BufferPool.Kept.{WellKept, Fits, pop_reusable-Fits}
use encoder_rle4k_cpu.BufferPool.Threads.{
  Pc, idle, loading, raising, exchanging, creating, checking, comparing, storing, marking,
  unmarking, View, Event, call_alloc, call_free, call_initialize, call_clear, end_thread, proceed,
  resume, start_alloc, tested, advance, when_idle, turn,
}

module _ (size : ℕ) (big : Bool) where
  -- A thread is in a call that asks for a buffer, and what it is about to create would do.
  pub data Asked : Pc → Type 0 where
    loads : big ≡ false → Asked (loading size)
    raises : (a : ℕ) → size ≤ a → big ≡ false → Asked (raising a)
    exchanges : (a cur : ℕ) → size ≤ a → big ≡ false → Asked (exchanging a cur)
    creates : (a : ℕ) → size ≤ a → Asked (creating a big)

  -- The moves of such a call.
  pub data Requests (v : View) : Event → Type 0 where
    calls : v.pc ≡ idle → WellKept v.manager → Requests v (call_alloc size big)
    goes_on : (answer : Bool) → Asked v.pc → Requests v (proceed answer)

  -- What a move of the call comes to.
  pub data Progressed (v : View) (e : Event) (w : View) : Type 0 where
    waits : Asked w.pc → w.held ≡ v.held → Progressed v e w
    given :
        (b : Buffer) → w.pc ≡ idle → w.held ≡ b ∷ v.held → Fits size big (some b) → Progressed v e w
    refused : w.pc ≡ idle → w.held ≡ v.held → e ≡ proceed false → Progressed v e w

resumed :
    (size : ℕ) (big : Bool) (v : View) (e : Event) (found : Option Buffer) (pc : Pc) (m : Manager)
    → Fits size big found
    → Asked size big pc
    → Progressed size big v e (resume found pc (record v { manager = m }))
resumed size big v e none pc m fits asked = waits asked refl
resumed size big v e (some b) pc m fits asked = given b refl refl fits

start_alloc-Progressed :
    (size : ℕ) (big : Bool) (v : View) (e : Event)
    → WellKept v.manager
    → Progressed size big v e (start_alloc size big v)
unfolding start_alloc
start_alloc-Progressed size true v e p =
    let popped = pop_reusable v.manager.big size v.manager.freed in
    let fits = pop_reusable-Fits v.manager.big size v.manager.freed true p.big_kind in
    resumed size true v e popped.0 (creating size true)
      (record v.manager { big = popped.1; freed = popped.2 }) fits.0 (creates size (omega arith))
start_alloc-Progressed size false v e p =
    let popped = pop_reusable v.manager.normal size v.manager.freed in
    let fits = pop_reusable-Fits v.manager.normal size v.manager.freed false p.normal_kind in
    resumed size false v e popped.0 (loading size)
      (record v.manager { normal = popped.1; freed = popped.2 }) fits.0 (loads refl)

tested-Asked :
    (size : ℕ) (big : Bool) (a cur : ℕ) → size ≤ a → big ≡ false → Asked size big (tested a cur)
unfolding tested
tested-Asked size big a cur le normal = elim (Bool-cases (ltb cur a)) [
  | inl below ↦ rw below (exchanges a cur le normal)
  | inr above ↦ rw (above, ← normal) (creates a le)
]

advance-Progressed :
    (size : ℕ) (big answer : Bool) (pc : Pc) (v : View)
    → Asked size big pc
    → Progressed size big v (proceed answer) (advance answer pc v)
unfolding advance new_from_system
advance-Progressed size big answer (loading s) v (loads normal) =
    let pool_size : ℕ = v.manager.current_buffer_size in
    let alloc_size : ℕ = if ltb size pool_size then pool_size else size in
    let le : size ≤ alloc_size = ground arith in
    elim (Bool-cases (ltb pool_size alloc_size)) [
      | inl below ↦ rw below (waits (raises alloc_size le normal) refl)
      | inr above ↦ rw (above, ← normal) (waits (creates alloc_size le) refl)
    ]
advance-Progressed size big answer (raising a) v (raises b le normal) =
    waits (tested-Asked size big a v.manager.current_buffer_size le normal) refl
advance-Progressed size big answer (exchanging a cur) v (exchanges b c le normal) =
    elim (Bool-cases (answer && v.manager.current_buffer_size == cur)) [
      | inl won ↦ rw (won, ← normal) (waits (creates a le) refl)
      | inr lost ↦
          rw lost (waits (tested-Asked size big a v.manager.current_buffer_size le normal) refl)
    ]
advance-Progressed size big answer idle v asked = elim asked [ ]
advance-Progressed size big answer (checking ts) v asked = elim asked [ ]
advance-Progressed size big answer (comparing ts) v asked = elim asked [ ]
advance-Progressed size big answer (storing ts) v asked = elim asked [ ]
advance-Progressed size big answer marking v asked = elim asked [ ]
advance-Progressed size big answer unmarking v asked = elim asked [ ]
advance-Progressed size big true (creating a flag) v (creates b le) = given _ refl refl (le, refl)
advance-Progressed size big false (creating a flag) v (creates b le) = refused refl refl refl

-- A thread that is in no call starts the one it is asked for.
when_idle-started :
    (P : View → Type 0) (pc : Pc) (started v : View)
    → pc ≡ idle
    → P started
    → P (when_idle pc started v)
when_idle-started P pc started v rests p = rw rests p

-- A call of `alloc` either waits for its next move, still for a buffer of at least the requested size
-- and of the requested kind, or returns such a buffer; it returns null only when the heap has refused
-- the buffer. The caches of the calling thread must be in order. Between the moves of the call the
-- other threads may have left anything.
pub turn-Progressed :
    (size : ℕ) (big : Bool) (v : View) (e : Event)
    → Requests size big v e
    → Progressed size big v e (turn e v)
unfolding turn
turn-Progressed size big v (call_alloc s b) (calls rests p) =
    when_idle-started (Progressed size big v (call_alloc size big)) v.pc _ v rests
      (start_alloc-Progressed size big v (call_alloc size big) p)
turn-Progressed size big v (proceed a) (goes_on answer asked) =
    advance-Progressed size big answer v.pc v asked
turn-Progressed size big v (call_free position) request = elim request [ ]
turn-Progressed size big v (call_initialize strip_width block_height) request = elim request [ ]
turn-Progressed size big v call_clear request = elim request [ ]
turn-Progressed size big v end_thread request = elim request [ ]
