-- ===== src/BufferPool/Threads/Published.antt =====
-- The preferred size of redcli/rle4k_buffer_mgr.cpp, which all threads raise.
use encoder_rle4k_cpu.Base.{
  ℕ, zero, suc, ◌≡◌, ◌≤◌, ◌<◌, refl, inl, inr, Bool, true, false, ◌&&◌, List, [], ◌∷◌, Option, none,
  some, arith, ltb, ◌==◌, get_elem?, set, Bool-cases, if◌then◌else◌,
}
use encoder_rle4k_cpu.BufferPool.{
  Buffer, Manager, new_from_system, delete_caches, pop_reusable, free,
}
use encoder_rle4k_cpu.BufferPool.Requests.{pick}
use encoder_rle4k_cpu.BufferPool.Threads.{
  Pc, idle, loading, raising, exchanging, creating, checking, comparing, storing, marking,
  unmarking, View, Event, call_alloc, call_free, call_initialize, call_clear, end_thread, proceed,
  resume, start_alloc, start_free, tested, advance, when_idle, turn, Thread, Process, view_of,
  move_thread, move, play,
}

-- Neither `initialize` nor `clear`, which run between the joins.
abbrev pub calm : Event → Bool
calm (call_initialize strip_width block_height) = false
calm call_clear = false
calm _ = true

-- A thread is in no call, or in one of `alloc`. When it is about to create a normal buffer, the
-- published size covers it.
abbrev pub Settled : ℕ → Pc → Type 0
Settled size idle = Unit {0}
Settled size (loading n) = Unit {0}
Settled size (raising a) = Unit {0}
Settled size (exchanging a cur) = cur < a
Settled size (creating a true) = Unit {0}
Settled size (creating a false) = a ≤ size
Settled size _ = true ≡ false

abbrev pub AllSettled : ℕ → List Thread → Type 0
AllSettled size [] = Unit {0}
AllSettled size (th ∷ ths) = Settled size th.pc × AllSettled size ths

Settled-mono : (size size' : ℕ) (pc : Pc) → size ≤ size' → Settled size pc → Settled size' pc
Settled-mono size size' idle le p = tt
Settled-mono size size' (loading n) le p = tt
Settled-mono size size' (raising a) le p = tt
Settled-mono size size' (exchanging a cur) le p = p
Settled-mono size size' (creating a true) le p = tt
Settled-mono size size' (creating a false) le p = omega (arith, p)
Settled-mono size size' (checking ts) le p = p
Settled-mono size size' (comparing ts) le p = p
Settled-mono size size' (storing ts) le p = p
Settled-mono size size' marking le p = p
Settled-mono size size' unmarking le p = p

-- A move that does not lower the published size, and leaves its thread settled.
abbrev Rises : View → View → Type 0
Rises v w =
    (v.manager.current_buffer_size ≤ w.manager.current_buffer_size)
    × Settled w.manager.current_buffer_size w.pc

tested-Settled : (a cur : ℕ) → Settled cur (tested a cur)
unfolding tested
tested-Settled a cur = elim (Bool-cases (ltb cur a)) [
  | inl below ↦ rw below (ground arith)
  | inr above ↦ rw above (ground arith)
]

advance-Rises :
    (answer : Bool) (pc : Pc) (v : View)
    → v.pc ≡ pc
    → Settled v.manager.current_buffer_size pc
    → Rises v (advance answer pc v)
unfolding advance new_from_system
advance-Rises answer idle v e p = (omega arith, rw e tt)
advance-Rises answer (loading size) v e p =
    let pool_size : ℕ = v.manager.current_buffer_size in
    let alloc_size : ℕ = if ltb size pool_size then pool_size else size in
    elim (Bool-cases (ltb pool_size alloc_size)) [
      | inl below ↦ rw below (omega arith, tt)
      | inr above ↦ rw above (omega arith, ground arith)
    ]
advance-Rises answer (raising a) v e p =
    (omega arith, tested-Settled a v.manager.current_buffer_size)
advance-Rises answer (exchanging a cur) v e p =
    elim (Bool-cases (answer && v.manager.current_buffer_size == cur)) [
      | inl won ↦ rw won (ground arith, omega arith)
      | inr lost ↦ rw lost (omega arith, tested-Settled a v.manager.current_buffer_size)
    ]
advance-Rises true (creating a big) v e p = (omega arith, tt)
advance-Rises false (creating a big) v e p = (omega arith, tt)
advance-Rises answer (checking ts) v e p = cc
advance-Rises answer (comparing ts) v e p = cc
advance-Rises answer (storing ts) v e p = cc
advance-Rises answer marking v e p = cc
advance-Rises answer unmarking v e p = cc

resume-Rises :
    (found : Option Buffer) (pc : Pc) (v w : View)
    → v.manager.current_buffer_size ≡ w.manager.current_buffer_size
    → Settled w.manager.current_buffer_size pc
    → Rises v (resume found pc w)
resume-Rises none pc v w e p = (omega (arith, e), p)
resume-Rises (some b) pc v w e p = (omega (arith, e), tt)

start_alloc-Rises : (size : ℕ) (big : Bool) (v : View) → Rises v (start_alloc size big v)
unfolding start_alloc
start_alloc-Rises size true v =
    let popped = pop_reusable v.manager.big size v.manager.freed in
    resume-Rises popped.0 (creating size true) v
      (record v { manager = record v.manager { big = popped.1; freed = popped.2 } }) refl tt
start_alloc-Rises size false v =
    let popped = pop_reusable v.manager.normal size v.manager.freed in
    resume-Rises popped.0 (loading size) v
      (record v { manager = record v.manager { normal = popped.1; freed = popped.2 } }) refl tt

free-size :
    (b : Option Buffer) (m : Manager) → (free b m).current_buffer_size ≡ m.current_buffer_size
unfolding free
free-size none m = refl
free-size (some b) m = ground arith

idle-Rises :
    (v w : View)
    → w.manager.current_buffer_size ≡ v.manager.current_buffer_size
    → w.pc ≡ idle
    → Rises v w
idle-Rises v w e rests = (omega (arith, e), rw rests tt)

started-Rises :
    (pc : Pc) (started v : View)
    → v.pc ≡ pc
    → Settled v.manager.current_buffer_size v.pc
    → (v.pc ≡ idle → Rises v started)
    → Rises v (when_idle pc started v)
started-Rises idle started v e p q = q e
started-Rises (loading size) started v e p q = (omega arith, p)
started-Rises (raising alloc_size) started v e p q = (omega arith, p)
started-Rises (exchanging alloc_size cur) started v e p q = (omega arith, p)
started-Rises (creating alloc_size big) started v e p q = (omega arith, p)
started-Rises (checking ts) started v e p q = (omega arith, p)
started-Rises (comparing ts) started v e p q = (omega arith, p)
started-Rises (storing ts) started v e p q = (omega arith, p)
started-Rises marking started v e p q = (omega arith, p)
started-Rises unmarking started v e p q = (omega arith, p)

turn-Rises :
    (e : Event) (v : View)
    → calm e ≡ true
    → Settled v.manager.current_buffer_size v.pc
    → Rises v (turn e v)
unfolding turn delete_caches
turn-Rises (call_alloc size big) v c p =
    started-Rises v.pc _ v refl p (λ rests. start_alloc-Rises size big v)
turn-Rises (call_free k) v c p =
    started-Rises v.pc _ v refl p
      (λ rests. idle-Rises v (start_free k v) (free-size (pick k v.held).0 v.manager) refl)
turn-Rises (call_initialize strip_width block_height) v c p = cc
turn-Rises call_clear v c p = cc
turn-Rises end_thread v c p =
    started-Rises v.pc _ v refl p
      (λ rests. idle-Rises v (record v { manager = delete_caches v.manager }) refl rests)
turn-Rises (proceed answer) v c p = advance-Rises answer v.pc v refl p

AllSettled-get :
    (size : ℕ) (ths : List Thread) (t : ℕ) (th : Thread)
    → get_elem? ths t ≡ some th
    → AllSettled size ths
    → Settled size th.pc
AllSettled-get size [] t th h all = cc
AllSettled-get size (x ∷ ths) zero th h (p, all) = let e : x ≡ th = cc in rw (← e) p
AllSettled-get size (x ∷ ths) (suc t) th h (p, all) = AllSettled-get size ths t th h all

AllSettled-set :
    (size size' : ℕ) (ths : List Thread) (t : ℕ) (th : Thread)
    → size ≤ size'
    → Settled size' th.pc
    → AllSettled size ths
    → AllSettled size' (set ths t th)
AllSettled-set size size' [] t th le q all = tt
AllSettled-set size size' (x ∷ ths) zero th le q (p, all) = (q, AllSettled-mono ths all)
  where
    AllSettled-mono : (ths : List Thread) → AllSettled size ths → AllSettled size' ths
    AllSettled-mono [] all = tt
    AllSettled-mono (x ∷ ths) (p, all) =
        (Settled-mono size size' x.pc le p, AllSettled-mono ths all)
AllSettled-set size size' (x ∷ ths) (suc t) th le q (p, all) =
    (Settled-mono size size' x.pc le p, AllSettled-set size size' ths t th le q all)

move_thread-AllSettled :
    (t : ℕ) (e : Event) (s : Process) (found : Option Thread)
    → get_elem? s.threads t ≡ found
    → calm e ≡ true
    → AllSettled s.current_buffer_size s.threads
    → let after = move_thread t e s found in
      (s.current_buffer_size ≤ after.current_buffer_size)
      × AllSettled after.current_buffer_size after.threads
move_thread-AllSettled t e s none here c all = (omega arith, all)
move_thread-AllSettled t e s (some th) here c all =
    let (up, settled) =
      turn-Rises e (view_of s th) c
        (AllSettled-get s.current_buffer_size s.threads t th here all) in
    (up, AllSettled-set s.current_buffer_size _ s.threads t _ up settled all)

abbrev pub all_calm : List (ℕ × Event) → Bool
all_calm [] = true
all_calm ((t, e) ∷ moves) = calm e && all_calm moves

-- No thread is in a call.
abbrev pub AllIdle : List Thread → Type 0
AllIdle [] = Unit {0}
AllIdle (th ∷ ths) = (th.pc ≡ idle) × AllIdle ths

AllIdle-AllSettled : (size : ℕ) (ths : List Thread) → AllIdle ths → AllSettled size ths
AllIdle-AllSettled size [] all = tt
AllIdle-AllSettled size (th ∷ ths) (rests, all) = (rw rests tt, AllIdle-AllSettled size ths all)

moves-AllSettled :
    (moves : List (ℕ × Event)) (s : Process)
    → all_calm moves ≡ true
    → AllSettled s.current_buffer_size s.threads
    → let after = play moves s in
      (s.current_buffer_size ≤ after.current_buffer_size)
      × AllSettled after.current_buffer_size after.threads
unfolding play move
moves-AllSettled [] s c all = (omega arith, all)
moves-AllSettled ((t, e) ∷ moves) s c all =
    let first : calm e ≡ true = ground arith in
    let others : all_calm moves ≡ true = ground arith in
    let (up, settled) = move_thread-AllSettled t e s (get_elem? s.threads t) refl first all in
    let (further, last) = moves-AllSettled moves (move t e s) others settled in
    (omega (arith, up, further), last)

-- From a state in which no thread is in a call, and where no thread calls `initialize` or `clear`, no
-- move of any thread lowers the preferred size. Whenever a thread is about to create a normal buffer
-- then, that size covers the buffer, whichever threads raised it meanwhile.
pub play-AllSettled :
    (moves : List (ℕ × Event)) (s : Process)
    → all_calm moves ≡ true
    → AllIdle s.threads
    → let after = play moves s in
      (s.current_buffer_size ≤ after.current_buffer_size)
      × AllSettled after.current_buffer_size after.threads
play-AllSettled moves s c all =
    moves-AllSettled moves s c (AllIdle-AllSettled s.current_buffer_size s.threads all)
