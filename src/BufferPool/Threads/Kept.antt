-- ===== src/BufferPool/Threads/Kept.antt =====
-- The caches of the threads of redcli/rle4k_buffer_mgr.cpp stay in order in any interleaving.
use encoder_rle4k_cpu.Base.{
  ℕ, zero, suc, ◌≡◌, refl, Bool, true, false, List, [], ◌∷◌, Option, none, some, arith, get_elem?,
  set, replicate,
}
use encoder_rle4k_cpu.BufferPool.{Buffer, Manager, new_from_system, delete_caches, pop_reusable}
use encoder_rle4k_cpu.BufferPool.Requests.{pick}
use encoder_rle4k_cpu.BufferPool.Kept.{WellKept, pop_reusable-Fits, free-WellKept}
use encoder_rle4k_cpu.BufferPool.Threads.{
  Pc, idle, loading, raising, exchanging, creating, checking, comparing, storing, marking,
  unmarking, View, Event, call_alloc, call_free, call_initialize, call_clear, end_thread, proceed,
  resume, start_alloc, advance, when_idle_elim, turn, Thread, Process, new_thread, new_process,
  view_of, put_view, move_thread, move, play,
}

-- The two stacks of a thread are all that counts.
same_caches : (m m' : Manager) → m.normal ≡ m'.normal → m.big ≡ m'.big → WellKept m → WellKept m'
same_caches m m' e f p = record {
  normal_cap = rw (← e) p.normal_cap;
  big_cap = rw (← f) p.big_cap;
  normal_kind = rw (← e) p.normal_kind;
  big_kind = rw (← f) p.big_kind;
}

abbrev KeepsOrder : View → Type 0
KeepsOrder v = WellKept v.manager

resume-KeepsOrder :
    (found : Option Buffer) (pc : Pc) (v : View) → KeepsOrder v → KeepsOrder (resume found pc v)
resume-KeepsOrder none pc v p = p
resume-KeepsOrder (some b) pc v p = p

start_alloc-KeepsOrder :
    (size : ℕ) (big : Bool) (v : View) → KeepsOrder v → KeepsOrder (start_alloc size big v)
unfolding start_alloc
start_alloc-KeepsOrder size true v p =
    let (fits, kind, short) =
      pop_reusable-Fits v.manager.big size v.manager.freed true p.big_kind in
    let popped = pop_reusable v.manager.big size v.manager.freed in
    resume-KeepsOrder popped.0 (creating size true)
      (record v { manager = record v.manager { big = popped.1; freed = popped.2 } })
      (record {
        normal_cap = p.normal_cap;
        big_cap = omega (arith, p.big_cap, short);
        normal_kind = p.normal_kind;
        big_kind = kind;
      })
start_alloc-KeepsOrder size false v p =
    let (fits, kind, short) =
      pop_reusable-Fits v.manager.normal size v.manager.freed false p.normal_kind in
    let popped = pop_reusable v.manager.normal size v.manager.freed in
    resume-KeepsOrder popped.0 (loading size)
      (record v { manager = record v.manager { normal = popped.1; freed = popped.2 } })
      (record {
        normal_cap = omega (arith, p.normal_cap, short);
        big_cap = p.big_cap;
        normal_kind = kind;
        big_kind = p.big_kind;
      })

-- An access of the atomics or of the heap leaves the caches.
advance-caches :
    (answer : Bool) (pc : Pc) (v : View)
    → (v.manager.normal ≡ (advance answer pc v).manager.normal)
      × (v.manager.big ≡ (advance answer pc v).manager.big)
unfolding advance new_from_system
advance-caches answer idle v = (refl, refl)
advance-caches answer (loading size) v = (refl, refl)
advance-caches answer (raising alloc_size) v = (refl, refl)
advance-caches answer (exchanging alloc_size cur) v = (ground arith, ground arith)
advance-caches answer (creating alloc_size big) v = (ground arith, ground arith)
advance-caches answer (checking ts) v = (refl, refl)
advance-caches answer (comparing ts) v = (refl, refl)
advance-caches answer (storing ts) v = (refl, refl)
advance-caches answer marking v = (refl, refl)
advance-caches answer unmarking v = (refl, refl)

pub turn-WellKept : (e : Event) (v : View) → WellKept v.manager → WellKept (turn e v).manager
unfolding turn delete_caches
turn-WellKept (call_alloc size big) v p =
    when_idle_elim KeepsOrder v.pc _ v (start_alloc-KeepsOrder size big v p) p
turn-WellKept (call_free k) v p =
    when_idle_elim KeepsOrder v.pc _ v (free-WellKept (pick k v.held).0 v.manager p) p
turn-WellKept (call_initialize strip_width block_height) v p =
    when_idle_elim KeepsOrder v.pc _ v p p
turn-WellKept call_clear v p =
    when_idle_elim KeepsOrder v.pc _ v (same_caches v.manager _ refl refl p) p
turn-WellKept end_thread v p =
    when_idle_elim KeepsOrder v.pc _ v
      (record { normal_cap = omega arith; big_cap = omega arith; normal_kind = tt; big_kind = tt })
      p
turn-WellKept (proceed answer) v p =
    let (e, f) = advance-caches answer v.pc v in same_caches v.manager _ e f p

-- The caches of each thread are within their capacities, and hold buffers of their kind.
abbrev pub AllKept : Process → List Thread → Type 0
AllKept s [] = Unit {0}
AllKept s (th ∷ ths) = WellKept (view_of s th).manager × AllKept s ths

AllKept-same : (s s' : Process) (ths : List Thread) → AllKept s ths → AllKept s' ths
AllKept-same s s' [] all = tt
AllKept-same s s' (th ∷ ths) (p, all) = (same_caches _ _ refl refl p, AllKept-same s s' ths all)

AllKept-get :
    (s : Process) (ths : List Thread) (t : ℕ) (th : Thread)
    → get_elem? ths t ≡ some th
    → AllKept s ths
    → WellKept (view_of s th).manager
AllKept-get s [] t th h all = cc
AllKept-get s (x ∷ ths) zero th h (p, all) = let e : x ≡ th = cc in rw (← e) p
AllKept-get s (x ∷ ths) (suc t) th h (p, all) = AllKept-get s ths t th h all

AllKept-set :
    (s : Process) (ths : List Thread) (t : ℕ) (th : Thread)
    → WellKept (view_of s th).manager
    → AllKept s ths
    → AllKept s (set ths t th)
AllKept-set s [] t th q all = tt
AllKept-set s (x ∷ ths) zero th q (p, all) = (q, all)
AllKept-set s (x ∷ ths) (suc t) th q (p, all) = (p, AllKept-set s ths t th q all)

move_thread-AllKept :
    (t : ℕ) (e : Event) (s : Process) (found : Option Thread)
    → get_elem? s.threads t ≡ found
    → AllKept s s.threads
    → let after = move_thread t e s found in AllKept after after.threads
move_thread-AllKept t e s none here all = all
move_thread-AllKept t e s (some th) here all =
    AllKept-set (put_view t s (turn e (view_of s th))) s.threads t _
      (same_caches (turn e (view_of s th)).manager _ refl refl
        (turn-WellKept e (view_of s th) (AllKept-get s s.threads t th here all)))
      (AllKept-same s (put_view t s (turn e (view_of s th))) s.threads all)

AllKept-replicate : (s : Process) (n : ℕ) → AllKept s (replicate n new_thread)
AllKept-replicate s zero = tt
AllKept-replicate s (suc n) = (
  record { normal_cap = omega arith; big_cap = omega arith; normal_kind = tt; big_kind = tt },
  AllKept-replicate s n,
)

-- After any sequence of moves of any number of threads, each thread keeps at most 4 normal buffers
-- and 2 big ones, each in the stack of its kind, whoever allocated them.
pub play-AllKept :
    (moves : List (ℕ × Event)) (n : ℕ) → let s = play moves (new_process n) in AllKept s s.threads
unfolding play move
play-AllKept moves n = go moves (new_process n) (AllKept-replicate (new_process n) n)
  where
    go :
        (moves : List (ℕ × Event)) (s : Process)
        → AllKept s s.threads
        → let after = play moves s in AllKept after after.threads
    go [] s all = all
    go ((t, e) ∷ moves) s all =
        go moves (move t e s) (move_thread-AllKept t e s (get_elem? s.threads t) refl all)
