-- ===== src/BufferPool/Threads/Owners.antt =====
-- Who owns each buffer of redcli/rle4k_buffer_mgr.cpp, with several threads that free each other's
-- buffers.
use encoder_rle4k_cpu.Base.{
  ℕ, zero, suc, ◌+◌, ◌≡◌, refl, ap, Bool, true, false, List, [], ◌∷◌, ◌++◌, Option, none, some,
  arith, ltb, get_elem?, set, replicate, if◌then◌else◌,
}
use encoder_rle4k_cpu.BufferPool.{Buffer, delete_caches, ids}
use encoder_rle4k_cpu.BufferPool.Conserves.{
  occurs, found_ids, kept, exists, occurs-append, occurs-pop_reusable, new_from_system-Conserves,
}
use encoder_rle4k_cpu.BufferPool.Requests.{pick, occurs-pick, occurs-with_found, free_found-kept}
use encoder_rle4k_cpu.BufferPool.Threads.{
  Pc, idle, loading, raising, exchanging, creating, checking, comparing, storing, marking,
  unmarking, View, Event, call_alloc, call_free, call_initialize, call_clear, end_thread, proceed,
  resume, start_alloc, start_free, advance, when_idle, when_idle_elim, turn, Thread, Process,
  new_thread, new_process, view_of, move_thread, move, play,
}

module _ (i : ℕ) where
  -- The owners that a thread sees, and those in the caches of all threads.
  abbrev seen : View → ℕ
  seen v = occurs i (ids v.held) + kept i v.manager

  abbrev cached : List Thread → ℕ
  cached [] = 0
  cached (th ∷ ths) = occurs i (ids th.normal) + occurs i (ids th.big) + cached ths

  -- A move makes or loses no owner, but for the buffers that it makes.
  abbrev Balanced : View → View → Type 0
  Balanced v w = seen w + exists i v.manager ≡ seen v + exists i w.manager

  resume-Balanced :
      (found : Option Buffer) (pc : Pc) (v w : View)
      → w.manager.next ≡ v.manager.next
      → occurs i (found_ids found) + seen w ≡ seen v
      → Balanced v (resume found pc w)
  resume-Balanced none pc v w same all =
      let old = ap {B = ℕ} (λ n. if ltb i n then 1 else 0) same in omega (arith, all, old)
  resume-Balanced (some b) pc v w same all =
      let old = ap {B = ℕ} (λ n. if ltb i n then 1 else 0) same in omega (arith, all, old)

  start_alloc-Balanced : (size : ℕ) (big : Bool) (v : View) → Balanced v (start_alloc size big v)
  unfolding start_alloc
  start_alloc-Balanced size true v =
      resume-Balanced _ _ v _ refl
        (omega (arith, occurs-pop_reusable i v.manager.big size v.manager.freed))
  start_alloc-Balanced size false v =
      resume-Balanced _ _ v _ refl
        (omega (arith, occurs-pop_reusable i v.manager.normal size v.manager.freed))

  start_free-Balanced : (k : ℕ) (v : View) → Balanced v (start_free k v)
  start_free-Balanced k v =
      let (all, same) = free_found-kept i (pick k v.held).0 v.manager in
      let old = ap {B = ℕ} (λ n. if ltb i n then 1 else 0) same in
      omega (arith, all, old, occurs-pick i k v.held)

  exchange-Balanced :
      (won : Bool) (v a b : View) → Balanced v a → Balanced v b → Balanced v (if won then a else b)
  exchange-Balanced true v a b p q = p
  exchange-Balanced false v a b p q = q

  advance-Balanced : (answer : Bool) (pc : Pc) (v : View) → Balanced v (advance answer pc v)
  unfolding advance
  advance-Balanced answer idle v = refl
  advance-Balanced answer (loading size) v = refl
  advance-Balanced answer (raising alloc_size) v = refl
  advance-Balanced answer (exchanging alloc_size cur) v = exchange-Balanced _ v _ _ refl refl
  advance-Balanced answer (creating alloc_size big) v = omega (
    arith,
    new_from_system-Conserves i answer 0 big v.manager alloc_size,
    occurs-with_found i _ v.held,
  )
  advance-Balanced answer (checking ts) v = refl
  advance-Balanced answer (comparing ts) v = refl
  advance-Balanced answer (storing ts) v = refl
  advance-Balanced answer marking v = refl
  advance-Balanced answer unmarking v = refl

  when_idle-Balanced :
      (pc : Pc) (started v : View) → Balanced v started → Balanced v (when_idle pc started v)
  when_idle-Balanced pc started v p = when_idle_elim (Balanced v) pc started v p refl

  turn-Balanced : (e : Event) (v : View) → Balanced v (turn e v)
  unfolding turn delete_caches
  turn-Balanced (call_alloc size big) v =
      when_idle-Balanced v.pc _ v (start_alloc-Balanced size big v)
  turn-Balanced (call_free k) v = when_idle-Balanced v.pc _ v (start_free-Balanced k v)
  turn-Balanced (call_initialize strip_width block_height) v = when_idle-Balanced v.pc _ v refl
  turn-Balanced call_clear v = when_idle-Balanced v.pc _ v refl
  turn-Balanced end_thread v = when_idle-Balanced v.pc _ v (
      omega (
        arith,
        occurs-append i (ids v.manager.normal) (ids v.manager.big ++ v.manager.freed),
        occurs-append i (ids v.manager.big) v.manager.freed,
      ))
  turn-Balanced (proceed answer) v = advance-Balanced answer v.pc v

  cached-set :
      (ths : List Thread) (t : ℕ) (th w : Thread)
      → get_elem? ths t ≡ some th
      → cached (set ths t w) + (occurs i (ids th.normal) + occurs i (ids th.big))
        ≡ cached ths + (occurs i (ids w.normal) + occurs i (ids w.big))
  cached-set [] t th w h = cc
  cached-set (x ∷ ths) zero th w h = let e : x ≡ th = cc in rw e (omega arith)
  cached-set (x ∷ ths) (suc t) th w h = omega (arith, cached-set ths t th w h)

  cached-replicate : (n : ℕ) → cached (replicate n new_thread) ≡ 0
  cached-replicate zero = refl
  cached-replicate (suc n) = omega (arith, cached-replicate n)

  -- The owners of buffer `i`: clients, the caches of all threads, and the record of what is deleted.
  abbrev pub thread_owners : Process → ℕ
  thread_owners s = occurs i (ids s.held) + cached s.threads + occurs i s.freed

  move_thread-owners :
      (t : ℕ) (e : Event) (s : Process) (found : Option Thread)
      → get_elem? s.threads t ≡ found
      → thread_owners s ≡ (if ltb i s.next then 1 else 0)
      → thread_owners (move_thread t e s found)
        ≡ (if ltb i (move_thread t e s found).next then 1 else 0)
  move_thread-owners t e s none here p = p
  move_thread-owners t e s (some th) here p =
      omega (arith, p, turn-Balanced e (view_of s th), cached-set s.threads t th _ here)

-- After any sequence of moves of any number of threads, each buffer that was ever allocated has
-- exactly one owner (a client, one cache of one thread, or the deleted buffers), and no other buffer
-- has any: no buffer is given out twice, deleted twice or leaked, whichever thread frees it.
pub play-owners :
    (moves : List (ℕ × Event)) (n i : ℕ)
    → let s = play moves (new_process n) in thread_owners i s ≡ (if ltb i s.next then 1 else 0)
unfolding play move
play-owners moves n i = go moves (new_process n) (ground (arith, cached-replicate i n))
  where
    go :
        (moves : List (ℕ × Event)) (s : Process)
        → thread_owners i s ≡ (if ltb i s.next then 1 else 0)
        → thread_owners i (play moves s) ≡ (if ltb i (play moves s).next then 1 else 0)
    go [] s p = p
    go ((t, e) ∷ moves) s p =
        go moves (move t e s) (move_thread-owners i t e s (get_elem? s.threads t) refl p)
