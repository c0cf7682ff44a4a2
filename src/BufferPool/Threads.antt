-- ===== src/BufferPool/Threads.antt =====
-- redcli/rle4k_buffer_mgr.cpp under several threads. Each call is cut at its accesses of the two
-- atomics and of the heap, and the threads make their moves in any order. A buffer that one thread was
-- given may be freed by another.
pub mod Owners
pub mod Kept
pub mod Returns
pub mod Solo
pub mod Served
pub mod Published
use encoder_rle4k_cpu.Base.{
  ℕ, Bool, true, false, ◌&&◌, List, [], ◌∷◌, Option, none, some, ltb, leb, ◌==◌, get_elem?, set,
  replicate, if◌then◌else◌,
}
use encoder_rle4k_cpu.BufferPool.{
  Buffer, Manager, new_from_system, pop_reusable, free, get_memory_buffer_size, delete_caches,
}
use encoder_rle4k_cpu.BufferPool.Requests.{pick, with_found}

-- Where a thread stands in a call, with the local variables that are live there.
pub data Pc : Type 0 where
  idle : Pc  -- in no call
  loading : (size : ℕ) → Pc  -- `normal_alloc`, before the load of `current_buffer_size`
  raising : (alloc_size : ℕ) → Pc  -- `atomic_raise_size`, before its load
  exchanging : (alloc_size cur : ℕ) → Pc  -- in its loop, before `compare_exchange_weak`
  creating : (alloc_size : ℕ) (big : Bool) → Pc  -- before `new_from_system`
  checking : (ts : ℕ) → Pc  -- `initialize`, before the load of `initialized`
  comparing : (ts : ℕ) → Pc  -- before the load of `current_buffer_size`
  storing : (ts : ℕ) → Pc  -- before its store
  marking : Pc  -- before `initialized.store(true)`
  unmarking : Pc  -- `clear`, before `initialized.store(false)`

-- What a thread sees: its place, the manager with its own caches, and the buffers of the clients.
pub record View : Type 0 where
  pub pc : Pc
  pub manager : Manager
  pub held : List Buffer

-- A thread that is in no call starts one; a thread that is in a call makes its next access.
-- The answer says whether the heap has room, or whether a weak exchange does not fail by chance.
pub data Event : Type 0 where
  call_alloc : (size : ℕ) (big : Bool) → Event
  call_free : (position : ℕ) → Event
  call_initialize : (strip_width block_height : ℕ) → Event
  call_clear : Event
  end_thread : Event
  proceed : (answer : Bool) → Event

-- `pop_reusable` has found a buffer, or the call goes on.
abbrev pub resume : Option Buffer → Pc → View → View
resume (some b) pc v = record v { pc = idle; held = b ∷ v.held }
resume none pc v = record v { pc = pc }

unfoldable pub start_alloc : ℕ → Bool → View → View
start_alloc size true v =
    let (found, rest, freed) = pop_reusable v.manager.big size v.manager.freed in
    resume found (creating size true)
      (record v { manager = record v.manager { big = rest; freed = freed } })
start_alloc size false v =
    let (found, rest, freed) = pop_reusable v.manager.normal size v.manager.freed in
    resume found (loading size)
      (record v { manager = record v.manager { normal = rest; freed = freed } })

abbrev pub start_free : ℕ → View → View
start_free k v =
    let (found, rest) = pick k v.held in
    record { pc = idle; manager = free found v.manager; held = rest }

-- `while (size > cur && …)`
unfoldable pub tested : ℕ → ℕ → Pc
tested alloc_size cur =
    if ltb cur alloc_size then exchanging alloc_size cur else creating alloc_size false

unfoldable pub advance : Bool → Pc → View → View
unfolding tested new_from_system
advance answer idle v = v
advance answer (loading size) v =
    let pool_size = v.manager.current_buffer_size in
    let alloc_size = if ltb size pool_size then pool_size else size in
    record v {
      pc = if ltb pool_size alloc_size then raising alloc_size else creating alloc_size false;
    }
advance answer (raising alloc_size) v = record v {
  pc = tested alloc_size v.manager.current_buffer_size;
}
advance answer (exchanging alloc_size cur) v =
    if answer && v.manager.current_buffer_size == cur
    then record v {
      pc = creating alloc_size false;
      manager = record v.manager { current_buffer_size = alloc_size };
    }
    else record v { pc = tested alloc_size v.manager.current_buffer_size }
advance answer (creating alloc_size big) v =
    let (found, m) = new_from_system answer alloc_size big v.manager in
    record { pc = idle; manager = m; held = with_found found v.held }
advance answer (checking ts) v = record v {
  pc = if v.manager.initialized then comparing ts else storing ts;
}
advance answer (comparing ts) v = record v {
  pc = if leb ts v.manager.current_buffer_size then idle else storing ts;
}
advance answer (storing ts) v = record v {
  pc = marking;
  manager = record v.manager { current_buffer_size = ts };
}
advance answer marking v = record v { pc = idle; manager = record v.manager { initialized = true } }
advance answer unmarking v = record v {
  pc = idle;
  manager = record v.manager { initialized = false };
}

-- Only a thread that is in no call starts one.
abbrev pub when_idle : Pc → View → View → View
when_idle idle started v = started
when_idle _ started v = v

-- What holds of the call's start and of the thread as it was holds of the move.
pub when_idle_elim {ℓ} :
    (P : View → Type ℓ) (pc : Pc) (started v : View) → P started → P v → P (when_idle pc started v)
when_idle_elim P idle started v p q = p
when_idle_elim P (loading size) started v p q = q
when_idle_elim P (raising alloc_size) started v p q = q
when_idle_elim P (exchanging alloc_size cur) started v p q = q
when_idle_elim P (creating alloc_size big) started v p q = q
when_idle_elim P (checking ts) started v p q = q
when_idle_elim P (comparing ts) started v p q = q
when_idle_elim P (storing ts) started v p q = q
when_idle_elim P marking started v p q = q
when_idle_elim P unmarking started v p q = q

unfoldable pub turn : Event → View → View
unfolding start_alloc advance
turn (call_alloc size big) v = when_idle v.pc (start_alloc size big v) v
turn (call_free k) v = when_idle v.pc (start_free k v) v
turn (call_initialize strip_width block_height) v =
    when_idle v.pc (record v { pc = checking (get_memory_buffer_size strip_width block_height) }) v
turn call_clear v =
    when_idle v.pc
      (record v { pc = unmarking; manager = record v.manager { current_buffer_size = 0 } }) v
turn end_thread v = when_idle v.pc (record v { manager = delete_caches v.manager }) v
turn (proceed answer) v = advance answer v.pc v

-- A thread, with its `tls_buffer_cache`.
pub record Thread : Type 0 where
  pub pc : Pc
  pub normal : List Buffer
  pub big : List Buffer

pub record Process : Type 0 where
  pub current_buffer_size : ℕ
  pub initialized : Bool
  pub next : ℕ
  pub freed : List ℕ
  pub threads : List Thread
  pub held : List Buffer

abbrev pub new_thread : Thread
new_thread = record { pc = idle; normal = []; big = [] }

abbrev pub new_process : ℕ → Process
new_process n = record {
  current_buffer_size = 0;
  initialized = false;
  next = 0;
  freed = [];
  threads = replicate n new_thread;
  held = [];
}

abbrev pub view_of : Process → Thread → View
view_of s th = record {
  pc = th.pc;
  manager = record {
    current_buffer_size = s.current_buffer_size;
    initialized = s.initialized;
    normal = th.normal;
    big = th.big;
    next = s.next;
    freed = s.freed;
  };
  held = s.held;
}

-- What thread `t` has seen last is what is there.
abbrev pub put_view : ℕ → Process → View → Process
put_view t s v = record {
  current_buffer_size = v.manager.current_buffer_size;
  initialized = v.manager.initialized;
  next = v.manager.next;
  freed = v.manager.freed;
  threads = set s.threads t (record { pc = v.pc; normal = v.manager.normal; big = v.manager.big });
  held = v.held;
}

abbrev pub move_thread : ℕ → Event → Process → Option Thread → Process
move_thread t e s none = s
move_thread t e s (some th) = put_view t s (turn e (view_of s th))

unfoldable pub move : ℕ → Event → Process → Process
unfolding turn
move t e s = move_thread t e s (get_elem? s.threads t)

-- Moves of threads by their numbers, in any order.
unfoldable pub play : List (ℕ × Event) → Process → Process
unfolding move
play [] s = s
play ((t, e) ∷ moves) s = play moves (move t e s)
