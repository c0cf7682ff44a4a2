-- ===== src/BufferPool.antt =====
-- The buffers of redcli/rle4k_buffer_mgr.h and .cpp: one thread's caches, the preferred size that all
-- threads publish, and the buffers that are on the heap. A buffer has a number of its own in place of
-- an address; `granted` says whether the heap has room when it is asked.
pub mod Kept
pub mod Conserves
pub mod Requests
pub mod Sizes
pub mod Helpers
pub mod Threads
use encoder_rle4k_cpu.Base.{
  ℕ, zero, suc, ◌+◌, ◌*◌, ◌/◌, ◌%◌, ◌^◌, Bool, true, false, ◌&&◌, List, [], ◌∷◌, Option, none, some,
  length, ltb, leb, if◌then◌else◌, ◌++◌,
}

pub record Buffer : Type 0 where
  pub id : ℕ
  pub buffer_size : ℕ
  pub big_buffer : Bool

-- The manager's fields, the two stacks of the thread with their tops first, the next new buffer, and
-- the buffers that were deleted.
pub record Manager : Type 0 where
  pub current_buffer_size : ℕ
  pub initialized : Bool
  pub normal : List Buffer
  pub big : List Buffer
  pub next : ℕ
  pub freed : List ℕ

abbrev pub max_normal : ℕ
max_normal = 4

abbrev pub max_big : ℕ
max_big = 2

abbrev pub new_manager : Manager
new_manager = record {
  current_buffer_size = 0;
  initialized = false;
  normal = [];
  big = [];
  next = 0;
  freed = [];
}

unfoldable pub new_from_system : Bool → ℕ → Bool → Manager → Option Buffer × Manager
new_from_system granted size big m =
    if granted
    then (
      some (record { id = m.next; buffer_size = size; big_buffer = big }),
      record m { next = m.next + 1 },
    )
    else (none, m)

-- What is popped, the stack after it, and the deleted buffers with those that were too small.
unfoldable pub pop_reusable : List Buffer → ℕ → List ℕ → Option Buffer × List Buffer × List ℕ
pop_reusable [] size freed = (none, [], freed)
pop_reusable (b ∷ rest) size freed =
    let further = pop_reusable rest size (b.id ∷ freed) in
    if leb size b.buffer_size then (some b, rest, freed) else further

-- The value of the atomic after the loop: `seen` are the values that failed exchanges read.
unfoldable pub atomic_raise_size : List ℕ → ℕ → ℕ → ℕ
atomic_raise_size [] cur size = if ltb cur size then size else cur
atomic_raise_size (v ∷ seen) cur size =
    let again = atomic_raise_size seen v size in if ltb cur size then again else cur

-- `normal_alloc` with nothing to reuse.
unfoldable pub normal_new : Bool → ℕ → Manager → Option Buffer × Manager
unfolding new_from_system atomic_raise_size
normal_new granted size m =
    let alloc_size = if ltb size m.current_buffer_size then m.current_buffer_size else size in
    new_from_system granted alloc_size false (
      if ltb m.current_buffer_size alloc_size
      then record m { current_buffer_size = atomic_raise_size [] m.current_buffer_size alloc_size }
      else m)

abbrev pub or_else : Option Buffer → Manager → Option Buffer × Manager → Option Buffer × Manager
or_else (some b) m fallback = (some b, m)
or_else none m fallback = fallback

unfoldable pub normal_alloc : Bool → ℕ → Manager → Option Buffer × Manager
normal_alloc granted size m =
    let (found, rest, freed) = pop_reusable m.normal size m.freed in
    let popped : Manager = record m { normal = rest; freed = freed } in
    or_else found popped (normal_new granted size popped)

unfoldable pub big_alloc : Bool → ℕ → Manager → Option Buffer × Manager
big_alloc granted size m =
    let (found, rest, freed) = pop_reusable m.big size m.freed in
    let popped : Manager = record m { big = rest; freed = freed } in
    or_else found popped (new_from_system granted size true popped)

unfoldable pub alloc : Bool → ℕ → Bool → Manager → Option Buffer × Manager
alloc granted size big m = if big then big_alloc granted size m else normal_alloc granted size m

-- The stack and the deleted buffers afterwards.
abbrev pub push_or_delete : List Buffer → ℕ → Buffer → List ℕ → List Buffer × List ℕ
push_or_delete stack cap obj freed =
    if ltb (length stack) cap then (obj ∷ stack, freed) else (stack, obj.id ∷ freed)

-- The stack is the one that the buffer's flag names; null is ignored.
unfoldable pub free : Option Buffer → Manager → Manager
free none m = m
free (some b) m =
    if b.big_buffer
    then (let (stack, freed) = push_or_delete m.big max_big b m.freed in
        record m { big = stack; freed = freed })
    else (let (stack, freed) = push_or_delete m.normal max_normal b m.freed in
        record m { normal = stack; freed = freed })

unfoldable pub clear : Manager → Manager
clear m = record m { current_buffer_size = 0; initialized = false }

unfoldable pub get_memory_buffer_size : ℕ → ℕ → ℕ
get_memory_buffer_size strip_width block_height =
    (strip_width + 511) % 2 ^ 32 / 512 * 512 / 8 * block_height % 2 ^ 32

unfoldable pub initialize : ℕ → ℕ → Manager → Manager
initialize strip_width block_height m =
    let ts = get_memory_buffer_size strip_width block_height in
    if m.initialized && leb ts m.current_buffer_size
    then m
    else record m { current_buffer_size = ts; initialized = true }

abbrev pub ids : List Buffer → List ℕ
ids [] = []
ids (b ∷ bs) = b.id ∷ ids bs

-- The thread's end: `~tls_buffer_cache`.
unfoldable pub delete_caches : Manager → Manager
delete_caches m = record m { normal = []; big = []; freed = ids m.normal ++ (ids m.big ++ m.freed) }
