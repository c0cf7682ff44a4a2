-- ===== src/Tests/Sharing.antt =====
-- The buffers of redcli under two threads, at concrete moves.
use encoder_rle4k_cpu.Base.{
  ℕ, ◌≤◌, ◌≡◌, refl, Bool, true, false, List, [], ◌∷◌, arith, ltb, if◌then◌else◌,
}
use encoder_rle4k_cpu.BufferPool.{new_manager, pop_reusable, free}
use encoder_rle4k_cpu.BufferPool.Requests.{pick}
use encoder_rle4k_cpu.BufferPool.Threads.{
  idle, raising, creating, View, Event, call_alloc, call_free, proceed, turn, new_process, play,
}
use encoder_rle4k_cpu.BufferPool.Threads.Owners.{thread_owners, play-owners}
use encoder_rle4k_cpu.BufferPool.Threads.Kept.{AllKept, play-AllKept}
use encoder_rle4k_cpu.BufferPool.Threads.Served.{Progressed, creates, goes_on, turn-Progressed}
use encoder_rle4k_cpu.BufferPool.Threads.Published.{AllSettled, play-AllSettled}
use encoder_rle4k_cpu.BufferPool.Threads.Returns.{journey, failures, journey-returns}

-- Both threads allocate at once, thread 0 loses its exchange to thread 1, and thread 1 frees the
-- buffer of thread 0.
abbrev contended : List (ℕ × Event)
contended =
    (0, call_alloc 100 false)
    ∷ (1, call_alloc 300 false)
    ∷ (0, proceed true)
    ∷ (1, proceed true)
    ∷ (0, proceed true)
    ∷ (1, proceed true)
    ∷ (1, proceed true)
    ∷ (0, proceed true)
    ∷ (0, proceed true)
    ∷ (1, proceed true)
    ∷ (1, call_free 1)
    ∷ []

contended_size : (play contended (new_process 2)).current_buffer_size ≡ 300
unfolding play pop_reusable free pick
contended_size = refl

contended_held :
    (play contended (new_process 2)).held
    ≡ record { id = 1; buffer_size = 300; big_buffer = false } ∷ []
unfolding play pop_reusable free pick
contended_held = refl

play-owners_example :
    thread_owners 0 (play contended (new_process 2))
    ≡ (if ltb 0 (play contended (new_process 2)).next then 1 else 0)
play-owners_example = play-owners contended 2 0

play-AllKept_example :
    AllKept (play contended (new_process 2)) (play contended (new_process 2)).threads
play-AllKept_example = play-AllKept contended 2

abbrev about_to_create : View
about_to_create = record { pc = creating 512 false; manager = new_manager; held = [] }

turn-Progressed_example :
    Progressed 100 false about_to_create (proceed true) (turn (proceed true) about_to_create)
turn-Progressed_example =
    turn-Progressed 100 false about_to_create (proceed true)
      (goes_on true (creates 512 (omega arith)))

play-AllSettled_example :
    (0 ≤ (play contended (new_process 2)).current_buffer_size)
    × AllSettled
        (play contended (new_process 2)).current_buffer_size
        (play contended (new_process 2)).threads
play-AllSettled_example = play-AllSettled contended (new_process 2) refl (refl, (refl, tt))

-- The first exchange fails.
abbrev retried : List (Bool × View)
retried =
    (true, about_to_create)
    ∷ (false, about_to_create)
    ∷ (true, about_to_create)
    ∷ (true, about_to_create)
    ∷ (true, about_to_create)
    ∷ []

journey-returns_example : journey retried (raising 512) ≡ idle
unfolding failures
journey-returns_example = journey-returns retried (raising 512) (omega arith)
