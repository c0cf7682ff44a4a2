-- ===== src/BufferPool/Helpers.antt =====
-- The helper functions of redcli/rle4k_buffer_mgr.h, and the manager over a whole run.
use encoder_rle4k_cpu.Base.{ℕ, Bool, true, false, Option, none, some, if◌then◌else◌}
use encoder_rle4k_cpu.Base.Int.{ℤ, negsuc}
use encoder_rle4k_cpu.Bitmap.{Result, ok, throw}
use encoder_rle4k_cpu.BufferPool.{Buffer, Manager, alloc, free, initialize}

-- `RASTER_ERROR_BASE - 10`
abbrev pub invalid_memory_buffer : ℤ
invalid_memory_buffer = negsuc 10

-- The third parameter is not used.
unfoldable pub initialize_global_buffer_manager : (sw bh bc : ℕ) → Manager → Manager
initialize_global_buffer_manager sw bh bc m = initialize sw bh m

unfoldable pub mb_alloc : Bool → ℕ → Manager → Option Buffer × Manager
mb_alloc granted sz m = alloc granted sz false m

unfoldable pub mb_alloc_big : Bool → ℕ → Manager → Option Buffer × Manager
mb_alloc_big granted sz m = alloc granted sz true m

unfoldable pub mb_free : Option Buffer → Manager → Manager
mb_free none m = m
mb_free (some b) m = free (some b) m

abbrev pub or_throw : Option Buffer → Result Buffer
or_throw none = throw invalid_memory_buffer
or_throw (some b) = ok b

unfoldable pub mb_new_throw : Bool → ℕ → Bool → Manager → Result Buffer × Manager
unfolding mb_alloc mb_alloc_big
mb_new_throw granted sz big m =
    let (b, after) = if big then mb_alloc_big granted sz m else mb_alloc granted sz m in
    (or_throw b, after)
