-- ===== src/RowQueue.antt =====
-- redcli/rle4k_block_pipeline.h: the queue that hands out the row indices of one window.
pub mod Order
use encoder_rle4k_cpu.Base.{ℕ, ◌+◌, ◌%◌, ◌^◌, if◌then◌else◌}
use encoder_rle4k_cpu.Base.Int.{ℤ, negsuc, ltb_ℤ, signed32}

-- `next` is the bit pattern of the atomic int `next_`.
pub record RowQueue : Type 0 where
  pub total : ℤ
  pub next : ℕ

unfoldable pub new_queue : ℤ → RowQueue
new_queue total_rows = record { total = total_rows; next = 0 }

-- `fetch_add` wraps. The result is the row, or -1 when all rows have been issued.
unfoldable pub pop : RowQueue → ℤ × RowQueue
unfolding signed32
pop q = (
  let row = signed32 q.next in if ltb_ℤ row q.total then row else negsuc 0,
  record q { next = (q.next + 1) % 2 ^ 32 },
)
