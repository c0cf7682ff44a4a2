-- ===== src/BufferPool/Sizes.antt =====
-- The sizes that redcli/rle4k_buffer_mgr.h and .cpp compute and publish.
use native.Mathlib.Nat.{mul-le-mul_right}
use encoder_rle4k_cpu.Base.{ℕ, ◌+◌, ◌*◌, ◌/◌, ◌%◌, ◌^◌, ◌≤◌, ◌<◌, ◌≡◌, arith}
use encoder_rle4k_cpu.BufferPool.{get_memory_buffer_size}

-- For a strip of less than 2 ^ 32 - 511 pixels whose buffer is short of 4 GB, the size holds a bit for
-- each pixel of a block; and it is a multiple of 64 bytes for each line.
pub get_memory_buffer_size-holds :
    (strip_width block_height : ℕ)
    → strip_width + 511 < 2 ^ 32
    → (strip_width + 511) / 512 * 64 * block_height < 2 ^ 32
    → (strip_width * block_height ≤ 8 * get_memory_buffer_size strip_width block_height)
      × (get_memory_buffer_size strip_width block_height
          ≡ (strip_width + 511) / 512 * 64 * block_height)
unfolding get_memory_buffer_size
get_memory_buffer_size-holds strip_width block_height narrow small =
    let q : ℕ = (strip_width + 511) / 512 in
    let wide : (strip_width + 511) % 2 ^ 32 ≡ strip_width + 511 = omega (arith, narrow) in
    let each : q * 512 / 8 ≡ q * 64 = omega arith in
    let whole : q * 64 * block_height % 2 ^ 32 ≡ q * 64 * block_height = omega (arith, small) in
    let product : strip_width * block_height ≤ 512 * q * block_height =
      mul-le-mul_right block_height (omega arith) in
    let size : get_memory_buffer_size strip_width block_height ≡ q * 64 * block_height =
      rw (wide, each) whole in
    (omega (arith, product, size), size)
