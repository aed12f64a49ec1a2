-- ===== src/Ring/Access.antt =====
-- `read_access` of include/sintra/detail/ipc/rings.h: a 64-bit word of eight reader counters, one
-- byte for each octile of the ring, and the helpers that find an octile and its counter.
pub mod Counters
use sintra.Base.{ℕ, ◌+◌, ◌-◌, ◌*◌, ◌/◌, ◌%◌, ◌^◌}

-- `octile_mask`: one unit of an octile's counter.
unfoldable pub octile_mask : ℕ → ℕ
octile_mask octile = 2 ^ (8 * octile) % 2 ^ 64

-- `octile_of_index`. The product is taken in 64 bits.
unfoldable pub octile_of_index : ℕ → ℕ → ℕ
octile_of_index idx ring = 8 * idx % 2 ^ 64 / ring % 0x100

-- `(read_access >> (8 * octile)) & 0xff`
unfoldable pub count : ℕ → ℕ → ℕ
count access octile = access / 2 ^ (8 * octile) % 0x100

-- `read_access.fetch_add(octile_mask(octile))`
unfoldable pub add_count : ℕ → ℕ → ℕ
unfolding octile_mask
add_count access octile = (access + octile_mask octile) % 2 ^ 64

-- `access_snapshot - decrement`
unfoldable pub sub_count : ℕ → ℕ → ℕ
unfolding octile_mask
sub_count access octile = (access + 2 ^ 64 - octile_mask octile) % 2 ^ 64

-- `expected & ~range_mask`
unfoldable pub clear_count : ℕ → ℕ → ℕ
unfolding count
clear_count access octile = access - count access octile * 2 ^ (8 * octile)
