-- ===== src/Ring/Layout.antt =====
-- Where a sequence number lies in the ring: `mod_pos_i64` and `mod_u64` of
-- include/sintra/detail/ipc/platform_defs.h, and `trailing_octile_of` of
-- include/sintra/detail/ipc/rings.h.
pub mod Octiles
use sintra.Base.{ℕ, suc, ◌+◌, ◌-◌, ◌%◌, ◌==◌, if◌then◌else◌}
use sintra.Base.Int.{ℤ, pos, negsuc, to_i64, sub_nat}
use sintra.Ring.Access.{octile_of_index}

-- C's `%` rounds towards zero, so a negative number leaves a remainder from -(m - 1) to 0.
unfoldable pub mod_pos_i64 : ℤ → ℕ → ℕ
mod_pos_i64 (pos n) m = n % m
mod_pos_i64 (negsuc n) m = if suc n % m == 0 then 0 else m - suc n % m

abbrev pub mod_u64 : ℕ → ℕ → ℕ
mod_u64 x m = x % m

-- The octile that a reader guards at this sequence, with `trailing` trailing elements in a ring of
-- `num` elements.
unfoldable pub trailing_octile_of : ℕ → ℕ → ℕ → ℕ
unfolding mod_pos_i64
trailing_octile_of num trailing sequence =
    octile_of_index (mod_pos_i64 (sub_nat (to_i64 sequence) trailing) num) num
