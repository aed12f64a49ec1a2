-- ===== src/Ring/State/Word.antt =====
-- `Reader_state_union` of include/sintra/detail/ipc/rings.h: the 32-bit word of a reader slot.
-- Bits 0-7 hold the guarded octile, bit 8 the guard flag, bit 9 the copying mark, bit 10 the
-- writer's request, bits 16-23 the status and bits 24-31 the pending octile. A read of a field,
-- `(word & mask) >> k`, is a quotient and a remainder, and `(word & ~mask) | (v << k)` takes the
-- old field away and adds the new one.
use sintra.Base.{ℕ, ◌+◌, ◌-◌, ◌*◌, ◌/◌, ◌%◌, Bool, not, ◌&&◌, ◌==◌, bit}

abbrev pub k_no_pending_octile : ℕ
k_no_pending_octile = 0xff

-- `Reader_status`
abbrev pub reader_state_inactive : ℕ
reader_state_inactive = 0

abbrev pub reader_state_active : ℕ
reader_state_active = 1

abbrev pub reader_state_evicted : ℕ
reader_state_evicted = 2

abbrev pub guard_present_mask : ℕ
guard_present_mask = 0x100

abbrev pub copying_mask : ℕ
copying_mask = 0x200

abbrev pub request_mask : ℕ
request_mask = 0x400

-- The arguments of `make_word` are bytes, so the shifted parts do not overlap.
unfoldable pub make_word : ℕ → ℕ → Bool → ℕ → ℕ
make_word status octile guard_present pending_octile =
    octile + bit guard_present * 0x100 + status * 0x10000 + pending_octile * 0x1000000

unfoldable pub make : ℕ → ℕ → Bool → ℕ
unfolding make_word
make status octile guard_present = make_word status octile guard_present k_no_pending_octile

unfoldable pub status : ℕ → ℕ
status w = w / 0x10000 % 0x100

unfoldable pub guard_present : ℕ → Bool
guard_present w = not (w / 0x100 % 2 == 0)

unfoldable pub copying : ℕ → Bool
copying w = not (w / 0x200 % 2 == 0)

unfoldable pub request_pending : ℕ → Bool
request_pending w = not (w / 0x400 % 2 == 0)

unfoldable pub guard_octile : ℕ → ℕ
guard_octile w = w % 0x100

unfoldable pub pending_octile : ℕ → ℕ
pending_octile w = w / 0x1000000 % 0x100

unfoldable pub guard_pending : ℕ → Bool
unfolding pending_octile
guard_pending w = not (pending_octile w == k_no_pending_octile)

unfoldable pub guard_transition_allowed : ℕ → Bool
unfolding copying request_pending guard_pending
guard_transition_allowed w = not (copying w) && not (request_pending w) && not (guard_pending w)

unfoldable pub with_status : ℕ → ℕ → ℕ
with_status w v = w - w / 0x10000 % 0x100 * 0x10000 + v * 0x10000

unfoldable pub with_guard : ℕ → ℕ → Bool → ℕ
with_guard w octile present = w - w % 0x100 - w / 0x100 % 2 * 0x100 + octile + bit present * 0x100

unfoldable pub with_pending : ℕ → ℕ → ℕ
with_pending w octile = w - w / 0x1000000 % 0x100 * 0x1000000 + octile * 0x1000000

unfoldable pub clear_pending : ℕ → ℕ
unfolding with_pending
clear_pending w = with_pending w k_no_pending_octile

-- `word.fetch_and(~request_mask)`, `word.fetch_and(~(copying_mask | request_mask))` and
-- `word.fetch_or(request_mask)`
unfoldable pub clear_request : ℕ → ℕ
clear_request w = w - w / 0x400 % 2 * 0x400

unfoldable pub clear_marks : ℕ → ℕ
clear_marks w = w - w / 0x200 % 2 * 0x200 - w / 0x400 % 2 * 0x400

-- The copying mark alone: `word | copying_mask` and `word.fetch_and(~copying_mask)`.
unfoldable pub set_copying : ℕ → ℕ
set_copying w = w - w / 0x200 % 2 * 0x200 + 0x200

unfoldable pub clear_copying : ℕ → ℕ
clear_copying w = w - w / 0x200 % 2 * 0x200

unfoldable pub set_request : ℕ → ℕ
set_request w = w - w / 0x400 % 2 * 0x400 + 0x400
