-- ===== src/Ring/State.antt =====
-- The decoded form of a reader slot's state word: a record with one field for each part of the
-- word of `Reader_state_union` (include/sintra/detail/ipc/rings.h), and the operations on it that
-- the control block, the readers and the writer use. `State.Word` has the word itself, and
-- `State.Codec` relates the two.
pub mod Word
pub mod Codec
use sintra.Base.{ℕ, Bool, true, false, not, ◌&&◌, ◌==◌}

pub record ReaderState : Type 0 where
  pub octile : ℕ
  pub present : Bool
  pub copying : Bool
  pub request : Bool
  pub status : ℕ
  pub pending : ℕ

abbrev pub no_pending : ℕ
no_pending = 0xff

abbrev pub inactive : ℕ
inactive = 0

abbrev pub active : ℕ
active = 1

abbrev pub evicted : ℕ
evicted = 2

abbrev pub is_pending : ReaderState → Bool
is_pending s = not (s.pending == no_pending)

abbrev pub transition_allowed : ReaderState → Bool
transition_allowed s = not s.copying && not s.request && not (is_pending s)

abbrev pub set_status : ReaderState → ℕ → ReaderState
set_status s v = record s { status = v }

abbrev pub set_guard : ReaderState → ℕ → Bool → ReaderState
set_guard s o g = record s { octile = o; present = g }

abbrev pub set_pending : ReaderState → ℕ → ReaderState
set_pending s o = record s { pending = o }

abbrev pub drop_pending : ReaderState → ReaderState
drop_pending s = record s { pending = no_pending }

abbrev pub drop_request : ReaderState → ReaderState
drop_request s = record s { request = false }

abbrev pub drop_marks : ReaderState → ReaderState
drop_marks s = record s { copying = false; request = false }

abbrev pub raise_request : ReaderState → ReaderState
raise_request s = record s { request = true }
