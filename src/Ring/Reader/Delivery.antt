-- ===== src/Ring/Reader/Delivery.antt =====
-- A reader that is handed what the writer published, include/sintra/detail/ipc/rings.h: `produce_range`
-- in `wait_for_new_data`, with the recovery from an eviction that it begins with.
use sintra.Base.{ℕ, Bool, true, false, not, Option, none, some, List, [], ◌∷◌, if◌then◌else◌}
use sintra.Ring.Control.{Diagnostics}
use sintra.Ring.Reader.{take_range, note_lag, delivered}
use sintra.Ring.Reader.Recovery.{Recovering, Eviction, handle_eviction}

-- What a call observes: the evictions that `handle_eviction` looks at, `read_can_continue` after it,
-- and the head, which a call that returns before does not read.
pub record Call : Type 0 where
  pub evictions : List Eviction
  pub can_continue : Bool
  pub leading : ℕ

-- How a call ends: with a range, by its first index and its length; with the empty range, where the
-- reader may not go on or nothing is new; with the empty range after an eviction, where the reader
-- stands at a new sequence; or it still waits.
pub data Delivery : Type 0 where
  handed : (first : ℕ) (count : ℕ) → Delivery
  nothing : Delivery
  recovered : (sequence : ℕ) → Delivery
  unfinished : Delivery

abbrev pub delivery_of : Option (ℕ × ℕ) → Delivery
delivery_of none = nothing
delivery_of (some (first, count)) = handed first count

-- `produce_range`, once the reader may go on.
unfoldable pub deliver : ℕ → Recovering → Diagnostics → Delivery × Recovering × Diagnostics
unfolding take_range note_lag
deliver leading s d =
    let taken = take_range (delivered leading s.reader) s.reader (note_lag leading s.reader d) in
    (delivery_of taken.0, record s { reader = taken.1 }, taken.2)

unfoldable pub after_eviction :
    Call → Option Bool × Recovering → Diagnostics → Delivery × Recovering × Diagnostics
unfolding deliver
after_eviction o (none, s) d = (unfinished, s, d)
after_eviction o (some true, s) d = (recovered s.reader.sequence, s, d)
after_eviction o (some false, s) d =
    if not o.can_continue then (nothing, s, d) else deliver o.leading s d

-- `produce_range`
unfoldable pub produce_range : Call → Recovering → Diagnostics → Delivery × Recovering × Diagnostics
unfolding after_eviction handle_eviction
produce_range o s d = after_eviction o (handle_eviction o.evictions s) d

-- The calls after one.
abbrev pub goes_on : Delivery → Recovering → List Delivery × Recovering → List Delivery × Recovering
goes_on unfinished s later = (unfinished ∷ [], s)
goes_on nothing s later = (nothing ∷ later.0, later.1)
goes_on (handed first count) s later = (handed first count ∷ later.0, later.1)
goes_on (recovered sequence) s later = (recovered sequence ∷ later.0, later.1)

-- The calls of a reader, up to one that still waits.
unfoldable pub stream : List Call → Recovering → Diagnostics → List Delivery × Recovering
unfolding produce_range
stream [] s d = ([], s)
stream (o ∷ rest) s d =
    let later = stream rest (produce_range o s d).1 (produce_range o s d).2 in
    goes_on (produce_range o s d).0 (produce_range o s d).1 later
