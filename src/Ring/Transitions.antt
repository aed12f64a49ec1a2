-- ===== src/Ring/Transitions.antt =====
-- The compare-and-swap transitions of a reader slot's state word in
-- include/sintra/detail/ipc/rings.h, over the decoded state: the guard transitions of `Ring_R`,
-- its copying mark, and the writer's eviction. `none` is the transition that is not made.
use sintra.Base.{
  ℕ, Bool, true, false, not, ◌&&◌, ◌||◌, ◌==◌, ltb, Option, none, some, if◌then◌else◌,
}
use sintra.Ring.State.{
  ReaderState, active, evicted, is_pending, transition_allowed, set_status, set_guard, set_pending,
  drop_pending,
}

-- The guard that a state publishes.
abbrev pub guard_of : ReaderState → Option ℕ
guard_of s = if s.present then some s.octile else none

-- `acquire_guard`: the pending octile is published.
unfoldable pub begin_acquire : Bool → ℕ → ReaderState → Option ReaderState
begin_acquire allow_evicted octile s =
    if not (transition_allowed s)
    then none
    else if s.status == active || (allow_evicted && s.status == evicted)
    then some (set_pending (set_status s active) octile)
    else none

-- `acquire_guard`: after the count is taken, the guard is published; a guard held before becomes
-- pending until its count is given back.
unfoldable pub attach_guard : Option ℕ → ℕ → ReaderState → ReaderState
attach_guard none octile s = drop_pending (set_guard s octile true)
attach_guard (some previous) octile s = set_pending (set_guard s octile true) previous

-- `release_guard`
unfoldable pub begin_release : ReaderState → Option ReaderState
begin_release s =
    if s.status == active && s.present && transition_allowed s
    then some (set_pending (set_guard s s.octile false) s.octile)
    else none

-- `done_reading`
unfoldable pub begin_done : ReaderState → Option ReaderState
begin_done s =
    if s.status == active && s.present
    then some (set_pending (set_guard s s.octile false) s.octile)
    else none

-- `Copy_admission`
pub data CopyAdmission : Type 0 where
  copied retry evicted_reader stopped : CopyAdmission

-- `with_copying_mark` up to the copy; `reading` is `m_reading && !m_stopping`. The mark is set
-- exactly where the copy is admitted.
unfoldable pub admit_copy : Bool → ReaderState → CopyAdmission
admit_copy reading s =
    if not reading
    then stopped
    else if s.status == evicted
    then evicted_reader
    else if not (s.status == active)
    then stopped
    else if not s.present || not (transition_allowed s)
    then retry
    else copied

abbrev pub mark_copying : ReaderState → Bool → ReaderState
mark_copying s b = record s { copying = b }

-- The writer's `eligible`: an active reader whose guard is too far behind, or blocks this octile.
unfoldable pub eligible : ℕ → ℕ → ℕ → ReaderState → Bool
eligible threshold new_octile v s =
    s.status == active && (s.present && (ltb v threshold || s.octile == new_octile))

-- The eviction itself, for a slot with the writer's request.
unfoldable pub evict : ℕ → ℕ → ℕ → ReaderState → Option ReaderState
evict threshold new_octile v s =
    if not (eligible threshold new_octile v s) || not s.request || s.copying || is_pending s
    then none
    else some (set_status (set_guard s s.octile false) evicted)
