-- ===== src/Ring/Reader/Recovery.antt =====
-- A reader whose guard was taken from it, include/sintra/detail/ipc/rings.h: `handle_eviction`,
-- `resume_at_leading_sequence` and `done_reading_new_data`. A round of a loop is what it observes of
-- the shared words, with the answers of `acquire_guard` and `release_guard`, which change the words
-- of the guard themselves; what changes here are the fields of the reader.
pub mod Aligned
pub mod Resumed
use sintra.Base.{
  refl, ℕ, ◌≡◌, Bool, true, false, not, ◌&&◌, ◌||◌, ◌==◌, Option, none, some, List, [], ◌∷◌,
  if◌then◌else◌,
}
use sintra.Ring.State.{ReaderState, active, inactive, evicted, transition_allowed}
use sintra.Ring.Layout.{trailing_octile_of}
use sintra.Ring.Reader.{
  Reader, GuardAdmission, acquired, evicted_admission, stopped_admission, retrying, Round,
}

-- A round of `resume_at_leading_sequence`: the heads before and after the admission; `released` is
-- `none` when the guard is not released before the observations end.
pub record Resumption : Type 0 where
  pub can_continue : Bool
  pub state : ReaderState
  pub leading : ℕ
  pub admission : GuardAdmission
  pub confirmed : ℕ
  pub released : Option Bool

abbrev pub octile_at : ℕ → Reader → ℕ
octile_at sequence r = trailing_octile_of r.num r.max_trailing sequence

abbrev pub move_to : ℕ → Reader → Reader
move_to sequence r = record r { sequence = sequence; last_consumed = sequence }

abbrev pub aim_at : ℕ → Reader → Reader
aim_at sequence r = record (move_to sequence r) { trailing_octile = octile_at sequence r }

-- `none` while it still tries.
unfoldable pub resume_at_leading_sequence : List Resumption → Reader → Option Bool × Reader
resume_at_leading_sequence [] r = (none, r)
resume_at_leading_sequence (o ∷ rest) r =
    let denied = resume_at_leading_sequence rest r in
    let aimed = aim_at o.leading r in
    let again = resume_at_leading_sequence rest aimed in
    if not o.can_continue
    then (some false, r)
    else if not (transition_allowed o.state)
    then denied
    else elim o.admission [
      | acquired _ ↦
          if octile_at o.confirmed r == octile_at o.leading r
          then (some true, move_to o.confirmed aimed)
          else elim o.released [ none ↦ (none, aimed) | some _ ↦ again ]
      | evicted_admission ↦ (some false, aimed)
      | stopped_admission ↦ (some false, aimed)
      | retrying ↦ (none, aimed)
    ]

-- The reader, the mark for the next wait, and the octiles whose counts
-- `try_rollback_unpaired_read_access` was asked to give back, the last one first.
pub record Recovering : Type 0 where
  pub reader : Reader
  pub evicted_since_last_wait : Bool
  pub rollbacks : List ℕ

pub data Awaited : Type 0 where
  resolved : Awaited
  given_up : Awaited
  turned_evicted : Awaited
  pending : Awaited

-- The loop that waits until the writer has resolved its request.
unfoldable pub await_request : List Round → ReaderState → Awaited
await_request [] state = if state.request then pending else resolved
await_request (o ∷ rest) state =
    let later = await_request rest o.state in
    if not state.request
    then resolved
    else if not o.can_continue
    then given_up
    else if o.state.status == evicted
    then turned_evicted
    else later

-- What one call of `handle_eviction` observes; a call that finds an eviction while it waits starts
-- again, with the next one of these.
pub record Eviction : Type 0 where
  pub state : ReaderState
  pub can_continue : Bool
  pub resumptions : List Resumption
  pub requests : List Round
  pub admission : GuardAdmission

unfoldable pub after_resume : Option Bool × Reader → Recovering → Option Bool × Recovering
after_resume (none, r) s = (none, record s { reader = r })
after_resume (some ok, r) s =
    (some true, record s { reader = r; evicted_since_last_wait = s.evicted_since_last_wait || ok })

abbrev pub is_retrying : GuardAdmission → Bool
is_retrying retrying = true
is_retrying _ = false

-- A reader without a guard and without an eviction takes one again.
unfoldable pub reattach : GuardAdmission → Recovering → Option Bool × Recovering
reattach admission s = (
  if is_retrying admission then none else some false,
  record s {
    rollbacks = s.reader.trailing_octile ∷ s.rollbacks;
    reader = record (s.reader) { trailing_octile = octile_at s.reader.sequence s.reader };
  },
)

-- `none` while it still waits.
unfoldable pub handle_eviction : List Eviction → Recovering → Option Bool × Recovering
handle_eviction [] s = (none, s)
handle_eviction (o ∷ rest) s =
    let later = handle_eviction rest s in
    if o.state.present || not o.can_continue
    then (some false, s)
    else if o.state.status == evicted
    then after_resume (resume_at_leading_sequence o.resumptions s.reader) s
    else if o.state.status == inactive
    then (some false, s)
    else elim (await_request o.requests o.state) [
      | resolved ↦ reattach o.admission s
      | given_up ↦ (some false, s)
      | turned_evicted ↦ later
      | pending ↦ (none, s)
    ]

-- A round of `done_reading_new_data`.
pub record Renewal : Type 0 where
  pub can_continue : Bool
  pub evictions : List Eviction
  pub admission : GuardAdmission

pub data Renewed : Type 0 where
  settled : Renewed
  stopped : Renewed
  waiting : Renewed

unfoldable pub renew_guard :
    GuardAdmission → Recovering → Renewed × Recovering → Renewed × Recovering
renew_guard admission s later =
    let octile = octile_at s.reader.sequence s.reader in
    if octile == s.reader.trailing_octile then (settled, s) else elim admission [
      | acquired _ ↦ (settled, record s { reader = record (s.reader) { trailing_octile = octile } })
      | evicted_admission ↦ later
      | stopped_admission ↦ (stopped, s)
      | retrying ↦ (waiting, s)
    ]

unfoldable pub after_handling :
    GuardAdmission → Option Bool × Recovering → Renewed × Recovering → Renewed × Recovering
unfolding renew_guard
after_handling admission (none, s) later = (waiting, s)
after_handling admission (some true, s) later = later
after_handling admission (some false, s) later = renew_guard admission s later

unfoldable pub done_reading_new_data : List Renewal → Recovering → Renewed × Recovering
done_reading_new_data [] s = (waiting, s)
done_reading_new_data (o ∷ rest) s =
    let handled = handle_eviction o.evictions s in
    let later = done_reading_new_data rest handled.1 in
    if not o.can_continue then (stopped, s) else after_handling o.admission handled later
