-- ===== src/Ring/Reader.antt =====
-- The reader of include/sintra/detail/ipc/rings.h: the retry loops of `acquire_guard` and
-- `release_guard`, `start_reading`, and the range that `wait_for_new_data` produces where it finds no
-- eviction; `Delivery` has the whole call. A loop is a recursion over what its rounds observe of the
-- shared words; it is still waiting when the observations end. `Protocol` has the same transitions
-- as steps that interleave with the other threads.
pub mod Recovery
pub mod Delivery
pub mod Snapshot
pub mod Stream
pub mod Complete
use sintra.Base.{
  ℕ, zero, suc, ◌+◌, ◌-◌, ◌*◌, ◌/◌, ◌%◌, ◌^◌, max, Bool, true, false, not, ◌&&◌, ◌||◌, ◌==◌, ltb,
  leb, Option, none, some, List, [], ◌∷◌, if◌then◌else◌,
}
use sintra.Ring.State.{ReaderState, active, inactive, evicted}
use sintra.Ring.Control.{Diagnostics, inc}
use sintra.Base.Int.{pos, to_i64, pos_part, ◌-ℤ◌}
use sintra.Ring.Layout.{mod_pos_i64, mod_u64, trailing_octile_of}
use sintra.Ring.Transitions.{guard_of, begin_acquire, begin_release}

-- The fields of `Ring_R`; `sequence` is the slot's `m_reading_sequence`, `num` is
-- `m_num_elements` and `max_trailing` is `m_max_trailing_elements`.
pub record Reader : Type 0 where
  pub num : ℕ
  pub max_trailing : ℕ
  pub index : ℕ
  pub reading : Bool
  pub trailing_octile : ℕ
  pub sequence : ℕ
  pub last_consumed : ℕ

-- `Guard_admission`. An admission carries the guard held before.
pub data GuardAdmission : Type 0 where
  acquired : (previous : Option ℕ) → GuardAdmission
  evicted_admission : GuardAdmission
  stopped_admission : GuardAdmission
  retrying : GuardAdmission

-- A round of a loop: `read_can_continue`, and the word that the update finds.
pub record Round : Type 0 where
  pub can_continue : Bool
  pub state : ReaderState

unfoldable pub acquire_guard : Bool → ℕ → List Round → GuardAdmission
unfolding begin_acquire
acquire_guard allow_evicted octile [] = retrying
acquire_guard allow_evicted octile (r ∷ rest) =
    let later = acquire_guard allow_evicted octile rest in
    if not r.can_continue
    then stopped_admission
    else elim (begin_acquire allow_evicted octile r.state) [
      | some _ ↦ acquired (guard_of r.state)
      | none ↦
          if r.state.status == inactive
          then stopped_admission
          else if not allow_evicted && r.state.status == evicted
          then evicted_admission
          else later
    ]

-- `none` while it still waits.
unfoldable pub release_guard : List Round → Option Bool
unfolding begin_release
release_guard [] = none
release_guard (r ∷ rest) =
    let later = release_guard rest in
    if not r.can_continue then some false else elim (begin_release r.state) [
      | some _ ↦ some true
      | none ↦ if not (r.state.status == active) || not r.state.present then some false else later
    ]

-- A round of `start_reading`: the head before the admission and the head after it, what the
-- admission answers, the slot's status after it, and whether the guard could be released.
pub record Attempt : Type 0 where
  pub leading : ℕ
  pub admission : GuardAdmission
  pub confirmed : ℕ
  pub status : ℕ
  pub released : Bool

-- `Range`: the index of its first element and the number of elements.
pub data ReadResult : Type 0 where
  range : (first : ℕ) (count : ℕ) → ReadResult
  empty_range : ReadResult
  logic_error : ReadResult
  ring_reader_evicted : ReadResult
  still_waiting : ReadResult

abbrev pub stop_reading : Reader → Reader
stop_reading r = record r { reading = false }

-- `std::max<int64_t>(0, int64_t(confirmed) - int64_t(num_trailing_elements))`
abbrev pub range_first : ℕ → ℕ → ℕ
range_first confirmed num_trailing_elements =
    pos_part (to_i64 confirmed -ℤ to_i64 num_trailing_elements)

-- The length is the unsigned difference of the head and the first sequence.
unfoldable pub snapshot : ℕ → Attempt → Reader → ReadResult × Reader
unfolding mod_pos_i64
snapshot n a r =
    let first = range_first a.confirmed n in
    (
      range (mod_pos_i64 (pos first) r.num) ((a.confirmed + 2 ^ 64 - first) % 2 ^ 64),
      record r {
        trailing_octile = trailing_octile_of r.num r.max_trailing a.leading;
        sequence = a.confirmed;
        last_consumed = a.confirmed;
      },
    )

unfoldable pub confirm : ℕ → Attempt → Reader → ReadResult × Reader → ReadResult × Reader
unfolding snapshot
confirm n a r later =
    let trailing = trailing_octile_of r.num r.max_trailing in
    if trailing a.confirmed == trailing a.leading
    then if a.status == evicted then (ring_reader_evicted, stop_reading r) else snapshot n a r
    else if a.released
    then later
    else if a.status == evicted
    then (ring_reader_evicted, stop_reading r)
    else (empty_range, stop_reading r)

unfoldable pub attempts : ℕ → List Attempt → Reader → ReadResult × Reader
unfolding confirm
attempts n [] r = (still_waiting, r)
attempts n (a ∷ rest) r = elim a.admission [
  | acquired _ ↦ confirm n a r (attempts n rest r)
  | evicted_admission ↦ (ring_reader_evicted, stop_reading r)
  | stopped_admission ↦ (empty_range, stop_reading r)
  | retrying ↦ (still_waiting, r)
]

-- `start_reading(num_trailing_elements)`; `stopping` is `m_stopping`.
unfoldable pub start_reading : Bool → ℕ → List Attempt → Reader → ReadResult × Reader
unfolding attempts
start_reading stopping n observed r =
    if r.reading
    then (logic_error, r)
    else if stopping
    then (empty_range, r)
    else attempts n observed (record r { reading = true })

-- `update_max_relaxed`
abbrev pub raise_to : ℕ → ℕ → ℕ
raise_to current value = if ltb current value then value else current

abbrev pub count_regression : Bool → Diagnostics → Diagnostics
count_regression b d =
    if b then record d { reader_sequence_regressions = inc d.reader_sequence_regressions } else d

-- The diagnostics of a reader that is more than the ring's length behind.
abbrev pub count_overflow : ℕ → ℕ → Reader → Diagnostics → Diagnostics
count_overflow leading full_lag r d = record d {
  reader_lag_overflow_count = inc d.reader_lag_overflow_count;
  worst_overflow_lag = raise_to d.worst_overflow_lag full_lag;
  last_overflow_reader_index = r.index;
  last_overflow_reader_sequence = r.sequence;
  last_overflow_leading_sequence = leading;
  last_overflow_last_consumed = r.last_consumed;
}

abbrev pub full_lag_of : ℕ → Reader → ℕ
full_lag_of leading r = if leb r.sequence leading then leading - r.sequence else 0

-- `num_range_elements`: what is new, at most the ring.
abbrev pub delivered : ℕ → Reader → ℕ
delivered leading r = if ltb r.num (full_lag_of leading r) then r.num else full_lag_of leading r

-- The end of `produce_range`: `n` elements are handed out from the reader's sequence on.
unfoldable pub take_range : ℕ → Reader → Diagnostics → Option (ℕ × ℕ) × Reader × Diagnostics
take_range n r d = if n == 0 then (none, r, d) else (
  some (mod_u64 r.sequence r.num, n),
  record r { sequence = (r.sequence + n) % 2 ^ 64; last_consumed = (r.sequence + n) % 2 ^ 64 },
  d,
)

unfoldable pub note_lag : ℕ → Reader → Diagnostics → Diagnostics
note_lag leading r d =
    let full_lag = full_lag_of leading r in
    let d1 = count_regression (ltb leading r.sequence) d in
    let d2 = record d1 { max_reader_lag = raise_to d1.max_reader_lag full_lag } in
    let d3 = if ltb r.num full_lag then count_overflow leading full_lag r d2 else d2 in
    count_regression (ltb r.sequence r.last_consumed) d3
