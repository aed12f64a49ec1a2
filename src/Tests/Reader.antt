-- ===== src/Tests/Reader.antt =====
-- A reader of a ring of 64 elements that is handed what the writer publishes.
use sintra.Base.{
  ℕ, Bool, ◌+◌, ◌-◌, ◌/◌, ◌%◌, ◌*◌, ◌≡◌, refl, true, false, arith, none, List, [], ◌∷◌,
}
use sintra.Ring.Control.{Diagnostics}
use sintra.Ring.Access.{octile_of_index}
use sintra.Ring.Layout.{mod_pos_i64, trailing_octile_of}
use sintra.Ring.Layout.Octiles.{trailing_octile_lem}
use sintra.Ring.State.{ReaderState, active, evicted, no_pending}
use sintra.Ring.Reader.{
  Reader, acquired, Attempt, range, start_reading, attempts, confirm, snapshot, take_range,
  note_lag,
}
use sintra.Ring.Reader.Recovery.{
  Recovering, handle_eviction, after_resume, resume_at_leading_sequence,
}
use sintra.Ring.Reader.Delivery.{
  Call, handed, recovered, stream, produce_range, after_eviction, deliver,
}

abbrev pub fresh : Diagnostics
fresh = record {
  max_reader_lag = 0;
  worst_overflow_lag = 0;
  reader_lag_overflow_count = 0;
  reader_sequence_regressions = 0;
  reader_eviction_count = 0;
  last_evicted_reader_index = 0;
  last_evicted_reader_sequence = 0;
  last_evicted_writer_sequence = 0;
  last_evicted_reader_octile = 0;
  last_overflow_reader_index = 0;
  last_overflow_reader_sequence = 0;
  last_overflow_leading_sequence = 0;
  last_overflow_last_consumed = 0;
  stale_guard_clear_count = 0;
  guard_rollback_attempt_count = 0;
  guard_rollback_success_count = 0;
  guard_accounting_mismatch_count = 0;
}

abbrev at_hundred : Reader
at_hundred = record {
  num = 64;
  max_trailing = 48;
  index = 0;
  reading = false;
  trailing_octile = 0;
  sequence = 100;
  last_consumed = 100;
}

abbrev recovering : Recovering
recovering = record { reader = at_hundred; evicted_since_last_wait = false; rollbacks = [] }

abbrev slot : Bool → ℕ → ReaderState
slot present status = record {
  octile = 6;
  present = present;
  copying = false;
  request = false;
  status = status;
  pending = no_pending;
}

-- A call that finds the guard in place.
abbrev guarded : ℕ → Call
guarded leading = record {
  evictions =
      record {
        state = slot true active;
        can_continue = true;
        resumptions = [];
        requests = [];
        admission = acquired none;
      }
      ∷ [];
  can_continue = true;
  leading = leading;
}

-- A call that finds an eviction and resumes at the head 140.
abbrev evicting : Call
evicting = record {
  evictions =
      record {
        state = slot false evicted;
        can_continue = true;
        resumptions =
            record {
              can_continue = true;
              state = slot false evicted;
              leading = 139;
              admission = acquired none;
              confirmed = 140;
              released = none;
            }
            ∷ [];
        requests = [];
        admission = acquired none;
      }
      ∷ [];
  can_continue = true;
  leading = 140;
}

abbrev guarded_calls : List Call
guarded_calls = guarded 110 ∷ guarded 110 ∷ guarded 150 ∷ []

abbrev evicting_calls : List Call
evicting_calls = guarded 110 ∷ evicting ∷ guarded 150 ∷ []

stream_test :
    (stream evicting_calls recovering fresh).0 ≡ handed 36 10 ∷ recovered 140 ∷ handed 12 10 ∷ []
unfolding stream produce_range after_eviction deliver take_range note_lag handle_eviction
    after_resume resume_at_leading_sequence trailing_octile_of mod_pos_i64 octile_of_index
stream_test = refl

-- A lag of 90 elements is more than the ring holds.
overflow_test : (stream (guarded 190 ∷ []) recovering fresh).0 ≡ handed 36 64 ∷ []
unfolding stream produce_range after_eviction deliver take_range note_lag handle_eviction
overflow_test = refl

abbrev crossed : Attempt
crossed = record {
  leading = 100;
  admission = acquired none;
  confirmed = 110;
  status = 1;
  released = true;
}

abbrev settled : Attempt
settled = record {
  leading = 110;
  admission = acquired none;
  confirmed = 111;
  status = 1;
  released = true;
}

start_reading_test : (start_reading false 20 (crossed ∷ settled ∷ []) at_hundred).0 ≡ range 27 20
unfolding start_reading attempts confirm snapshot trailing_octile_of mod_pos_i64 octile_of_index
start_reading_test = refl

trailing_octile_example : trailing_octile_of (8 * 8) 48 20 ≡ (20 + 8 * 8 - 48) / 8 % 8
trailing_octile_example =
    trailing_octile_lem 8 48 20 (omega arith) (omega arith) (omega arith) (omega arith)
