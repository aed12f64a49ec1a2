-- ===== src/Tests/Recovery.antt =====
-- A reader of a ring of 64 elements whose guard was taken from it.
use sintra.Base.{refl, ℕ, Bool, List, ◌≡◌, true, false, some, none, [], ◌∷◌}
use sintra.Ring.Access.{octile_of_index}
use sintra.Ring.Layout.{mod_pos_i64, trailing_octile_of}
use sintra.Ring.State.{ReaderState, active, evicted, no_pending}
use sintra.Ring.Reader.{acquired}
use sintra.Ring.Reader.Recovery.{
  Resumption, resume_at_leading_sequence, Recovering, Eviction, after_resume, await_request,
  reattach, handle_eviction, Renewal, settled, renew_guard, after_handling, done_reading_new_data,
}

abbrev guardless : Recovering
guardless = record {
  reader = record {
    num = 64;
    max_trailing = 48;
    index = 0;
    reading = true;
    trailing_octile = 1;
    sequence = 60;
    last_consumed = 60;
  };
  evicted_since_last_wait = false;
  rollbacks = [];
}

abbrev found : Bool → ℕ → ReaderState
found present status = record {
  octile = 6;
  present = present;
  copying = false;
  request = false;
  status = status;
  pending = no_pending;
}

-- The head moves from 100 to 102, in the same octile.
abbrev resumption : Resumption
resumption = record {
  can_continue = true;
  state = found false evicted;
  leading = 100;
  admission = acquired none;
  confirmed = 102;
  released = none;
}

abbrev call : ReaderState → Eviction
call state = record {
  state = state;
  can_continue = true;
  resumptions = resumption ∷ [];
  requests = [];
  admission = acquired none;
}

abbrev renewal : ReaderState → Renewal
renewal state = record {
  can_continue = true;
  evictions = call state ∷ [];
  admission = acquired none;
}

abbrev renewals : List Renewal
renewals = renewal (found false evicted) ∷ renewal (found true active) ∷ []

done_reading_new_data_test :
    let x = done_reading_new_data renewals guardless in
    (x.0 ≡ settled)
    × (x.1.reader.sequence ≡ 102)
    × (x.1.reader.trailing_octile ≡ 6)
    × (x.1.evicted_since_last_wait ≡ true)
unfolding done_reading_new_data handle_eviction after_resume resume_at_leading_sequence
    after_handling renew_guard trailing_octile_of mod_pos_i64 octile_of_index
done_reading_new_data_test = (refl, refl, refl, refl)

-- A reader that lost its guard without an eviction has the old count looked at and takes a guard again.
handle_eviction_test :
    let x = handle_eviction (call (found false active) ∷ []) guardless in
    (x.0 ≡ some false) × (x.1.rollbacks ≡ 1 ∷ []) × (x.1.reader.trailing_octile ≡ 1)
unfolding handle_eviction await_request reattach trailing_octile_of mod_pos_i64 octile_of_index
handle_eviction_test = (refl, refl, refl)
