-- ===== src/Tests/Coordinator.antt =====
-- Process 2 publishes itself and a transceiver for which others wait, and leaves.
use sintra.Base.{
  ℕ, ◌+◌, ◌*◌, ◌^◌, ◌≡◌, ◌≢◌, ◌↔◌, refl, true, false, none, some, List, [], ◌∷◌, mem, arith,
  replicate,
}
use sintra.Base.Maps.{get}
use sintra.Ids.{process_of, decompose_instance, compose_instance, get_process_index}
use sintra.Coordinator.{
  Coordinator, ReaderIdentity, set_draining_state, set_collective_shutdown_state,
  draining_slot_of_index, resolve_instance, is_process_draining,
}
use sintra.Coordinator.Publish.{
  publish_transceiver, may_publish, enter, start_occurrence, true_sequence,
}
use sintra.Coordinator.Retire.{retire}
use sintra.Coordinator.Operations.{Operation, publishes, waits, retires, run}
use sintra.Coordinator.Waiting.{
  wait_in_turn, replied_to, callers, all_deferred, publish_transceiver-answers_waits,
}
use sintra.Coordinator.Outcome.{IsRetirement, retire-IsRetirement}
use sintra.Coordinator.Lifecycle.Candidates.{IsKnown}
use sintra.Coordinator.Lifecycle.Known.{all_known_processes_draining_iff, is_sole_known_process_iff}
use sintra.Coordinator.Consistency.Runs.{IsConsistent}
use sintra.Coordinator.Consistency.Retirement.{run-IsConsistent}
use sintra.Coordinator.Lifecycle.{
  collect_known_process_candidates, all_known_processes_draining, is_sole_known_process,
}

abbrev pub empty : Coordinator
empty = record {
  instance_id_of_assigned_name = [];
  transceiver_registry = [];
  external_attached_processes = [];
  instances_waited = [];
  processes_in_initialization = [];
  delayed_instance_publications = [];
  inflight_joins = [];
  joined_process_branch = [];
  draining_process_states = replicate 128 0;
  collective_shutdown_process_states = replicate 128 0;
  groups = [];
  groups_of_process = [];
}

abbrev pub nobody : ReaderIdentity
nobody = record { custody_identity = 0; process_iid = 0; occurrence = 0 }

-- The instance of process 2, and a transceiver in it.
abbrev process_two : ℕ
process_two = 2 * 2 ^ 56 + 1

abbrev transceiver : ℕ
transceiver = 2 * 2 ^ 56 + 5000

abbrev operations : List Operation
operations =
    publishes 7 process_two 11 nobody
    ∷ waits 3 90 12
    ∷ publishes 8 transceiver 12 nobody
    ∷ retires process_two none transceiver none nobody
    ∷ []

abbrev published_process : Coordinator
published_process = run (publishes 7 process_two 11 nobody ∷ []) empty

empty-IsConsistent : IsConsistent empty
empty-IsConsistent = record {
  to_registry = λ name iid h. absurd (ground (arith, h));
  to_names = λ iid entry h. absurd (ground (arith, h));
  valid = λ name iid h. absurd (ground (arith, h));
  bounded = λ process r h. absurd (ground (arith, h));
}

run-IsConsistent_example : IsConsistent (run operations empty)
run-IsConsistent_example = run-IsConsistent operations empty empty-IsConsistent refl

-- Once it has published itself, the process may publish another instance.
may_publish_test : may_publish transceiver 12 nobody published_process ≡ true
unfolding may_publish publish_transceiver enter start_occurrence true_sequence resolve_instance
    set_draining_state set_collective_shutdown_state draining_slot_of_index get_process_index
    process_of decompose_instance compose_instance
may_publish_test = refl

publish_transceiver-answers_waits_example :
    let waits = wait_in_turn 12 ((3, 90) ∷ (4, 91) ∷ []) published_process in
    let publication = publish_transceiver 8 transceiver 12 nobody waits.1 in
    (answered : List ℕ) × (replied_to publication.0 ≡ some (transceiver, answered, 90))
    × ((x : ℕ) → mem x answered ≡ mem x (callers ((3, 90) ∷ (4, 91) ∷ [])))
    × (all_deferred 90 waits.0 ≡ true)
    × (resolve_instance 12 publication.1 ≡ transceiver)
    × (get publication.1.instances_waited 12 ≡ none)
unfolding may_publish publish_transceiver enter start_occurrence true_sequence resolve_instance
    set_draining_state set_collective_shutdown_state draining_slot_of_index get_process_index
    process_of decompose_instance compose_instance
publish_transceiver-answers_waits_example =
    publish_transceiver-answers_waits 8 transceiver 12 3 90 nobody ((4, 91) ∷ []) published_process
      refl (omega arith) may_publish_test

retire-IsRetirement_example :
    IsRetirement process_two none nobody published_process
      (retire process_two none process_two none nobody published_process)
unfolding may_publish publish_transceiver enter start_occurrence true_sequence resolve_instance
    set_draining_state set_collective_shutdown_state draining_slot_of_index get_process_index
    process_of decompose_instance compose_instance
retire-IsRetirement_example =
    retire-IsRetirement process_two none process_two none nobody published_process (omega arith)
      (omega arith) (omega arith) refl

all_known_processes_draining_test : all_known_processes_draining [] [] published_process ≡ false
unfolding all_known_processes_draining collect_known_process_candidates may_publish
    publish_transceiver enter start_occurrence true_sequence resolve_instance set_draining_state
    is_process_draining set_collective_shutdown_state draining_slot_of_index get_process_index
    process_of decompose_instance compose_instance
all_known_processes_draining_test = refl

all_known_processes_draining_iff_example :
    (all_known_processes_draining [] [] published_process ≡ true) ↔ (
      (x : ℕ)
      → IsKnown [] [] published_process x
      → x ≢ 0
      → is_process_draining x published_process ≡ true)
all_known_processes_draining_iff_example = all_known_processes_draining_iff [] [] published_process

is_sole_known_process_iff_example :
    (is_sole_known_process [] [] process_two published_process ≡ true)
    ↔ ((x : ℕ) → IsKnown [] [] published_process x → x ≢ 0 → x ≡ process_two)
is_sole_known_process_iff_example = is_sole_known_process_iff [] [] process_two published_process
