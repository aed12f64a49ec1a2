-- ===== src/Coordinator/Lifecycle.antt =====
-- Draining and shutting down, include/sintra/detail/process/coordinator_impl.h. The watermark of the
-- reply ring, which the calls return, is an argument; `none` is `invalid_sequence`. The message
-- readers and the open invitations enter as lists of process ids.
pub mod Candidates
pub mod Known
use sintra.Base.{
  ℕ, Bool, true, false, not, ◌&&◌, ◌==◌, Option, none, some, List, [], ◌∷◌, ◌++◌, mem,
  if◌then◌else◌,
}
use sintra.Base.Maps.{get}
use sintra.Ids.{process_of, is_valid_process_instance_id}
use sintra.Barrier.{insert, is_empty}
use sintra.Coordinator.{
  Coordinator, Group, PendingPublication, set_draining_state, set_collective_shutdown_state,
  is_process_draining,
}
use sintra.Coordinator.Leaving.{
  PendingCompletion, collect_pending_barrier_completions, finalize_initialization_tracking,
  forget_join,
}

-- `mark_initialization_complete`: the notifications that are sent.
unfoldable pub mark_initialization_complete :
    ℕ → Coordinator → List PendingPublication × Coordinator
unfolding finalize_initialization_tracking
mark_initialization_complete process c =
    finalize_initialization_tracking process
      (forget_join (get c.joined_process_branch process) process c)

-- `begin_process_draining`
unfoldable pub begin_process_draining : ℕ → Coordinator → List PendingCompletion × Coordinator
unfolding set_draining_state collect_pending_barrier_completions
begin_process_draining process c =
    collect_pending_barrier_completions (λ name. false) process false
      (set_draining_state process 1 c)

-- The message that a thread is handling: its sender, and whether it is a call of
-- `begin_collective_shutdown` at the coordinator.
pub record CurrentMessage : Type 0 where
  pub sender_instance_id : ℕ
  pub called_via_rpc : Bool

abbrev pub may_shut_down : Option CurrentMessage → ℕ → ℕ → Bool
may_shut_down none mproc_id process = process == mproc_id
may_shut_down (some m) mproc_id process =
    m.called_via_rpc && process_of m.sender_instance_id == process

-- `begin_collective_shutdown`; `lifecycle` is the test for lifecycle barriers.
unfoldable pub begin_collective_shutdown :
    (ℕ → Bool)
    → Option CurrentMessage
    → ℕ
    → ℕ
    → ℕ
    → Coordinator
    → Option ℕ × List PendingCompletion × Coordinator
unfolding set_collective_shutdown_state collect_pending_barrier_completions
begin_collective_shutdown lifecycle message mproc_id watermark process c =
    if not (is_valid_process_instance_id process && may_shut_down message mproc_id process)
    then (none, [], c)
    else (
      some watermark,
      (collect_pending_barrier_completions lifecycle process false
          (set_collective_shutdown_state process 1 c)).0,
      (collect_pending_barrier_completions lifecycle process false
          (set_collective_shutdown_state process 1 c)).1,
    )

-- `begin_shutdown`, the loop over the attached processes
unfoldable pub drain_attached : List (ℕ × ℕ) → Coordinator → Coordinator
unfolding set_draining_state
drain_attached [] c = c
drain_attached ((process, occurrence) ∷ rest) c =
    drain_attached rest (set_draining_state process 1 c)

abbrev pub keys {ℓ} : {A : Type ℓ} → List (ℕ × A) → List ℕ
keys [] = []
keys ((k, a) ∷ rest) = k ∷ keys rest

abbrev pub values : List (ℕ × ℕ) → List ℕ
values [] = []
values ((k, a) ∷ rest) = a ∷ values rest

abbrev pub members : Option Group → List ℕ
members none = []
members (some g) = g.process_ids

abbrev pub without : List ℕ → List ℕ → List ℕ
without invited [] = []
without invited (x ∷ xs) = if mem x invited then without invited xs else x ∷ without invited xs

-- The name "_sintra_all_processes"
abbrev pub all_processes_group : ℕ
all_processes_group = 1

-- `collect_known_process_candidates_unlocked`
unfoldable pub collect_known_process_candidates : List ℕ → List ℕ → Coordinator → List ℕ
collect_known_process_candidates readers invited c =
    keys c.transceiver_registry
    ++ values c.inflight_joins
    ++ c.processes_in_initialization
    ++ members (get c.groups all_processes_group)
    ++ without invited readers

-- The loop of `all_known_processes_draining_unlocked`
unfoldable pub all_draining : List ℕ → Coordinator → Bool
unfolding is_process_draining
all_draining [] c = true
all_draining (x ∷ xs) c =
    if x == 0
    then all_draining xs c
    else if not (is_process_draining x c)
    then false
    else all_draining xs c

-- `all_known_processes_draining_unlocked`: sorting and dropping duplicates changes no answer.
unfoldable pub all_known_processes_draining : List ℕ → List ℕ → Coordinator → Bool
unfolding collect_known_process_candidates all_draining
all_known_processes_draining readers invited c =
    all_draining (collect_known_process_candidates readers invited c) c

-- The candidates without 0, each once.
abbrev pub distinct_valid : List ℕ → List ℕ
distinct_valid [] = []
distinct_valid (x ∷ xs) =
    let others = distinct_valid xs in if x == 0 then others else insert x others

abbrev pub is_only : ℕ → List ℕ → Bool
is_only self [] = true
is_only self (x ∷ xs) = is_empty xs && x == self

-- `is_sole_known_process_unlocked`
unfoldable pub is_sole_known_process : List ℕ → List ℕ → ℕ → Coordinator → Bool
unfolding collect_known_process_candidates
is_sole_known_process readers invited self c =
    is_only self (distinct_valid (collect_known_process_candidates readers invited c))
