-- ===== src/Coordinator/Leaving.antt =====
-- What a process that leaves takes out of the groups and out of the initialization tracking,
-- include/sintra/detail/process/coordinator_impl.h. `spared` is the test for the barrier names that
-- the scope of a call leaves alone.
use sintra.Base.{ℕ, Bool, ◌==◌, Option, none, some, List, [], ◌∷◌, if◌then◌else◌}
use sintra.Base.Maps.{remove}
use sintra.Ids.{process_of}
use sintra.Barrier.{Barrier, BarrierCompletion, drop, erase, is_empty}
use sintra.Coordinator.{Coordinator, PendingPublication, Group}

-- An entry that a barrier leaves behind.
abbrev pub keep_barrier : Option Barrier → ℕ → List (ℕ × Barrier) → List (ℕ × Barrier)
keep_barrier none name rest = rest
keep_barrier (some b) name rest = (name, b) ∷ rest

abbrev pub add_completion :
    Option BarrierCompletion → List BarrierCompletion → List BarrierCompletion
add_completion none rest = rest
add_completion (some c) rest = c ∷ rest

-- `drop_from_inflight_barriers` over the barriers of a group; `spared` is the test for the names
-- that the scope leaves alone.
unfoldable pub drop_from_inflight_barriers :
    (ℕ → Bool) → ℕ → List (ℕ × Barrier) → List BarrierCompletion × List (ℕ × Barrier)
unfolding drop
drop_from_inflight_barriers spared process [] = ([], [])
drop_from_inflight_barriers spared process ((name, b) ∷ rest) =
    let after = drop_from_inflight_barriers spared process rest in
    if spared name
    then (after.0, (name, b) ∷ after.1)
    else (add_completion (drop process b).0 after.0, keep_barrier (drop process b).1 name after.1)

-- `Pending_completion`
pub record PendingCompletion : Type 0 where
  pub group_name : ℕ
  pub completions : List BarrierCompletion

abbrev pub pend : List BarrierCompletion → ℕ → List PendingCompletion → List PendingCompletion
pend [] name rest = rest
pend (x ∷ xs) name rest = record { group_name = name; completions = x ∷ xs } ∷ rest

-- `Process_group::remove_process`
abbrev pub remove_process : ℕ → Group → Group
remove_process process g = record g { process_ids = erase process g.process_ids }

-- The loop of `collect_pending_barrier_completions_unlocked` over the groups
unfoldable pub collect_from_groups :
    (ℕ → Bool) → ℕ → Bool → List (ℕ × Group) → List PendingCompletion × List (ℕ × Group)
unfolding drop_from_inflight_barriers
collect_from_groups spared process remove_it [] = ([], [])
collect_from_groups spared process remove_it ((name, g) ∷ rest) =
    let after = collect_from_groups spared process remove_it rest in
    let dropped = drop_from_inflight_barriers spared process g.barriers in
    let g' = record g { barriers = dropped.1 } in
    (
      pend dropped.0 name after.0,
      (name, if remove_it then remove_process process g' else g') ∷ after.1,
    )

-- `collect_pending_barrier_completions_unlocked`
unfoldable pub collect_pending_barrier_completions :
    (ℕ → Bool) → ℕ → Bool → Coordinator → List PendingCompletion × Coordinator
unfolding collect_from_groups
collect_pending_barrier_completions spared process remove_it c =
    let collected = collect_from_groups spared process remove_it c.groups in
    (
      collected.0,
      record c {
        groups = collected.1;
        groups_of_process =
            if remove_it then remove c.groups_of_process process else c.groups_of_process;
      },
    )

-- `finalize_initialization_tracking`: the notifications that need not wait any longer.
unfoldable pub finalize_initialization_tracking :
    ℕ → Coordinator → List PendingPublication × Coordinator
finalize_initialization_tracking process c =
    let waiting =
      if process == 0
      then c.processes_in_initialization
      else erase process c.processes_in_initialization in
    if is_empty waiting
    then (
      c.delayed_instance_publications,
      record c { processes_in_initialization = waiting; delayed_instance_publications = [] },
    )
    else ([], record c { processes_in_initialization = waiting })

-- Without the notifications of a process that is gone.
abbrev pub drop_notifications : ℕ → List PendingPublication → List PendingPublication
drop_notifications process [] = []
drop_notifications process (x ∷ xs) =
    if process_of x.instance_id == process
    then drop_notifications process xs
    else x ∷ drop_notifications process xs

-- The join of a process that ends.
abbrev pub forget_join : Option ℕ → ℕ → Coordinator → Coordinator
forget_join none process c = c
forget_join (some branch) process c = record c {
  inflight_joins = remove c.inflight_joins branch;
  joined_process_branch = remove c.joined_process_branch process;
}
