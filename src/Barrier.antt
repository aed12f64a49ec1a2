-- ===== src/Barrier.antt =====
-- The barriers of a process group, include/sintra/detail/process/coordinator_impl.h: the parts of
-- `Process_group::barrier` and `drop_from_inflight_barriers` between taking a lock and releasing
-- it, for one barrier. The map of barriers enters as the entry under the barrier's name; whether a
-- process is draining or in collective shutdown, whether a name belongs to the lifecycle, and the
-- id that `make_instance_id` gives are arguments. The messages that carry the replies are left
-- out: an arrival is answered by whom it completes, or by the deferral that it leaves.
pub mod Completion
use sintra.Base.{
  ℕ, Bool, true, false, not, ◌&&◌, ◌||◌, ◌==◌, Option, none, some, List, [], ◌∷◌, ◌++◌, mem,
  if◌then◌else◌,
}

-- `Barrier`
pub record Barrier : Type 0 where
  pub processes_pending : List ℕ
  pub processes_arrived : List ℕ
  pub mode_tag : ℕ
  pub common_function_iid : ℕ

-- `unordered_set::erase`
abbrev pub erase : ℕ → List ℕ → List ℕ
erase p [] = []
erase p (x ∷ xs) = if x == p then erase p xs else x ∷ erase p xs

-- `unordered_set::insert`
abbrev pub insert : ℕ → List ℕ → List ℕ
insert p xs = if mem p xs then xs else p ∷ xs

abbrev pub is_empty : List ℕ → Bool
is_empty [] = true
is_empty (x ∷ xs) = false

-- How a call of `barrier` ends: the two exceptions, a deferral, or the completion with the other
-- processes that it answers.
pub data Arrival : Type 0 where
  not_a_member mode_mismatch : Arrival
  deferred : (common_function_iid : ℕ) → Arrival
  completed : (common_function_iid : ℕ) (additional_pids : List ℕ) → Arrival

-- The processes that a barrier waits for: the members that are not absent. The coordinator, which
-- knows who is absent, is there.
abbrev pub present_of : (ℕ → Bool) → (ℕ → Bool) → Bool → List ℕ → List ℕ
present_of draining in_collective_shutdown user_barrier [] = []
present_of draining in_collective_shutdown user_barrier (x ∷ xs) =
    if draining x || (user_barrier && in_collective_shutdown x)
    then present_of draining in_collective_shutdown user_barrier xs
    else x ∷ present_of draining in_collective_shutdown user_barrier xs

-- The caller has arrived.
unfoldable pub record_arrival : ℕ → Barrier → Arrival × Option Barrier
record_arrival caller b =
    let pending = erase caller b.processes_pending in
    let arrived = insert caller b.processes_arrived in
    let after = record b { processes_pending = pending; processes_arrived = arrived } in
    if is_empty pending
    then (completed b.common_function_iid (erase caller arrived), some after)
    else (deferred b.common_function_iid, some after)

-- A barrier that waits for nobody starts anew.
unfoldable pub join : List ℕ → ℕ → ℕ → ℕ → Barrier → Arrival × Option Barrier
unfolding record_arrival
join present fresh mode caller b =
    if is_empty b.processes_pending
    then record_arrival caller (record {
      processes_pending = present;
      processes_arrived = [];
      mode_tag = mode;
      common_function_iid = fresh;
    })
    else if b.mode_tag == mode
    then record_arrival caller b
    else (mode_mismatch, some b)

abbrev pub no_barrier : Barrier
no_barrier = record {
  processes_pending = [];
  processes_arrived = [];
  mode_tag = 0;
  common_function_iid = 0;
}

-- `barrier`, up to the release of the barrier's lock.
unfoldable pub barrier :
    (ℕ → Bool) → (ℕ → Bool) → Bool → List ℕ → ℕ → ℕ → ℕ → Option Barrier → Arrival × Option Barrier
unfolding join
barrier draining in_collective_shutdown lifecycle members fresh mode caller entry =
    let present = present_of draining in_collective_shutdown (not lifecycle) members in
    if not (mem caller members) then (not_a_member, entry) else elim entry [
      | none ↦ join present fresh mode caller no_barrier
      | some b ↦ join present fresh mode caller b
    ]

-- `barrier`, after a completion: the entry is erased unless it was started anew meanwhile. A start
-- takes an id of its own, so the id tells the objects apart too.
unfoldable pub finish : ℕ → Option Barrier → Option Barrier
finish common_function_iid none = none
finish common_function_iid (some b) =
    if b.common_function_iid == common_function_iid then none else some b

-- `Barrier_completion`
pub record BarrierCompletion : Type 0 where
  pub common_function_iid : ℕ
  pub recipients : List ℕ

-- `drop_from_inflight_barriers` for one barrier: the completion, and the entry after it.
unfoldable pub drop : ℕ → Barrier → Option BarrierCompletion × Option Barrier
drop process b =
    let pending = erase process b.processes_pending in
    let arrived = erase process b.processes_arrived in
    let touched_arrived = mem process b.processes_arrived in
    if not (mem process b.processes_pending) && not touched_arrived
    then (none, some b)
    else if not (is_empty pending)
    then (none, some (record b { processes_pending = pending; processes_arrived = arrived }))
    else (
      some (record {
        common_function_iid = b.common_function_iid;
        recipients = if touched_arrived then arrived ++ process ∷ [] else arrived;
      }),
      none,
    )

-- What happens to a barrier in progress: a process calls it, or is dropped from it.
pub data Event : Type 0 where
  arrives leaves : (process : ℕ) → Event

-- The rest of a run, after an arrival.
abbrev pub after_arrival {ℓ} :
    {A : Type ℓ} → (List ℕ → Option A) → (Barrier → Option A) → Arrival × Option Barrier → Option A
after_arrival stop go (completed iid others, entry) = stop others
after_arrival stop go (deferred iid, some b) = go b
after_arrival stop go _ = none

abbrev pub after_drop {ℓ} :
    {A : Type ℓ}
    → (List ℕ → Option A)
    → (Barrier → Option A)
    → Option BarrierCompletion × Option Barrier
    → Option A
after_drop stop go (some c, entry) = stop c.recipients
after_drop stop go (none, some b) = go b
after_drop stop go (none, none) = none

-- Events at a barrier, up to its first completion: the processes that are answered then, the last
-- caller included, and the events that are left. `present` and `fresh` are what a barrier that
-- started anew would take.
unfoldable pub run_barrier : List ℕ → ℕ → ℕ → List Event → Barrier → Option (List ℕ × List Event)
run_barrier present fresh mode [] b = none
run_barrier present fresh mode (arrives p ∷ rest) b =
    after_arrival (λ others. some (p ∷ others, rest)) (λ b'. run_barrier present fresh mode rest b')
      (join present fresh mode p b)
run_barrier present fresh mode (leaves p ∷ rest) b =
    after_drop (λ others. some (others, rest)) (λ b'. run_barrier present fresh mode rest b')
      (drop p b)
