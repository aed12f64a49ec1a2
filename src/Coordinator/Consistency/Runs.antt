-- ===== src/Coordinator/Consistency/Runs.antt =====
-- The operations of the coordinator keep its names and its registry in agreement.
use sintra.Base.{
  ℕ, ◌<◌, ◌≡◌, ◌≢◌, refl, ap, ◌∙◌, Bool, true, false, ◌==◌, Option, none, some, List, length, arith,
  Option-cases, Bool-cases, inl, inr,
}
use sintra.Base.Maps.{get, put, remove, remove_where}
use sintra.Ids.{process_of}
use sintra.Coordinator.{
  Coordinator, ReaderIdentity, Publication, resolve_instance, registry_of, put_entry,
  set_draining_state, set_collective_shutdown_state,
}
use sintra.Coordinator.Publish.{
  max_public_transceivers_per_proc, may_enter, may_publish, start_occurrence, enter, true_sequence,
  publish_transceiver, wait_for_instance,
}
use sintra.Coordinator.Leaving.{finalize_initialization_tracking, forget_join}
use sintra.Coordinator.Retire.{depart, forget_process}
use sintra.Coordinator.Consistency.{Names, Registry, Consistent, Consistent-put}

abbrev pub IsConsistent : Coordinator → Type 0
IsConsistent c = Consistent c.instance_id_of_assigned_name c.transceiver_registry

-- A name that resolves to no instance is no name.
pub resolve_instance-free :
    (name : ℕ) (c : Coordinator)
    → IsConsistent c
    → resolve_instance name c ≡ 0
    → get c.instance_id_of_assigned_name name ≡ none
unfolding resolve_instance
resolve_instance-free name c h e = elim (Option-cases (get c.instance_id_of_assigned_name name)) [
  | inl k ↦ k
  | inr (iid, k) ↦ absurd (h.valid name iid k (ground (arith, e, k)))
]

pub may_enter-absent :
    (r : Option (List (ℕ × Publication))) (iid process : ℕ)
    → may_enter r iid process ≡ true
    → get (registry_of r) iid ≡ none
may_enter-absent none iid process h = refl
may_enter-absent (some r) iid process h = elim (Option-cases (get r iid)) [
  | inl k ↦ k
  | inr (e, k) ↦ absurd (ground (arith, h, k))
]

pub may_enter-room :
    (r : Option (List (ℕ × Publication))) (iid process : ℕ)
    → may_enter r iid process ≡ true
    → length (registry_of r) < max_public_transceivers_per_proc
may_enter-room none iid process h = omega arith
may_enter-room (some r) iid process h = ground (arith, h)

-- The tables that entering a publication leaves.
start_occurrence-tables :
    (r : Option (List (ℕ × Publication))) (process : ℕ) (c : Coordinator)
    → ((start_occurrence r process c).instance_id_of_assigned_name ≡ c.instance_id_of_assigned_name)
      × ((start_occurrence r process c).transceiver_registry ≡ c.transceiver_registry)
unfolding start_occurrence set_draining_state set_collective_shutdown_state
start_occurrence-tables none process c = (refl, refl)
start_occurrence-tables (some r) process c = (refl, refl)

pub enter-tables :
    (e : Publication) (iid : ℕ) (c : Coordinator)
    → ((enter e iid c).instance_id_of_assigned_name ≡ put c.instance_id_of_assigned_name e.name iid)
      × ((enter e iid c).transceiver_registry
          ≡ put_entry c.transceiver_registry (process_of iid) iid e)
unfolding enter
enter-tables e iid c =
    start_occurrence-tables (get c.transceiver_registry (process_of iid)) (process_of iid) _

pub Consistent-tables :
    (names names' : Names) (registry registry' : Registry)
    → Consistent names registry
    → (names' ≡ names) × (registry' ≡ registry)
    → Consistent names' registry'
Consistent-tables names names' registry registry' h e = rw (e.0, e.1) h

pub publish_transceiver-IsConsistent :
    (tid iid name : ℕ) (identity : ReaderIdentity) (c : Coordinator)
    → IsConsistent c
    → iid ≢ 0
    → IsConsistent (publish_transceiver tid iid name identity c).1
unfolding publish_transceiver true_sequence may_publish
publish_transceiver-IsConsistent tid iid name identity c h v =
    go (may_publish iid name identity c) refl
  where
    entry : Publication
    entry = record { type_id = tid; name = name; reader_identity = identity }

    entered : may_publish iid name identity c ≡ true → IsConsistent (enter entry iid c)
    entered m =
        Consistent-tables _ _ _ _
          (Consistent-put c.instance_id_of_assigned_name c.transceiver_registry iid entry h v
            (resolve_instance-free name c h (ground (arith, m)))
            (may_enter-absent (get c.transceiver_registry (process_of iid)) iid (process_of iid)
              (ground (arith, m)))
            (may_enter-room (get c.transceiver_registry (process_of iid)) iid (process_of iid)
              (ground (arith, m))))
          (enter-tables entry iid c)

    go :
        (b : Bool)
        → may_publish iid name identity c ≡ b
        → IsConsistent (publish_transceiver tid iid name identity c).1
    go true m = rw (publish_transceiver, m) (entered m)
    go false m = rw (publish_transceiver, m) h

pub wait_for_instance-IsConsistent :
    (caller fresh name : ℕ) (c : Coordinator)
    → IsConsistent c
    → IsConsistent (wait_for_instance caller fresh name c).1
unfolding wait_for_instance
wait_for_instance-IsConsistent caller fresh name c h =
    elim (Bool-cases (resolve_instance name c == 0)) [
      | inl e ↦ rw (e, wait_for_instance) h
      | inr e ↦ rw (e, wait_for_instance) h
    ]

-- The other parts of the state change on their own.
pub finalize-tables :
    (process : ℕ) (c : Coordinator)
    → ((finalize_initialization_tracking process c).1.instance_id_of_assigned_name
        ≡ c.instance_id_of_assigned_name)
      × ((finalize_initialization_tracking process c).1.transceiver_registry
          ≡ c.transceiver_registry)
unfolding finalize_initialization_tracking
finalize-tables process c = ground arith

pub forget_join-tables :
    (branch : Option ℕ) (process : ℕ) (c : Coordinator)
    → ((forget_join branch process c).instance_id_of_assigned_name ≡ c.instance_id_of_assigned_name)
      × ((forget_join branch process c).transceiver_registry ≡ c.transceiver_registry)
forget_join-tables none process c = (refl, refl)
forget_join-tables (some b) process c = (refl, refl)

pub depart-tables :
    (process : ℕ) (c : Coordinator)
    → ((depart process c).1.instance_id_of_assigned_name
        ≡ (forget_process process c).instance_id_of_assigned_name)
      × ((depart process c).1.transceiver_registry
          ≡ (forget_process process c).transceiver_registry)
unfolding depart forget_process
depart-tables process c =
    let f = finalize-tables process (forget_join (get c.joined_process_branch process) process c) in
    let j = forget_join-tables (get c.joined_process_branch process) process c in
    (
      ap (remove_where (λ iid. process_of iid == process)) (f.0 ∙ j.0),
      ap (λ r. remove r process) (f.1 ∙ j.1),
    )
