-- ===== src/Coordinator/Publish.antt =====
-- Names of instances, include/sintra/detail/process/coordinator_impl.h: publishing one, and waiting
-- for one. A message to the waiters is the answer that carries them; `emit_global` is the
-- publication that is told to everybody.
use sintra.Base.{
  ℕ, Bool, false, not, ◌&&◌, ◌||◌, ◌==◌, leb, Option, none, some, List, [], ◌∷◌, ◌++◌, length,
  if◌then◌else◌,
}
use sintra.Base.Maps.{get, put, remove, has, or_else}
use sintra.Ids.{process_of}
use sintra.Barrier.{insert, is_empty}
use sintra.Coordinator.{
  Coordinator, ReaderIdentity, Publication, PendingPublication, Waited, is_external_process,
  resolve_instance, registry_of, same_identity, put_entry, set_draining_state,
  set_collective_shutdown_state,
}

abbrev pub max_public_transceivers_per_proc : ℕ
max_public_transceivers_per_proc = 65535

-- How a publication ends: refused, or with the deferred replies that the reply carries and the
-- notification that is sent at once.
pub data Published : Type 0 where
  refused : Published
  published :
      (iid : ℕ) (additional_piids : List ℕ) (common_function_iid : ℕ)
      (emitted : Option PendingPublication)
      → Published

abbrev pub is_occurrence : Option ℕ → ℕ → Bool
is_occurrence none occurrence = false
is_occurrence (some attached) occurrence = attached == occurrence

-- Room in the registry of a known process; a process is introduced by its own instance.
abbrev pub may_enter : Option (List (ℕ × Publication)) → ℕ → ℕ → Bool
may_enter none iid process = iid == process
may_enter (some registry) iid process =
    not (leb max_public_transceivers_per_proc (length registry) || has registry iid)

-- The guards of `publish_transceiver_with_reader_identity`
unfoldable pub may_publish : ℕ → ℕ → ReaderIdentity → Coordinator → Bool
unfolding resolve_instance
may_publish iid name identity c =
    not (name == 0)
    && (not (is_external_process identity)
        || is_occurrence (get c.external_attached_processes (process_of iid)) identity.occurrence)
    && may_enter (get c.transceiver_registry (process_of iid)) iid (process_of iid)
    && resolve_instance name c == 0

-- A process that was not known starts a fresh occurrence.
unfoldable pub start_occurrence : Option (List (ℕ × Publication)) → ℕ → Coordinator → Coordinator
unfolding set_draining_state set_collective_shutdown_state
start_occurrence none process c =
    set_draining_state process 0 (set_collective_shutdown_state process 0 c)
start_occurrence (some registry) process c = c

-- The tables after a publication.
unfoldable pub enter : Publication → ℕ → Coordinator → Coordinator
unfolding start_occurrence
enter entry iid c =
    let process = process_of iid in
    start_occurrence (get c.transceiver_registry process) process (record c {
      instance_id_of_assigned_name = put c.instance_id_of_assigned_name entry.name iid;
      transceiver_registry = put_entry c.transceiver_registry process iid entry;
    })

abbrev pub no_waiters : Waited
no_waiters = record { waiters = []; common_function_iid = 0 }

-- `true_sequence`
unfoldable pub true_sequence : Bool → PendingPublication → Coordinator → Published × Coordinator
true_sequence allow_notification_delay publication c =
    let queued = allow_notification_delay && not (is_empty c.processes_in_initialization) in
    let waited = or_else (get c.instances_waited publication.assigned_name) no_waiters in
    (
      published publication.instance_id waited.waiters waited.common_function_iid
          (if queued then none else some publication),
      record c {
        instances_waited = remove c.instances_waited publication.assigned_name;
        delayed_instance_publications =
            if queued
            then c.delayed_instance_publications ++ publication ∷ []
            else c.delayed_instance_publications;
      },
    )

-- `publish_transceiver_with_reader_identity`
unfoldable pub publish_transceiver :
    ℕ → ℕ → ℕ → ReaderIdentity → Coordinator → Published × Coordinator
unfolding may_publish enter true_sequence
publish_transceiver tid iid name identity c =
    if may_publish iid name identity c
    then (true_sequence (not (has c.transceiver_registry (process_of iid)))
        (record { type_id = tid; instance_id = iid; assigned_name = name })
        (enter (record { type_id = tid; name = name; reader_identity = identity }) iid c))
    else (refused, c)

-- How a wait ends: with the instance, or deferred until a reply with this id.
pub data WaitAnswer : Type 0 where
  present : (iid : ℕ) → WaitAnswer
  deferred_until : (common_function_iid : ℕ) → WaitAnswer

-- `wait_for_instance`, with the id that `make_instance_id` gives where one is needed.
unfoldable pub wait_for_instance : ℕ → ℕ → ℕ → Coordinator → WaitAnswer × Coordinator
unfolding resolve_instance
wait_for_instance caller fresh name c =
    let waited = or_else (get c.instances_waited name) no_waiters in
    let common = if waited.common_function_iid == 0 then fresh else waited.common_function_iid in
    if not (resolve_instance name c == 0) then (present (resolve_instance name c), c) else (
      deferred_until common,
      record c {
        instances_waited =
            put c.instances_waited name
              (record { waiters = insert caller waited.waiters; common_function_iid = common });
      },
    )

-- `resolve_managed_child_instance_locked`, after the test of `cancelled`
unfoldable pub resolve_managed_child_instance : ℕ → ReaderIdentity → Bool → Coordinator → ℕ
unfolding resolve_instance
resolve_managed_child_instance name expected cancelled c =
    let iid = resolve_instance name c in
    let publication = get (registry_of (get c.transceiver_registry expected.process_iid)) iid in
    if cancelled || iid == 0 || not (process_of iid == expected.process_iid)
    then 0
    else elim publication [
      | none ↦ 0
      | some p ↦ if same_identity p.reader_identity expected then iid else 0
    ]
