-- ===== src/Coordinator/Retire.antt =====
-- Unpublishing, include/sintra/detail/process/coordinator_impl.h: `unpublish_transceiver_exact` up to
-- the release of its locks, which are taken twice: `process_publication_identity` is the first
-- region, `retire` the second, and other operations can come between them. The custody record
-- that the first region looks for is a parameter, and so is the message reader of the process. The
-- calls have no crash information: the early return for one that does not fit is left out.
use sintra.Base.{
  ℕ, Bool, true, false, not, ◌&&◌, ◌||◌, ◌==◌, Option, none, some, List, [], if◌then◌else◌,
}
use sintra.Base.Maps.{get, remove, remove_where, is_some}
use sintra.Ids.{process_of}
use sintra.Coordinator.{
  Coordinator, ReaderIdentity, Publication, PendingPublication, same_identity, remove_entry,
  is_identity, is_managed_child, is_external_process, registry_of, exchange_draining_state,
}
use sintra.Coordinator.Publish.{is_occurrence}
use sintra.Coordinator.Leaving.{
  PendingCompletion, collect_pending_barrier_completions, finalize_initialization_tracking,
  drop_notifications, forget_join,
}

-- A `Process_message_reader`: whose messages it reads.
pub record MessageReader : Type 0 where
  pub process_instance_id : ℕ
  pub occurrence : ℕ
  pub custody_identity : ℕ

-- The publication of an instance in the registry.
abbrev pub publication_of : ℕ → Coordinator → Option Publication
publication_of iid c = get (registry_of (get c.transceiver_registry (process_of iid))) iid

abbrev pub expects : Option ReaderIdentity → ReaderIdentity → Bool
expects none stored = true
expects (some expected) stored = same_identity stored expected

-- The first region: the identity under which the process is published, or `none` for the return
-- with false. `custody_lives` tells whether the custody record of an identity is still there.
unfoldable pub process_publication_identity :
    (ReaderIdentity → Bool) → ℕ → Option ReaderIdentity → Coordinator → Option ReaderIdentity
process_publication_identity custody_lives process expected c =
    let publication = publication_of process c in
    elim publication [
      | none ↦ none
      | some p ↦
          if expects expected p.reader_identity
            && (not (is_managed_child p.reader_identity) || custody_lives p.reader_identity)
          then some p.reader_identity
          else none
    ]

abbrev pub reader_matches : ℕ → ReaderIdentity → MessageReader → Bool
reader_matches process stored r =
    r.process_instance_id == process
    && r.occurrence == stored.occurrence
    && r.custody_identity == stored.custody_identity

-- The guard on the message reader of a process, other than the coordinator's own. An entry of the
-- table of readers can hold no reader.
abbrev pub reader_permits :
    Option (Option MessageReader) → ℕ → Option ReaderIdentity → ReaderIdentity → Bool
reader_permits none process expected stored = not (is_some expected && is_external_process stored)
reader_permits (some none) process expected stored = not (is_identity stored)
reader_permits (some (some r)) process expected stored =
    not (is_identity stored) || reader_matches process stored r

-- The guards of the second region, `captured` from the first one.
unfoldable pub may_retire :
    ℕ
    → Option (Option MessageReader)
    → ℕ
    → Option ReaderIdentity
    → ReaderIdentity
    → ReaderIdentity
    → Coordinator
    → Bool
may_retire mproc_id reader iid expected captured stored c =
    let is_process = iid == process_of iid in
    expects expected stored
    && (not is_process
        || (same_identity stored captured
            && (not (is_external_process stored)
                || is_occurrence (get c.external_attached_processes iid) stored.occurrence)
            && (iid == mproc_id || reader_permits reader iid expected stored)))

-- What a retired process leaves to be sent after the locks are released.
pub record Departure : Type 0 where
  pub ready_notifications : List PendingPublication
  pub pending_completions : List PendingCompletion
  pub was_draining : Bool

abbrev pub no_departure : Departure
no_departure = record { ready_notifications = []; pending_completions = []; was_draining = false }

pub data Retired : Type 0 where
  rejected : Retired
  retired : (publication : Publication) (departure : Departure) → Retired

-- Every name and every publication of a process.
unfoldable pub forget_process : ℕ → Coordinator → Coordinator
forget_process process c = record c {
  instance_id_of_assigned_name =
      remove_where (λ iid. process_of iid == process) c.instance_id_of_assigned_name;
  transceiver_registry = remove c.transceiver_registry process;
  external_attached_processes = remove c.external_attached_processes process;
}

-- The part of the second region that is for processes.
unfoldable pub depart : ℕ → Coordinator → Departure × Coordinator
unfolding finalize_initialization_tracking forget_process exchange_draining_state
    collect_pending_barrier_completions
depart process c =
    let c' = forget_join (get c.joined_process_branch process) process c in
    let finalized = finalize_initialization_tracking process c' in
    let exchanged = exchange_draining_state process 1 (forget_process process finalized.1) in
    let collected = collect_pending_barrier_completions (λ name. false) process true exchanged.1 in
    (
      record {
        ready_notifications = drop_notifications process finalized.0;
        pending_completions = collected.0;
        was_draining = exchanged.0;
      },
      collected.1,
    )

-- One publication and its name.
unfoldable pub extract : ℕ → Publication → Coordinator → Coordinator
extract iid publication c = record c {
  instance_id_of_assigned_name = remove c.instance_id_of_assigned_name publication.name;
  transceiver_registry = remove_entry c.transceiver_registry (process_of iid) iid;
}

-- The second region of `unpublish_transceiver_exact`
unfoldable pub retire :
    ℕ
    → Option (Option MessageReader)
    → ℕ
    → Option ReaderIdentity
    → ReaderIdentity
    → Coordinator
    → Retired × Coordinator
unfolding may_retire extract depart
retire mproc_id reader iid expected captured c =
    let publication = publication_of iid c in
    elim publication [
      | none ↦ (rejected, c)
      | some p ↦
          if not (may_retire mproc_id reader iid expected captured p.reader_identity c)
          then (rejected, c)
          else if iid == process_of iid
          then (retired p (depart iid (extract iid p c)).0, (depart iid (extract iid p c)).1)
          else (retired p no_departure, extract iid p c)
    ]
