-- ===== src/Coordinator/Claim.antt =====
-- Claiming an invitation, include/sintra/detail/process/coordinator_impl.h:
-- `claim_external_process_invitation`. The message that is handled, the reader of the process, the
-- cached spawns and the closing of the admission are read from other parts of the program.
pub mod Events
pub mod Occurrences
pub mod Once
use sintra.Base.{
  ℕ, ◌+◌, Bool, true, false, not, ◌&&◌, ◌||◌, ◌==◌, leb, Option, none, some, List, [], mem, length,
  if◌then◌else◌,
}
use sintra.Base.Maps.{get, put, remove, has}
use sintra.Ids.{process_of, is_valid_process_instance_id}
use sintra.Coordinator.{Coordinator, set_draining_state, set_collective_shutdown_state}
use sintra.Coordinator.Lifecycle.{values}
use sintra.Coordinator.Retire.{MessageReader}
use sintra.Coordinator.StandardGroups.{add_to_standard_groups}
use sintra.Coordinator.Invitations.{
  Invitation, Invitations, is_pending, reject, rejection_grace, external_attach_tokens_equal,
}

-- `s_tl_current_message`
pub record ClaimMessage : Type 0 where
  pub sender_instance_id : ℕ
  pub managed_child_custody_identity : ℕ
  pub managed_child_occurrence : ℕ

-- What a claim reads outside the coordinator; the last three are the type of a group and the ids
-- that its constructor would take.
pub record Surroundings : Type 0 where
  pub shutdown : Bool
  pub message : Option ClaimMessage
  pub admission_closed : Bool
  pub reader : Option (Option MessageReader)
  pub cached_spawns : List ℕ
  pub mproc_id : ℕ
  pub group_type : ℕ
  pub fresh_group : ℕ
  pub fresh_external_group : ℕ

abbrev pub is_sent_by : ℕ → Option ClaimMessage → Bool
is_sent_by process none = false
is_sent_by process (some m) = process_of m.sender_instance_id == process

abbrev pub is_for_occurrence : ℕ → Option ClaimMessage → Bool
is_for_occurrence occurrence none = false
is_for_occurrence occurrence (some m) =
    m.managed_child_custody_identity == 0 && m.managed_child_occurrence == occurrence

abbrev pub is_read : ℕ → Option (Option MessageReader) → Bool
is_read occurrence none = false
is_read occurrence (some none) = false
is_read occurrence (some (some r)) = r.occurrence == occurrence && r.custody_identity == 0

-- The guards under `m_publish_mutex`
abbrev pub is_unknown : Surroundings → ℕ → Coordinator → Bool
is_unknown e process c =
    not (has c.transceiver_registry process)
    && not (has c.joined_process_branch process)
    && not (mem process (values c.inflight_joins))
    && not (mem process e.cached_spawns)

-- `m_transceiver_registry[process]; m_external_attached_processes[process] = occurrence`
abbrev pub attach : ℕ → ℕ → Coordinator → Coordinator
attach process occurrence c = record c {
  transceiver_registry = put c.transceiver_registry process [];
  external_attached_processes = put c.external_attached_processes process occurrence;
}

abbrev pub detach : ℕ → Coordinator → Coordinator
detach process c = record c {
  transceiver_registry = remove c.transceiver_registry process;
  external_attached_processes = remove c.external_attached_processes process;
}

-- The claim of an invitation that the token opens, from the guards on the process on.
unfoldable pub admit : Surroundings → ℕ → ℕ → Coordinator → Bool × Coordinator
unfolding set_draining_state set_collective_shutdown_state add_to_standard_groups
admit e process occurrence c =
    let attached = attach process occurrence c in
    let active = set_draining_state process 0 (set_collective_shutdown_state process 0 attached) in
    let grouped =
      add_to_standard_groups e.mproc_id e.group_type e.fresh_group e.fresh_external_group process
        active in
    if e.admission_closed || not (is_read occurrence e.reader) || not (is_unknown e process c)
    then (false, c)
    else if mem process attached.processes_in_initialization
    then (false, detach process attached)
    else if not grouped.0
    then (false, detach process grouped.1)
    else (true, grouped.1)

abbrev pub rejected_at : ℕ → ℕ → Invitation → Invitations → Invitations
rejected_at expires_at process i s = record s {
  invitations = put s.invitations process (reject expires_at i);
}

-- `claim_external_process_invitation` with the invitation of the process
unfoldable pub present :
    Surroundings
    → ℕ
    → ℕ
    → List ℕ
    → Invitation
    → Invitations
    → Coordinator
    → Bool × Invitations × Coordinator
unfolding admit external_attach_tokens_equal
present e now process token i s c =
    let admitted = admit e process i.occurrence c in
    if not (is_for_occurrence i.occurrence e.message) || not (is_pending i.state)
    then (false, s, c)
    else if leb i.expires_at now
    then (false, rejected_at (now + rejection_grace) process i s, c)
    else if not (external_attach_tokens_equal i.token token)
    then (false, rejected_at now process i s, c)
    else if not admitted.0
    then (false, s, admitted.1)
    else (true, record s { invitations = remove s.invitations process }, admitted.1)

-- `claim_external_process_invitation`
unfoldable pub claim :
    Surroundings → ℕ → ℕ → List ℕ → Invitations → Coordinator → Bool × Invitations × Coordinator
unfolding present
claim e now process token s c =
    let invitation = get s.invitations process in
    if not (is_valid_process_instance_id process)
      || length token == 0
      || e.shutdown
      || not (is_sent_by process e.message)
    then (false, s, c)
    else elim invitation [ none ↦ (false, s, c) | some i ↦ present e now process token i s c ]
