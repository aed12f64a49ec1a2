-- ===== src/Coordinator.antt =====
-- The coordinator's tables, include/sintra/detail/process/coordinator.h, and the state bytes of the
-- processes, coordinator_impl.h. A name is a number, the empty string is 0; an
-- `atomic` is its value; a set is a list.
pub mod Publish
pub mod Leaving
pub mod Retire
pub mod Lifecycle
pub mod Invitations
pub mod StandardGroups
pub mod Claim
pub mod Operations
pub mod Waiting
pub mod Departure
pub mod Outcome
pub mod Consistency
use sintra.Base.{
  ℕ, ◌+◌, ◌<◌, Bool, true, false, not, ◌&&◌, ◌||◌, ◌==◌, ltb, Option, none, some, List, [], ◌∷◌,
  set, get_or, if◌then◌else◌,
}
use sintra.Base.Maps.{get, put, remove, or_else}
use sintra.Ids.{get_process_index, max_process_index}
use sintra.Barrier.{Barrier, BarrierCompletion, drop, erase}

-- `Process_reader_identity`
pub record ReaderIdentity : Type 0 where
  pub custody_identity : ℕ
  pub process_iid : ℕ
  pub occurrence : ℕ

abbrev pub same_identity : ReaderIdentity → ReaderIdentity → Bool
same_identity a b =
    a.custody_identity == b.custody_identity
    && a.process_iid == b.process_iid
    && a.occurrence == b.occurrence

-- `operator bool`
abbrev pub is_identity : ReaderIdentity → Bool
is_identity a =
    not (a.process_iid == 0) && (not (a.custody_identity == 0) || not (a.occurrence == 0))

abbrev pub is_managed_child : ReaderIdentity → Bool
is_managed_child a = not (a.custody_identity == 0) && not (a.process_iid == 0)

abbrev pub is_external_process : ReaderIdentity → Bool
is_external_process a =
    a.custody_identity == 0 && not (a.occurrence == 0) && not (a.process_iid == 0)

-- `Transceiver_publication`
pub record Publication : Type 0 where
  pub type_id : ℕ
  pub name : ℕ
  pub reader_identity : ReaderIdentity

-- `Pending_instance_publication`
pub record PendingPublication : Type 0 where
  pub type_id : ℕ
  pub instance_id : ℕ
  pub assigned_name : ℕ

-- An entry of `m_instances_waited`
pub record Waited : Type 0 where
  pub waiters : List ℕ
  pub common_function_iid : ℕ

-- `Process_group`, its barriers by their names
pub record Group : Type 0 where
  pub instance_id : ℕ
  pub published : Bool
  pub process_ids : List ℕ
  pub barriers : List (ℕ × Barrier)

pub record Coordinator : Type 0 where
  pub instance_id_of_assigned_name : List (ℕ × ℕ)
  pub transceiver_registry : List (ℕ × List (ℕ × Publication))
  pub external_attached_processes : List (ℕ × ℕ)
  pub instances_waited : List (ℕ × Waited)
  pub processes_in_initialization : List ℕ
  pub delayed_instance_publications : List PendingPublication
  pub inflight_joins : List (ℕ × ℕ)
  pub joined_process_branch : List (ℕ × ℕ)
  pub draining_process_states : List ℕ
  pub collective_shutdown_process_states : List ℕ
  pub groups : List (ℕ × Group)
  pub groups_of_process : List (ℕ × List ℕ)

-- `draining_slot_of_index`
unfoldable pub draining_slot_of_index : ℕ → Option ℕ
draining_slot_of_index draining_index =
    if draining_index == 0 || ltb max_process_index draining_index
    then none
    else some draining_index

abbrev pub write_state : Option ℕ → ℕ → List ℕ → List ℕ
write_state none value states = states
write_state (some slot) value states = set states slot value

abbrev pub read_state : Option ℕ → List ℕ → Bool
read_state none states = false
read_state (some slot) states = not (get_or states slot 0 == 0)

unfoldable pub set_draining_state : ℕ → ℕ → Coordinator → Coordinator
unfolding draining_slot_of_index
set_draining_state process value c = record c {
  draining_process_states =
      write_state (draining_slot_of_index (get_process_index process)) value
        c.draining_process_states;
}

unfoldable pub set_collective_shutdown_state : ℕ → ℕ → Coordinator → Coordinator
unfolding draining_slot_of_index
set_collective_shutdown_state process value c = record c {
  collective_shutdown_process_states =
      write_state (draining_slot_of_index (get_process_index process)) value
        c.collective_shutdown_process_states;
}

unfoldable pub is_process_draining : ℕ → Coordinator → Bool
unfolding draining_slot_of_index
is_process_draining process c =
    read_state (draining_slot_of_index (get_process_index process)) c.draining_process_states

unfoldable pub is_process_in_collective_shutdown : ℕ → Coordinator → Bool
unfolding draining_slot_of_index
is_process_in_collective_shutdown process c =
    read_state (draining_slot_of_index (get_process_index process))
      c.collective_shutdown_process_states

-- What `was_draining` gets; a process without a state leaves it as it was, false.
unfoldable pub exchange_draining_state : ℕ → ℕ → Coordinator → Bool × Coordinator
unfolding is_process_draining set_draining_state
exchange_draining_state process value c =
    (is_process_draining process c, set_draining_state process value c)

-- `resolve_instance`: 0 is no instance.
unfoldable pub resolve_instance : ℕ → Coordinator → ℕ
resolve_instance name c = or_else (get c.instance_id_of_assigned_name name) 0

abbrev pub registry_of : Option (List (ℕ × Publication)) → List (ℕ × Publication)
registry_of registry = or_else registry []

-- A registry after one publication is put into it, or taken out of it.
abbrev pub put_entry :
    List (ℕ × List (ℕ × Publication)) → ℕ → ℕ → Publication → List (ℕ × List (ℕ × Publication))
put_entry registry process iid e =
    put registry process (put (registry_of (get registry process)) iid e)

abbrev pub remove_entry :
    List (ℕ × List (ℕ × Publication)) → ℕ → ℕ → List (ℕ × List (ℕ × Publication))
remove_entry registry process iid =
    put registry process (remove (registry_of (get registry process)) iid)
