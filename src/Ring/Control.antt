-- ===== src/Ring/Control.antt =====
-- The shared control block of include/sintra/detail/ipc/rings.h: one slot per reader, the octile
-- counters, the free and sleeping stacks, the wakeup tokens and the diagnostic counters.
-- Left out: the ABI fingerprint, the writer's ownership mutex and the attachment mirror, which
-- the modelled functions do not touch. What the operating system answers enters as an argument:
-- `probe` for `probe_process_identity`, and `refused` for the slots whose semaphore call fails.
pub mod Guards
pub mod Wakeups
pub mod Scavenge
pub mod Accounting
pub mod Reclaim
pub mod Pass
use sintra.Base.{ℕ, ◌+◌, ◌-◌, ◌%◌, ◌^◌, Bool, true, false, Option, none, List, get_or, set}
use sintra.Ring.State.{ReaderState, no_pending, inactive}
use sintra.Ring.Stack.{IndexStack}

-- `max_process_index`, the number of reader slots
abbrev pub num_slots : ℕ
num_slots = 127

-- `invalid_sequence`
abbrev pub invalid_sequence : ℕ
invalid_sequence = 2 ^ 64 - 1

-- `process_namespace_t`
pub record NamespaceIdentity : Type 0 where
  pub state : ℕ
  pub device : ℕ
  pub inode : ℕ

-- `process_incarnation_t`, with the two fields of its namespaces
pub record Incarnation : Type 0 where
  pub pid : ℕ
  pub start_stamp : ℕ
  pub pid_namespace : NamespaceIdentity
  pub time_namespace : NamespaceIdentity

-- `Process_identity_status`
pub data IdentityStatus : Type 0 where
  live dead unknown : IdentityStatus

-- `cache_line_sized_t::Payload`
pub record Slot : Type 0 where
  pub state : ReaderState
  pub v : ℕ
  pub owner : Incarnation

abbrev pub no_namespace : NamespaceIdentity
no_namespace = record { state = 0; device = 0; inode = 0 }

abbrev pub no_owner : Incarnation
no_owner = record {
  pid = 0;
  start_stamp = 0;
  pid_namespace = no_namespace;
  time_namespace = no_namespace;
}

abbrev pub initial_state : ReaderState
initial_state = record {
  octile = 0;
  present = false;
  copying = false;
  request = false;
  status = inactive;
  pending = no_pending;
}

abbrev pub initial_slot : Slot
initial_slot = record { state = initial_state; v = invalid_sequence; owner = no_owner }

-- `Ring_diagnostics`; the 32-bit indices start at their maximum.
pub record Diagnostics : Type 0 where
  pub max_reader_lag : ℕ
  pub worst_overflow_lag : ℕ
  pub reader_lag_overflow_count : ℕ
  pub reader_sequence_regressions : ℕ
  pub reader_eviction_count : ℕ
  pub last_evicted_reader_index : ℕ
  pub last_evicted_reader_sequence : ℕ
  pub last_evicted_writer_sequence : ℕ
  pub last_evicted_reader_octile : ℕ
  pub last_overflow_reader_index : ℕ
  pub last_overflow_reader_sequence : ℕ
  pub last_overflow_leading_sequence : ℕ
  pub last_overflow_last_consumed : ℕ
  pub stale_guard_clear_count : ℕ
  pub guard_rollback_attempt_count : ℕ
  pub guard_rollback_success_count : ℕ
  pub guard_accounting_mismatch_count : ℕ

-- `Control`. A wakeup token is the binary semaphore of the slot with the same index.
pub record Control : Type 0 where
  pub leading_sequence : ℕ
  pub global_unblock_sequence : ℕ
  pub writer_closed : Bool
  pub read_access : ℕ
  pub slots : List Slot
  pub free_stack : IndexStack
  pub tokens : List Bool
  pub sleeping_stack : IndexStack
  pub diagnostics : Diagnostics

abbrev pub slot_at : Control → ℕ → Slot
slot_at c i = get_or c.slots i initial_slot

abbrev pub set_slot : Control → ℕ → Slot → Control
set_slot c i s = record c { slots = set c.slots i s }

abbrev pub set_state : Control → ℕ → ReaderState → Control
set_state c i s = set_slot c i (record (slot_at c i) { state = s })

-- `fetch_add(1)` on a 64-bit counter
abbrev pub inc : ℕ → ℕ
inc n = (n + 1) % 2 ^ 64

abbrev pub note_mismatch : Control → Control
note_mismatch c = record c {
  diagnostics = record (c.diagnostics) {
    guard_accounting_mismatch_count = inc c.diagnostics.guard_accounting_mismatch_count;
  };
}
