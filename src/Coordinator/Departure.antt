-- ===== src/Coordinator/Departure.antt =====
-- What is left of a process, or of a publication, that is retired.
use sintra.Base.{
  ℕ, ◌+◌, ◌≡◌, ◌≢◌, ◌≤◌, ◌<◌, refl, ap, sym, ◌∙◌, Bool, true, false, not, ◌||◌, ◌==◌, Option, none,
  some, List, [], ◌⊎◌, ◌∷◌, mem, length, arith, inl, inr, get_or-set_self,
}
use mathlib.Core.Path.{subst}
use sintra.Base.Maps.{
  get, or_else, get-cons_cases, get-remove_same, get-remove_where_old, none-some,
}
use sintra.Ids.{process_of, get_process_index, max_process_index}
use sintra.Barrier.{Barrier, drop}
use sintra.Barrier.Completion.{mem-erase}
use sintra.Coordinator.{
  Coordinator, Group, is_process_draining, read_state, write_state, exchange_draining_state,
  set_draining_state, draining_slot_of_index,
}
use sintra.Coordinator.Leaving.{
  keep_barrier, drop_from_inflight_barriers, collect_from_groups,
  collect_pending_barrier_completions, finalize_initialization_tracking, forget_join,
}
use sintra.Coordinator.Retire.{publication_of, depart, forget_process}
use sintra.Coordinator.Consistency.{entry_of-remove_same}
use sintra.Coordinator.Consistency.Runs.{depart-tables}

-- Nobody waits for the process at a barrier, nor is it among the arrived.
abbrev pub is_absent : ℕ → Barrier → Bool
is_absent process b = not (mem process b.processes_pending || mem process b.processes_arrived)

drop-is_absent :
    (process : ℕ) (b b' : Barrier) → (drop process b).1 ≡ some b' → is_absent process b' ≡ true
unfolding drop
drop-is_absent process b b' h = ground (
  arith,
  h,
  mem-erase process process b.processes_pending,
  mem-erase process process b.processes_arrived,
)

keep_barrier-get :
    (o : Option Barrier) (n name : ℕ) (rest : List (ℕ × Barrier)) (b : Barrier)
    → get (keep_barrier o n rest) name ≡ some b
    → (o ≡ some b) ⊎ (get rest name ≡ some b)
keep_barrier-get none n name rest b h = inr h
keep_barrier-get (some a) n name rest b h = elim (get-cons_cases n name a b rest h) [
  | inl e ↦ inl (ap some e)
  | inr e ↦ inr e
]

drop_from_inflight_barriers-is_absent :
    (process name : ℕ) (barriers : List (ℕ × Barrier)) (b : Barrier)
    → get (drop_from_inflight_barriers (λ n. false) process barriers).1 name ≡ some b
    → is_absent process b ≡ true
unfolding drop_from_inflight_barriers
drop_from_inflight_barriers-is_absent process name [] b h = absurd (none-some none b refl h)
drop_from_inflight_barriers-is_absent process name ((n, a) ∷ rest) b h =
    elim (keep_barrier-get (drop process a).1 n name _ b h) [
      | inl e ↦ drop-is_absent process a b e
      | inr e ↦ drop_from_inflight_barriers-is_absent process name rest b e
    ]

-- A group without the process.
pub record Without (process : ℕ) (g : Group) : Type 0 where
  pub no_member : mem process g.process_ids ≡ false
  pub no_barrier :
      (name : ℕ) (b : Barrier) → get g.barriers name ≡ some b → is_absent process b ≡ true

collect_from_groups-Without :
    (process name : ℕ) (groups : List (ℕ × Group)) (g : Group)
    → get (collect_from_groups (λ n. false) process true groups).1 name ≡ some g
    → Without process g
unfolding collect_from_groups
collect_from_groups-Without process name [] g h = absurd (none-some none g refl h)
collect_from_groups-Without process name ((n, a) ∷ rest) g h =
    elim (get-cons_cases n name _ g (collect_from_groups (λ m. false) process true rest).1 h) [
      | inl e ↦ subst (Without process) e (record {
        no_member = ground (arith, mem-erase process process a.process_ids);
        no_barrier = λ k b. drop_from_inflight_barriers-is_absent process k a.barriers b;
      })
      | inr e ↦ collect_from_groups-Without process name rest g e
    ]

-- Nothing of a process is left in the coordinator's tables, and it counts as draining.
pub record IsGone (process : ℕ) (c : Coordinator) : Type 0 where
  pub no_publication : (iid : ℕ) → process_of iid ≡ process → publication_of iid c ≡ none
  pub no_name :
      (name iid : ℕ)
      → get c.instance_id_of_assigned_name name ≡ some iid
      → (process_of iid == process) ≡ false
  pub not_attached : get c.external_attached_processes process ≡ none
  pub no_group : (name : ℕ) (g : Group) → get c.groups name ≡ some g → Without process g
  pub not_in_groups : get c.groups_of_process process ≡ none
  pub initialized : mem process c.processes_in_initialization ≡ false
  pub not_joining : get c.joined_process_branch process ≡ none
  pub draining : is_process_draining process c ≡ true

finalize-mem :
    (process : ℕ) (c : Coordinator)
    → process ≢ 0
    → mem process (finalize_initialization_tracking process c).1.processes_in_initialization ≡ false
unfolding finalize_initialization_tracking
finalize-mem process c h = ground (arith, mem-erase process process c.processes_in_initialization)

forget_join-joined :
    (branch : Option ℕ) (process : ℕ) (c : Coordinator)
    → get c.joined_process_branch process ≡ branch
    → get (forget_join branch process c).joined_process_branch process ≡ none
forget_join-joined none process c h = h
forget_join-joined (some b) process c h = get-remove_same c.joined_process_branch process

finalize-joined :
    (process : ℕ) (c : Coordinator)
    → (finalize_initialization_tracking process c).1.joined_process_branch ≡ c.joined_process_branch
unfolding finalize_initialization_tracking
finalize-joined process c = ground arith

forget_join-draining :
    (branch : Option ℕ) (process : ℕ) (c : Coordinator)
    → (forget_join branch process c).draining_process_states ≡ c.draining_process_states
forget_join-draining none process c = refl
forget_join-draining (some b) process c = refl

finalize-draining :
    (process : ℕ) (c : Coordinator)
    → (finalize_initialization_tracking process c).1.draining_process_states
      ≡ c.draining_process_states
unfolding finalize_initialization_tracking
finalize-draining process c = ground arith

write-read_state :
    (slot : ℕ) (states : List ℕ)
    → slot < length states
    → read_state (some slot) (write_state (some slot) 1 states) ≡ true
write-read_state slot states h = ground (arith, get_or-set_self states slot 1 0 h)

pub depart-IsGone :
    (process : ℕ) (c : Coordinator)
    → process ≢ 0
    → get_process_index process ≢ 0
    → get_process_index process ≤ max_process_index
    → length c.draining_process_states ≡ max_process_index + 1
    → IsGone process (depart process c).1
unfolding depart forget_process exchange_draining_state set_draining_state is_process_draining
    collect_pending_barrier_completions draining_slot_of_index
depart-IsGone process c nonzero valid bound size =
    let joined = forget_join (get c.joined_process_branch process) process c in
    let finalized = (finalize_initialization_tracking process joined).1 in
    let tables = depart-tables process c in
    record {
      no_publication = λ iid h.
          ap (λ r. get (or_else (get r (process_of iid)) []) iid) tables.1
          ∙ entry_of-remove_same c.transceiver_registry iid process h;
      no_name = λ name iid h.
          (get-remove_where_old (λ i. process_of i == process) c.instance_id_of_assigned_name name
            iid (ap (λ names. get names name) (sym tables.0) ∙ h)).1;
      not_attached = get-remove_same finalized.external_attached_processes process;
      no_group = λ name g h. collect_from_groups-Without process name finalized.groups g h;
      not_in_groups = get-remove_same finalized.groups_of_process process;
      initialized = finalize-mem process joined nonzero;
      not_joining =
          ap (λ m. get m process) (finalize-joined process joined)
          ∙ forget_join-joined (get c.joined_process_branch process) process c refl;
      draining =
          ap (λ o. read_state o (write_state o 1 finalized.draining_process_states)) slot
          ∙ write-read_state (get_process_index process) finalized.draining_process_states (
              rw
                (
                  finalize-draining process joined,
                  forget_join-draining (get c.joined_process_branch process) process c,
                  size,
                )
                (omega (arith, bound)));
    }
  where
    slot : draining_slot_of_index (get_process_index process) ≡ some (get_process_index process)
    slot = ground (arith, valid, bound)
