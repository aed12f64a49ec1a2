-- ===== src/Coordinator/StandardGroups.antt =====
-- The standard groups, include/sintra/detail/process/coordinator_impl.h: an external process joins
-- `_sintra_all_processes` and `_sintra_external_processes`, or neither. A group that does not exist
-- is made, with the id that its constructor gives it, and published; the message that the thread
-- handles comes from the external process, so the publication has no reader identity.
use sintra.Base.{ℕ, Bool, true, false, not, Option, none, some, List, [], ◌∷◌, if◌then◌else◌}
use sintra.Base.Maps.{get, put, remove, or_else}
use sintra.Barrier.{insert, erase, is_empty}
use sintra.Coordinator.{Coordinator, Group, ReaderIdentity}
use sintra.Coordinator.Publish.{Published, refused, published, publish_transceiver}
use sintra.Coordinator.Leaving.{remove_process}
use sintra.Coordinator.Retire.{retire}
use sintra.Coordinator.Lifecycle.{all_processes_group}

-- The name "_sintra_external_processes"
abbrev pub external_processes_group : ℕ
external_processes_group = 2

-- `group_update`
pub record GroupUpdate : Type 0 where
  pub name : ℕ
  pub group_iid : ℕ
  pub members : List ℕ
  pub created : Bool

abbrev pub no_identity : ReaderIdentity
no_identity = record { custody_identity = 0; process_iid = 0; occurrence = 0 }

abbrev pub with_group : ℕ → Group → Coordinator → Coordinator
with_group name g c = record c { groups = put c.groups name g }

-- `m_groups_of_process[member].insert(group)`
abbrev pub add_membership : ℕ → ℕ → Coordinator → Coordinator
add_membership group_iid member c = record c {
  groups_of_process =
      put c.groups_of_process member
        (insert group_iid (or_else (get c.groups_of_process member) []));
}

abbrev pub add_memberships : ℕ → List ℕ → Coordinator → Coordinator
add_memberships group_iid [] c = c
add_memberships group_iid (x ∷ xs) c = add_memberships group_iid xs (add_membership group_iid x c)

abbrev pub leave_groups : Option (List ℕ) → ℕ → ℕ → Coordinator → Coordinator
leave_groups none member group_iid c = c
leave_groups (some groups) member group_iid c = record c {
  groups_of_process =
      if is_empty (erase group_iid groups)
      then remove c.groups_of_process member
      else put c.groups_of_process member (erase group_iid groups);
}

-- `erase_group_membership`
abbrev pub erase_group_membership : ℕ → ℕ → Coordinator → Coordinator
erase_group_membership member group_iid c =
    leave_groups (get c.groups_of_process member) member group_iid c

abbrev pub erase_memberships : List ℕ → ℕ → Coordinator → Coordinator
erase_memberships [] group_iid c = c
erase_memberships (x ∷ xs) group_iid c =
    erase_memberships xs group_iid (erase_group_membership x group_iid c)

-- `publish_process_group`: a group that is published is marked.
abbrev pub mark_published : Published × Coordinator → ℕ → Group → Bool × Coordinator
mark_published (refused, c) name g = (false, c)
mark_published (published iid piids common emitted, c) name g =
    (true, with_group name (record g { published = true }) c)

unfoldable pub publish_process_group : ℕ → ℕ → Group → Coordinator → Bool × Coordinator
unfolding publish_transceiver
publish_process_group tid name g c =
    mark_published (publish_transceiver tid g.instance_id name no_identity c) name g

-- `unpublish_process_group`
unfoldable pub unpublish_process_group : ℕ → ℕ → Group → Coordinator → Coordinator
unfolding retire
unpublish_process_group mproc_id name g c =
    if not g.published
    then c
    else with_group name (record g { published = false })
        (retire mproc_id none g.instance_id none no_identity c).1

-- `ensure_group`, for a group that is there and for one that is not
unfoldable pub join_or_make :
    Option Group → ℕ → ℕ → ℕ → ℕ → List ℕ → Coordinator → (Bool × GroupUpdate) × Coordinator
unfolding publish_process_group
join_or_make (some g) tid fresh process name members c = (
  (
    true,
    record { name = name; group_iid = g.instance_id; members = process ∷ []; created = false },
  ),
  add_membership g.instance_id process
      (with_group name (record g { process_ids = insert process g.process_ids }) c),
)
join_or_make none tid fresh process name members c =
    let g : Group = record {
      instance_id = fresh;
      published = false;
      process_ids = members;
      barriers = [];
    } in
    let result =
      publish_process_group tid name g (add_memberships fresh members (with_group name g c)) in
    (
      (result.0, record { name = name; group_iid = fresh; members = members; created = true }),
      result.1,
    )

unfoldable pub ensure_group :
    ℕ → ℕ → ℕ → ℕ → List ℕ → Coordinator → (Bool × GroupUpdate) × Coordinator
unfolding join_or_make
ensure_group tid fresh process name members c =
    join_or_make (get c.groups name) tid fresh process name members c

-- One update taken back
unfoldable pub undo : Option Group → ℕ → ℕ → GroupUpdate → Coordinator → Coordinator
unfolding unpublish_process_group
undo none mproc_id process u c = c
undo (some g) mproc_id process u c =
    if u.created
    then (let c' =
          erase_memberships u.members u.group_iid (unpublish_process_group mproc_id u.name g c) in
        record (c') { groups = remove c'.groups u.name })
    else erase_group_membership process u.group_iid (with_group u.name (remove_process process g) c)

-- `rollback_updates`, the updates with the last one first
unfoldable pub rollback_updates : ℕ → ℕ → List GroupUpdate → Coordinator → Coordinator
unfolding undo
rollback_updates mproc_id process [] c = c
rollback_updates mproc_id process (u ∷ rest) c =
    rollback_updates mproc_id process rest (undo (get c.groups u.name) mproc_id process u c)

-- `add_external_process_to_standard_groups`
unfoldable pub add_to_standard_groups : ℕ → ℕ → ℕ → ℕ → ℕ → Coordinator → Bool × Coordinator
unfolding ensure_group rollback_updates
add_to_standard_groups mproc_id tid fresh fresh' process c =
    let first =
      ensure_group tid fresh process all_processes_group (insert mproc_id (process ∷ [])) c in
    let second = ensure_group tid fresh' process external_processes_group (process ∷ []) first.1 in
    if not first.0.0
    then (false, rollback_updates mproc_id process (first.0.1 ∷ []) first.1)
    else if not second.0.0
    then (false, rollback_updates mproc_id process (second.0.1 ∷ first.0.1 ∷ []) second.1)
    else (true, second.1)
