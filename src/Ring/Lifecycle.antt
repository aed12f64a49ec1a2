-- ===== src/Ring/Lifecycle.antt =====
-- The lifecycle anchor of a ring, include/sintra/detail/ipc/rings.h: `Ring_lifecycle_guard_base`
-- under the lifecycle mutex. The anchor has a slot for each attached process; the last one that
-- leaves deletes the ring's files. Whether a process is alive and its start stamp are answers of
-- the operating system, the same ones throughout a call, as is whether the files are removed.
pub mod Attachments
pub mod Claiming
use sintra.Base.{
  ℕ, zero, suc, ◌+◌, Bool, true, false, not, ◌&&◌, ◌||◌, ◌==◌, leb, Option, none, some, List, [],
  ◌∷◌, set, if◌then◌else◌,
}
use sintra.Mutex.{owner_generation_is_stale}

-- `ring_lifecycle_attachment_record`
pub record Attachment : Type 0 where
  pub start_stamp : ℕ
  pub pid : ℕ

-- `Anchor`, with the ring's files and the attachments
pub record Anchor : Type 0 where
  pub deleting : Bool
  pub attachments : List Attachment
  pub num_attached : ℕ

-- One object of the guard: its slot, and what its destructor looks at.
pub record Guard : Type 0 where
  pub attachment_slot : Option ℕ
  pub delete_in_progress : Bool

-- What the operating system answers about a process id.
pub record Probe : Type 0 where
  pub alive : ℕ → Bool
  pub start_stamp_of : ℕ → Option ℕ

-- `attachment_owner_live`
unfoldable pub attachment_owner_live : Probe → Attachment → Bool
unfolding owner_generation_is_stale
attachment_owner_live probe slot =
    if slot.pid == 0 || not (probe.alive slot.pid)
    then false
    else not (owner_generation_is_stale (probe.start_stamp_of slot.pid) slot.start_stamp)

abbrev pub no_attachment : Attachment
no_attachment = record { start_stamp = 0; pid = 0 }

-- `scavenge_dead_attachments`
unfoldable pub scavenge_dead_attachments : Probe → List Attachment → List Attachment
unfolding attachment_owner_live
scavenge_dead_attachments probe [] = []
scavenge_dead_attachments probe (slot ∷ rest) =
    let others = scavenge_dead_attachments probe rest in
    if not (slot.pid == 0) && not (attachment_owner_live probe slot)
    then no_attachment ∷ others
    else slot ∷ others

-- `count_live_attachments`
unfoldable pub count_live_attachments : Probe → List Attachment → ℕ
unfolding attachment_owner_live
count_live_attachments probe [] = 0
count_live_attachments probe (slot ∷ rest) =
    let others = count_live_attachments probe rest in
    if attachment_owner_live probe slot then suc others else others

-- The loop of `claim_lifecycle_attachment`: the first free slot, from `i` on.
abbrev pub free_slot : ℕ → List Attachment → Option ℕ
free_slot i [] = none
free_slot i (slot ∷ rest) = if slot.pid == 0 then some i else free_slot (suc i) rest

-- `sync_control_num_attached`
unfoldable pub sync_control_num_attached : Probe → Anchor → Anchor
unfolding count_live_attachments
sync_control_num_attached probe a = record a {
  num_attached = count_live_attachments probe a.attachments;
}

-- `claim_lifecycle_attachment`: `none` is the exception. `self` is the own process.
unfoldable pub claim_lifecycle_attachment :
    Probe → Attachment → Guard → Anchor → Option Guard × Anchor
unfolding scavenge_dead_attachments sync_control_num_attached
claim_lifecycle_attachment probe self g a =
    let slots = scavenge_dead_attachments probe a.attachments in
    let slot = free_slot 0 slots in
    elim g.attachment_slot [
      | some i ↦ (none, a)
      | none ↦ elim slot [
        | none ↦ (none, record a { attachments = slots })
        | some i ↦ (
          some (record g { attachment_slot = some i }),
          sync_control_num_attached probe (record a { attachments = set slots i self }),
        )
      ]
    ]

-- `begin_lifecycle_delete`
abbrev pub begin_lifecycle_delete : Anchor → Anchor
begin_lifecycle_delete a = record a { deleting = true }

-- `release_lifecycle_attachment`: whether it was the final one, the guard and the anchor.
unfoldable pub release_lifecycle_attachment : Probe → Guard → Anchor → Bool × Guard × Anchor
unfolding scavenge_dead_attachments count_live_attachments sync_control_num_attached
release_lifecycle_attachment probe g a =
    let slots = scavenge_dead_attachments probe a.attachments in
    let final = leb (count_live_attachments probe slots) 1 in
    let slot = g.attachment_slot in
    elim slot [
      | none ↦ (false, g, sync_control_num_attached probe a)
      | some i ↦ (
        final,
        record { attachment_slot = none; delete_in_progress = g.delete_in_progress || final },
        sync_control_num_attached probe
            (record a { attachments = set slots i no_attachment; deleting = a.deleting || final }),
      )
    ]

-- `recover_interrupted_delete`; `removed` is whether `remove_ring_files` leaves no file.
unfoldable pub recover_interrupted_delete : Bool → Anchor → Bool × Anchor
recover_interrupted_delete removed a =
    if not a.deleting
    then (true, a)
    else if not removed
    then (false, a)
    else (true, record a { deleting = false })

-- `recover_before_data_attach`
unfoldable pub recover_before_data_attach : Probe → Bool → Bool → Anchor → Bool × Anchor
unfolding recover_interrupted_delete scavenge_dead_attachments count_live_attachments
recover_before_data_attach probe removed removed_again a =
    let recovered = recover_interrupted_delete removed a in
    let slots = scavenge_dead_attachments probe a.attachments in
    if not recovered.0 then recovered else (
      if count_live_attachments probe slots == 0 then removed_again else true,
      record (recovered.1) { attachments = slots },
    )

-- The end of a guard in its process, after `release_lifecycle_attachment`
unfoldable pub finish_delete : Bool → Guard → Anchor → Guard × Anchor
finish_delete removed g a = (
  record g { delete_in_progress = false },
  if g.delete_in_progress && removed then record a { deleting = false } else a,
)
