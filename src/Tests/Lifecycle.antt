-- ===== src/Tests/Lifecycle.antt =====
-- Two processes at a ring with three slots; the third slot is of a process that has exited.
use sintra.Base.{ℕ, ◌+◌, ◌≡◌, refl, true, false, not, ◌==◌, none, some, [], ◌∷◌}
use sintra.Mutex.{owner_generation_is_stale}
use sintra.Ring.Lifecycle.{
  Attachment, Anchor, Guard, Probe, attachment_owner_live, no_attachment,
  claim_lifecycle_attachment, release_lifecycle_attachment, scavenge_dead_attachments,
  count_live_attachments, sync_control_num_attached,
}
use sintra.Ring.Lifecycle.Claiming.{IsClaim, claim_lifecycle_attachment-IsClaim}

-- Process 9 does not run, and process 8 is another one than the one that attached.
abbrev probe : Probe
probe = record { alive = λ pid. not (pid == 9); start_stamp_of = λ pid. some (pid + 100) }

abbrev attached : ℕ → Attachment
attached pid = record { start_stamp = pid + 100; pid = pid }

abbrev anchor : Anchor
anchor = record {
  deleting = false;
  attachments = attached 5 ∷ attached 9 ∷ record { start_stamp = 3; pid = 8 } ∷ [];
  num_attached = 3;
}

abbrev detached : Guard
detached = record { attachment_slot = none; delete_in_progress = false }

claim_lifecycle_attachment-IsClaim_example :
    IsClaim probe
      (attached 6)
      detached
      anchor
      (claim_lifecycle_attachment probe (attached 6) detached anchor)
unfolding attachment_owner_live owner_generation_is_stale
claim_lifecycle_attachment-IsClaim_example =
    claim_lifecycle_attachment-IsClaim probe (attached 6) detached anchor refl refl

abbrev here : Guard
here = record { attachment_slot = some 0; delete_in_progress = false }

-- The process is the last one that lives.
release_test : release_lifecycle_attachment probe here anchor ≡ (
  true,
  record { attachment_slot = none; delete_in_progress = true },
  record {
    deleting = true;
    attachments = no_attachment ∷ no_attachment ∷ no_attachment ∷ [];
    num_attached = 0;
  },
)
unfolding release_lifecycle_attachment scavenge_dead_attachments count_live_attachments
    sync_control_num_attached attachment_owner_live owner_generation_is_stale
release_test = refl
