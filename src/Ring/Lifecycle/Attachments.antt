-- ===== src/Ring/Lifecycle/Attachments.antt =====
-- The attachments of a ring are counted, and the last one deletes it.
use sintra.Base.{
  ℕ, zero, suc, ◌+◌, ◌≡◌, ◌≢◌, ◌<◌, ◌↔◌, refl, Bool, true, false, ◌||◌, bit, none, List, [], ◌∷◌,
  length, get_or, set, arith,
}
use sintra.Ring.Lifecycle.{
  Attachment, Anchor, Guard, Probe, attachment_owner_live, no_attachment, scavenge_dead_attachments,
  count_live_attachments,
}

-- The attachment in a slot.
abbrev pub attachment_at : List Attachment → ℕ → Attachment
attachment_at slots i = get_or slots i no_attachment

no_attachment-dead : (probe : Probe) → attachment_owner_live probe no_attachment ≡ false
unfolding attachment_owner_live
no_attachment-dead probe = refl

pub count-set :
    (probe : Probe) (slots : List Attachment) (i : ℕ) (v : Attachment)
    → i < length slots
    → count_live_attachments probe (set slots i v)
        + bit (attachment_owner_live probe (attachment_at slots i))
      ≡ count_live_attachments probe slots + bit (attachment_owner_live probe v)
unfolding count_live_attachments
count-set probe [] i v h = absurd (omega arith)
count-set probe (x ∷ xs) zero v h = ground arith
count-set probe (x ∷ xs) (suc i) v h = ground (arith, count-set probe xs i v (omega arith))

pub count-scavenge :
    (probe : Probe) (slots : List Attachment)
    → count_live_attachments probe (scavenge_dead_attachments probe slots)
      ≡ count_live_attachments probe slots
unfolding count_live_attachments scavenge_dead_attachments
count-scavenge probe [] = refl
count-scavenge probe (x ∷ xs) = ground (arith, no_attachment-dead probe, count-scavenge probe xs)

pub length-scavenge :
    (probe : Probe) (slots : List Attachment)
    → length (scavenge_dead_attachments probe slots) ≡ length slots
unfolding scavenge_dead_attachments
length-scavenge probe [] = refl
length-scavenge probe (x ∷ xs) = ground (arith, length-scavenge probe xs)

-- A live attachment stays where it is.
pub scavenge-live :
    (probe : Probe) (slots : List Attachment) (i : ℕ)
    → attachment_owner_live probe (attachment_at slots i) ≡ true
    → attachment_at (scavenge_dead_attachments probe slots) i ≡ attachment_at slots i
unfolding scavenge_dead_attachments
scavenge-live probe [] i h = refl
scavenge-live probe (x ∷ xs) zero h = ground (arith, h)
scavenge-live probe (x ∷ xs) (suc i) h = ground (arith, scavenge-live probe xs i h)

-- What a release leaves.
pub record IsRelease (probe : Probe) (i : ℕ) (a : Anchor) (final : Bool) (g : Guard)
    (after : Anchor) : Type 0 where
  pub one_less :
      suc (count_live_attachments probe after.attachments)
      ≡ count_live_attachments probe a.attachments
  pub final_iff : (final ≡ true) ↔ (count_live_attachments probe after.attachments ≡ 0)
  pub deletes : after.deleting ≡ (a.deleting || final)
  pub counted : after.num_attached ≡ count_live_attachments probe after.attachments
  pub detached : g.attachment_slot ≡ none
  pub others :
      (j : ℕ)
      → i ≢ j
      → attachment_owner_live probe (attachment_at a.attachments j) ≡ true
      → attachment_at after.attachments j ≡ attachment_at a.attachments j
