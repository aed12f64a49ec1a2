-- ===== src/Ring/Lifecycle/Claiming.antt =====
-- A claim of an attachment: a free slot of the anchor is found, if there is one.
use sintra.Base.{
  ℕ, zero, suc, ◌+◌, ◌≡◌, ◌≢◌, ◌<◌, refl, ap, ◌∙◌, true, false, ◌==◌, Option, none, some, List, [],
  ◌∷◌, length, set, arith, Bool-cases, inl, inr, get_or-set_self, get_or-set_ne,
}
use sintra.Base.Maps.{none-some}
use sintra.Ring.Lifecycle.Attachments.{
  attachment_at, count-set, count-scavenge, length-scavenge, scavenge-live,
}
use sintra.Ring.Lifecycle.{
  Attachment, Anchor, Guard, Probe, attachment_owner_live, no_attachment, scavenge_dead_attachments,
  count_live_attachments, free_slot, sync_control_num_attached, claim_lifecycle_attachment,
}

-- The slot that is found is free and there.
free_slot-free :
    (k i : ℕ) (slots : List Attachment)
    → free_slot k slots ≡ some i
    → (j : ℕ) × (i ≡ k + j) × (j < length slots) × ((attachment_at slots j).pid ≡ 0)
free_slot-free k i [] h = absurd (none-some none i refl h)
free_slot-free k i (x ∷ xs) h = elim (Bool-cases (x.pid == 0)) [
  | inl e ↦ (0, ground (arith, h, e), omega arith, ground (arith, e))
  | inr e ↦
      let found = free_slot-free (suc k) i xs (ground (arith, h, e)) in
      (suc found.0, omega (arith, found.1), omega (arith, found.2), found.3)
]

-- A slot that holds no process has no live attachment.
free-dead : (probe : Probe) (x : Attachment) → x.pid ≡ 0 → attachment_owner_live probe x ≡ false
unfolding attachment_owner_live
free-dead probe x h = ground (arith, h)

-- A live attachment is not in a slot that has none.
apart :
    (probe : Probe) (slots : List Attachment) (i j : ℕ)
    → attachment_owner_live probe (attachment_at slots i) ≡ false
    → attachment_owner_live probe (attachment_at slots j) ≡ true
    → i ≢ j
apart probe slots i j d l e =
    ground (arith, d, l, ap (λ k. attachment_owner_live probe (attachment_at slots k)) e)

-- When no slot is free after the scavenging, every slot has a live attachment, and the scavenging
-- changed nothing.
full :
    (probe : Probe) (k : ℕ) (slots : List Attachment)
    → free_slot k (scavenge_dead_attachments probe slots) ≡ none
    → (scavenge_dead_attachments probe slots ≡ slots)
      × ((j : ℕ) → j < length slots → attachment_owner_live probe (attachment_at slots j) ≡ true)
unfolding scavenge_dead_attachments
full probe k [] h = (refl, λ j b. absurd (omega (arith, b)))
full probe k (x ∷ xs) h = elim (Bool-cases (attachment_owner_live probe x)) [
  | inl alive ↦
      let rest = full probe (suc k) xs (ground (arith, h, alive)) in
      (ground (arith, alive, rest.0), later alive rest.1)
  | inr dead ↦ absurd (ground (arith, h, dead))
]
  where
    later :
        attachment_owner_live probe x ≡ true
        → ((j : ℕ) → j < length xs → attachment_owner_live probe (attachment_at xs j) ≡ true)
        → (j : ℕ) → j < length (x ∷ xs)
        → attachment_owner_live probe (attachment_at (x ∷ xs) j) ≡ true
    later alive rest zero b = alive
    later alive rest (suc j) b = rest j (omega (arith, b))

-- A slot without a live attachment is empty after the scavenging.
scavenge-dead :
    (probe : Probe) (slots : List Attachment) (j : ℕ)
    → attachment_owner_live probe (attachment_at slots j) ≡ false
    → (attachment_at (scavenge_dead_attachments probe slots) j).pid ≡ 0
unfolding scavenge_dead_attachments
scavenge-dead probe [] j h = refl
scavenge-dead probe (x ∷ xs) zero h = ground (arith, h)
scavenge-dead probe (x ∷ xs) (suc j) h = ground (arith, scavenge-dead probe xs j h)

-- What a claim that takes the slot `i` leaves.
pub record IsClaimed (probe : Probe) (self : Attachment) (g g' : Guard) (i : ℕ) (a after : Anchor)
    : Type 0 where
  pub attached : g' ≡ record g { attachment_slot = some i }
  pub in_range : i < length a.attachments
  pub was_not_live : attachment_owner_live probe (attachment_at a.attachments i) ≡ false
  pub own : attachment_at after.attachments i ≡ self
  pub one_more :
      count_live_attachments probe after.attachments
      ≡ suc (count_live_attachments probe a.attachments)
  pub counted : after.num_attached ≡ count_live_attachments probe after.attachments
  pub same_deleting : after.deleting ≡ a.deleting
  pub live_stay :
      (j : ℕ)
      → attachment_owner_live probe (attachment_at a.attachments j) ≡ true
      → attachment_at after.attachments j ≡ attachment_at a.attachments j
  pub dead_cleared :
      (j : ℕ)
      → i ≢ j
      → attachment_owner_live probe (attachment_at a.attachments j) ≡ false
      → (attachment_at after.attachments j).pid ≡ 0

-- How a claim ends: every slot has a live attachment and nothing changes, or a slot is taken.
pub data IsClaim (probe : Probe) (self : Attachment) (g : Guard) (a : Anchor)
    : Option Guard × Anchor → Type 0 where
  no_slot :
      ((j : ℕ)
        → j < length a.attachments
        → attachment_owner_live probe (attachment_at a.attachments j) ≡ true)
      → IsClaim probe self g a (none, a)
  claimed :
      (g' : Guard) (i : ℕ) (after : Anchor)
      → IsClaimed probe self g g' i a after
      → IsClaim probe self g a (some g', after)

-- A guard without a slot, of a process that lives, claims an attachment: either every slot has a
-- live attachment and nothing at all changes, or the guard gets a slot that had no live attachment
-- and it is its own then, exactly one more attachment lives and is counted, every other live
-- attachment stays as it is, and every other slot is empty.
pub claim_lifecycle_attachment-IsClaim :
    (probe : Probe) (self : Attachment) (g : Guard) (a : Anchor)
    → g.attachment_slot ≡ none
    → attachment_owner_live probe self ≡ true
    → IsClaim probe self g a (claim_lifecycle_attachment probe self g a)
unfolding claim_lifecycle_attachment sync_control_num_attached
claim_lifecycle_attachment-IsClaim probe self g a e l =
    go (free_slot 0 (scavenge_dead_attachments probe a.attachments)) refl
  where
    slots : List Attachment
    slots = scavenge_dead_attachments probe a.attachments

    go :
        (o : Option ℕ)
        → free_slot 0 slots ≡ o
        → IsClaim probe self g a (claim_lifecycle_attachment probe self g a)
    go none x =
        let none_free = full probe 0 a.attachments x in
        rw (claim_lifecycle_attachment, e, x, none_free.0) (no_slot none_free.1)
    go (some i) x =
        rw (claim_lifecycle_attachment, e, x)
          (claimed _ i _ (record {
            attached = refl;
            in_range = omega (arith, bound, length-scavenge probe a.attachments);
            was_not_live = free;
            own = get_or-set_self slots i self no_attachment bound;
            one_more = more;
            counted = refl;
            same_deleting = refl;
            live_stay = others;
            dead_cleared = λ j ne gone.
                ap (λ y. y.pid) (get_or-set_ne slots i j self no_attachment ne)
                ∙ scavenge-dead probe a.attachments j gone;
          }))
      where
        found : (j : ℕ) × (i ≡ 0 + j) × (j < length slots) × ((attachment_at slots j).pid ≡ 0)
        found = free_slot-free 0 i slots x

        bound : i < length slots
        bound = omega (arith, found.1, found.2)

        dead : attachment_owner_live probe (attachment_at slots i) ≡ false
        dead =
            free-dead probe (attachment_at slots i)
              (ap (λ k. (attachment_at slots k).pid) (omega (arith, found.1)) ∙ found.3)

        -- A live attachment would have stayed in its slot.
        free : attachment_owner_live probe (attachment_at a.attachments i) ≡ false
        free = elim (Bool-cases (attachment_owner_live probe (attachment_at a.attachments i))) [
          | inl alive ↦ absurd (
              ground (
                arith,
                dead,
                alive,
                ap (attachment_owner_live probe) (scavenge-live probe a.attachments i alive),
              ))
          | inr gone ↦ gone
        ]

        more :
            count_live_attachments probe (set slots i self)
            ≡ suc (count_live_attachments probe a.attachments)
        more =
            ground (
              arith,
              count-set probe slots i self bound,
              count-scavenge probe a.attachments,
              dead,
              l,
            )

        others :
            (j : ℕ)
            → attachment_owner_live probe (attachment_at a.attachments j) ≡ true
            → attachment_at (set slots i self) j ≡ attachment_at a.attachments j
        others j alive =
            let kept = scavenge-live probe a.attachments j alive in
            get_or-set_ne slots i j self no_attachment
              (apart probe slots i j dead (ap (attachment_owner_live probe) kept ∙ alive))
            ∙ kept
