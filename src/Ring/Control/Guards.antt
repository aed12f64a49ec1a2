-- ===== src/Ring/Control/Guards.antt =====
-- The guard accounting of the control block: `release_read_access_count`,
-- `release_unpaired_read_access_count`, `count_guards_for_octile`, `clear_slot_guard` and
-- `try_rollback_unpaired_read_access`. A compare-and-swap loop is one step here: what stands
-- between its load and its success does not change the word.
use sintra.Base.{ℕ, ◌+◌, Bool, true, false, ◌&&◌, List, [], ◌∷◌, ◌==◌, leb, ltb, bit, if◌then◌else◌}
use sintra.Ring.State.{active, is_pending, set_guard, drop_pending}
use sintra.Ring.Access.{count, sub_count}
use sintra.Ring.Control.{
  Incarnation, IdentityStatus, dead, Slot, Control, slot_at, set_state, note_mismatch, inc,
}

unfoldable pub release_read_access_count : ℕ → Control → Bool × Control
release_read_access_count octile c =
    if count c.read_access octile == 0
    then (false, note_mismatch c)
    else (true, record c { read_access = sub_count c.read_access octile })

abbrev pub is_dead : IdentityStatus → Bool
is_dead dead = true
is_dead _ = false

module _ (probe : Incarnation → IdentityStatus) where
  -- What one slot adds to the count for an octile.
  unfoldable pub slot_guards : ℕ → Slot → ℕ
  slot_guards octile s =
      if s.state.status == active
      then bit (s.state.present && s.state.octile == octile)
        + (if is_pending s.state && s.state.pending == octile
            then (if is_dead (probe s.owner) then 0 else 1)
            else 0)
      else 0

  unfoldable pub count_guards : ℕ → List Slot → ℕ
  count_guards octile [] = 0
  count_guards octile (s ∷ rest) = slot_guards octile s + count_guards octile rest

  unfoldable pub count_guards_for_octile : ℕ → Control → ℕ
  unfolding count_guards
  count_guards_for_octile octile c = count_guards octile c.slots

  unfoldable pub release_unpaired_read_access_count : ℕ → Control → Bool × Control
  release_unpaired_read_access_count octile c =
      if count c.read_access octile == 0
      then (false, c)
      else if leb (count c.read_access octile) (count_guards_for_octile octile c)
      then (false, c)
      else (true, note_mismatch (record c { read_access = sub_count c.read_access octile }))

-- `Slot_read_access_release`
pub data Release : Type 0 where
  nothing paired unpaired : Release

module _ (probe : Incarnation → IdentityStatus) where
  unfoldable pub release_slot_read_access_count : ℕ → Release → Control → Bool × Control
  release_slot_read_access_count octile nothing c = (false, c)
  release_slot_read_access_count octile paired c = release_read_access_count octile c
  release_slot_read_access_count octile unpaired c =
      release_unpaired_read_access_count probe octile c

  unfoldable pub clear_slot_guard : ℕ → Release → Control → Control
  clear_slot_guard i mode c =
      let state = (slot_at c i).state in
      let cleared = set_state c i (drop_pending (set_guard state 0 false)) in
      if state.present
      then (release_slot_read_access_count state.octile mode cleared).1
      else cleared

  abbrev count_attempt : Control → Control
  count_attempt c = record c {
    diagnostics = record (c.diagnostics) {
      guard_rollback_attempt_count = inc c.diagnostics.guard_rollback_attempt_count;
    };
  }

  abbrev count_success : Control → Control
  count_success c = record c {
    diagnostics = record (c.diagnostics) {
      guard_rollback_success_count = inc c.diagnostics.guard_rollback_success_count;
    };
  }

  -- `Ring_R::try_rollback_unpaired_read_access`, under the slot lifetime lock. The second look at
  -- the counter and the guards sees what the first saw.
  unfoldable pub try_rollback_unpaired_read_access : ℕ → Control → Bool × Control
  try_rollback_unpaired_read_access octile c =
      if leb 8 octile
      then (false, c)
      else if count c.read_access octile == 0
      then (false, count_attempt c)
      else if ltb 0 (count_guards_for_octile probe octile c)
      then (false, count_attempt c)
      else (
        true,
        count_success (
            note_mismatch
              (record (count_attempt c) { read_access = sub_count c.read_access octile })),
      )
