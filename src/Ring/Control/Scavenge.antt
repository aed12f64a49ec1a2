-- ===== src/Ring/Control/Scavenge.antt =====
-- `scavenge_orphans`: reader slots that are inactive, or whose process is dead, are torn down and
-- go back to the free stack.
use sintra.Base.{
  ℕ, zero, suc, ◌-◌, Bool, true, false, ◌==◌, ◌||◌, Option, none, some, [], ◌∷◌, ◌++◌,
  if◌then◌else◌,
}
use sintra.Ring.State.{active, inactive, set_status, drop_marks}
use sintra.Ring.Stack.{push, contains}
use sintra.Ring.Control.{
  Incarnation, IdentityStatus, live, dead, unknown, Control, num_slots, slot_at, set_slot, no_owner,
}
use sintra.Ring.Control.Guards.{Release, paired, unpaired, clear_slot_guard}
use sintra.Ring.Control.Wakeups.{WakeupErrors, clear_reader_wakeup}

pub record Scavenged : Type 0 where
  pub freed : Bool
  pub errors : WakeupErrors
  pub control : Control

-- `if (!free_rs_stack.contains(i)) free_rs_stack.push(i)`, with whether it pushed. `none` is the
-- exception of a full stack.
unfoldable pub return_slot : ℕ → Control → Option (Bool × Control)
return_slot i c =
    if contains c.free_stack i then some (false, c) else elim (push num_slots i c.free_stack) [
      | none ↦ none
      | some stack ↦ some (true, record c { free_stack = stack })
    ]

-- The teardown of a slot, up to its return to the free stack.
unfoldable pub tear_down : (Incarnation → IdentityStatus) → ℕ → Release → Control → Control
tear_down probe i mode c =
    let cleared = clear_slot_guard probe i mode c in
    let s = slot_at cleared i in
    set_slot cleared i
      (record s { state = drop_marks (set_status s.state inactive); owner = no_owner })

-- The release mode for a slot of this status.
unfoldable pub release_mode : ℕ → Release
release_mode status = if status == active then paired else unpaired

-- The slot `i` is reclaimed; `force` tells a dead reader's slot, which counts as freed in any case.
unfoldable pub reclaim :
    (Incarnation → IdentityStatus)
    → (ℕ → Option (ℕ × Bool))
    → Bool
    → ℕ
    → Scavenged
    → Option Scavenged
reclaim probe reset force i st =
    let (error, c) = clear_reader_wakeup reset i st.control in
    let mode = release_mode (slot_at c i).state.status in
    elim error [
      | some code ↦ some (record st { errors = st.errors ++ ((i, code) ∷ []); control = c })
      | none ↦ elim (return_slot i (tear_down probe i mode c)) [
        | none ↦ none
        | some (pushed, c') ↦
            some (record st { freed = st.freed || (force || pushed); control = c' })
      ]
    ]

unfoldable pub scavenge_slot :
    (Incarnation → IdentityStatus) → (ℕ → Option (ℕ × Bool)) → ℕ → Scavenged → Option Scavenged
scavenge_slot probe reset i st =
    let s = slot_at st.control i in
    if s.state.status == inactive then reclaim probe reset false i st else elim (probe s.owner) [
      | dead ↦ reclaim probe reset true i st
      | live ↦ some st
      | unknown ↦ some st
    ]

-- The loop over the slots, with `n` left.
unfoldable pub scavenge_from :
    (Incarnation → IdentityStatus) → (ℕ → Option (ℕ × Bool)) → ℕ → Scavenged → Option Scavenged
scavenge_from probe reset zero st = some st
scavenge_from probe reset (suc n) st = elim (scavenge_slot probe reset (num_slots - suc n) st) [
  | none ↦ none
  | some st' ↦ scavenge_from probe reset n st'
]

unfoldable pub scavenge_orphans :
    (Incarnation → IdentityStatus) → (ℕ → Option (ℕ × Bool)) → Control → Option Scavenged
scavenge_orphans probe reset c =
    scavenge_from probe reset num_slots (record { freed = false; errors = []; control = c })
