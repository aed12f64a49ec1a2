-- ===== src/Ring/Control/Accounting.antt =====
-- The accounting invariant of the control block: no octile has more published guards than its
-- counter in `read_access` says, so an octile whose counter is 0 is guarded by nobody.
use sintra.Base.{
  ℕ, ◌+◌, ◌^◌, ◌<◌, ◌≤◌, ◌≡◌, ◌≢◌, refl, true, false, ◌&&◌, ◌==◌, bit, length, set, get_or, sym,
  length-set, get_or-set_self, get_or-set_ne, set-set, ==_refl, arith, Bool-cases, List, inl, inr,
  ℕ_discrete, dec_lt, set-out, ap,
}
use sintra.Base.Sums.{sum_below, sum_below-change, le-sum_below}
use sintra.Ring.State.{active, drop_pending, set_guard}
use sintra.Ring.Access.{count}
use sintra.Ring.Access.Counters.{count-sub_count, sub_count-lt}
use sintra.Ring.Stack.Free.{IsFree}
use sintra.Ring.Control.{
  Incarnation, IdentityStatus, Slot, Control, num_slots, slot_at, set_slot, initial_state,
  initial_slot, no_owner,
}
use sintra.Ring.Control.Guards.{
  paired, release_read_access_count, release_slot_read_access_count, clear_slot_guard,
}
use sintra.Ring.Control.Scavenge.{tear_down, release_mode}

-- Whether a slot publishes a guard on the octile.
abbrev pub held : ℕ → Slot → ℕ
held o s = bit (s.state.present && s.state.octile == o)

abbrev pub held_total : ℕ → Control → ℕ
held_total o c = sum_below num_slots (λ i. held o (slot_at c i))

-- Only an active slot publishes a guard, and on one of the eight octiles.
abbrev pub IsGuard : Slot → Type 0
IsGuard s = s.state.present ≡ true → (s.state.octile < 8) × (s.state.status ≡ active)

pub record Sound (c : Control) : Type 0 where
  pub slot_count : length c.slots ≡ num_slots
  pub word : c.read_access < 2 ^ 64
  pub free : IsFree num_slots c.free_stack
  pub guards : (i : ℕ) → IsGuard (slot_at c i)
  pub covered : (o : ℕ) → o < 8 → held_total o c ≤ count c.read_access o

-- The counter of an octile that a slot guards is not 0.
pub guarded-count :
    {c : Control} (i o : ℕ)
    → Sound c
    → i < num_slots
    → o < 8
    → held o (slot_at c i) ≤ count c.read_access o
guarded-count {c} i o v h ho =
    omega (arith, v.covered o ho, le-sum_below num_slots i (λ j. held o (slot_at c j)) h)

-- Slots other than the one that is written are as before.
pub slot_at-set_slot_ne :
    (c : Control) (i j : ℕ) (s : Slot) → i ≢ j → slot_at (set_slot c i s) j ≡ slot_at c j
slot_at-set_slot_ne c i j s h = get_or-set_ne c.slots i j s initial_slot h

pub slot_at-set_slot_self :
    (c : Control) (i : ℕ) (s : Slot) → i < length c.slots → slot_at (set_slot c i s) i ≡ s
slot_at-set_slot_self c i s h = get_or-set_self c.slots i s initial_slot h

-- How the total changes with one slot.
pub held_total-set_slot :
    (c : Control) (i o : ℕ) (s : Slot)
    → length c.slots ≡ num_slots
    → i < num_slots
    → held_total o (set_slot c i s) + held o (slot_at c i) ≡ held_total o c + held o s
held_total-set_slot c i o s e h = ground (
  arith,
  sum_below-change num_slots i (λ j. held o (slot_at c j))
      (λ j. held o (slot_at (set_slot c i s) j)) h
      (λ j ne. ap (held o) (sym (slot_at-set_slot_ne c i j s (λ q. ne (sym q))))),
  slot_at-set_slot_self c i s,
)

slot_at-IsGuard :
    (c : Control) (i j : ℕ) (s : Slot)
    → IsGuard s
    → IsGuard (slot_at c j)
    → IsGuard (get_or (set c.slots i s) j initial_slot)
slot_at-IsGuard c i j s new old = elim (ℕ_discrete i j) [
  | no ne ↦ rw (get_or-set_ne c.slots i j s initial_slot ne) old
  | yes e ↦ elim (dec_lt i (length c.slots)) [
    | yes h ↦ rw (← e) (rw (get_or-set_self c.slots i s initial_slot h) new)
    | no h ↦ rw (set-out c.slots i s (omega arith)) old
  ]
]

-- A slot is written, and the counters follow what it guarded before and guards now.
pub set_slot-Sound :
    {c : Control} (i w : ℕ) (s : Slot)
    → Sound c
    → i < num_slots
    → w < 2 ^ 64
    → IsGuard s
    → ((o : ℕ) → o < 8 → count w o + held o (slot_at c i) ≡ count c.read_access o + held o s)
    → Sound (record c { slots = set c.slots i s; read_access = w })
set_slot-Sound {c} i w s v h hw guard counts = record {
  slot_count = ground (arith, v.slot_count, length-set c.slots i s);
  word = hw;
  free = v.free;
  guards = λ j. slot_at-IsGuard c i j s guard (v.guards j);
  covered = λ o ho.
      ground (arith, held_total-set_slot c i o s v.slot_count h, counts o ho, v.covered o ho);
}

-- What a slot is after its teardown.
abbrev pub torn : Slot → Slot
torn s = record s { state = initial_state; owner = no_owner }

-- A slot without its guard.
abbrev pub unguarded : Slot → Slot
unguarded s = record s { state = drop_pending (set_guard s.state 0 false) }

-- How the control block `c'` differs from `c` when slot `i` has become `s`, which guards nothing.
pub record Dropped (c : Control) (i : ℕ) (s : Slot) (c' : Control) : Type 0 where
  pub slots : c'.slots ≡ set c.slots i s
  pub free : c'.free_stack ≡ c.free_stack
  pub word : c'.read_access < 2 ^ 64
  pub counts :
      (o : ℕ) → o < 8 → count c'.read_access o + held o (slot_at c i) ≡ count c.read_access o

release_paired :
    (c : Control) (slots : List Slot) (s : Slot)
    → c.read_access < 2 ^ 64
    → s.state.present ≡ true
    → s.state.octile < 8
    → 0 < count c.read_access s.state.octile
    → let c' = (release_read_access_count s.state.octile (record c { slots = slots })).1 in
      (c'.slots ≡ slots)
      × (c'.free_stack ≡ c.free_stack)
      × (c'.read_access < 2 ^ 64)
      × ((o : ℕ) → o < 8 → count c'.read_access o + held o s ≡ count c.read_access o)
unfolding release_read_access_count
release_paired c slots s hw e ho pos =
    let f : (count c.read_access s.state.octile == 0) ≡ false = ground arith in
    rw (f, e)
      (
        refl,
        refl,
        sub_count-lt c.read_access s.state.octile,
        λ o ho'. count-sub_count s.state.octile o c.read_access ho ho' hw pos,
      )

release_mode-active : (status : ℕ) → status ≡ active → release_mode status ≡ paired
unfolding release_mode
release_mode-active status e = ground arith

-- The guard of a slot is cleared by the mode that the slot's status calls for: the counter that
-- the guard holds goes down by one, and no other slot or counter changes.
pub clear_slot_guard_lem :
    (probe : Incarnation → IdentityStatus) {c : Control} (i : ℕ)
    → Sound c
    → i < num_slots
    → Dropped c i
        (unguarded (slot_at c i))
        (clear_slot_guard probe i (release_mode (slot_at c i).state.status) c)
unfolding clear_slot_guard release_slot_read_access_count
clear_slot_guard_lem probe {c} i v h = elim (Bool-cases (slot_at c i).state.present) [
  | inr e ↦
      rw e (record { slots = refl; free = refl; word = v.word; counts = λ o ho. ground (arith, e) })
  | inl e ↦
      let s = slot_at c i in
      let (small, act) = v.guards i e in
      let pos : 0 < count c.read_access s.state.octile =
        ground (arith, guarded-count i s.state.octile v h small, ==_refl s.state.octile, e) in
      let (a, b, w, k) = release_paired c (set c.slots i (unguarded s)) s v.word e small pos in
      rw (e, release_mode-active s.state.status act)
        (record { slots = a; free = b; word = w; counts = k })
]

-- The teardown of a slot by the mode that its status calls for: it resets the slot, lowers the
-- counter that the slot's guard holds, and touches no other slot and no other counter.
pub tear_down_lem :
    (probe : Incarnation → IdentityStatus) {c : Control} (i : ℕ)
    → Sound c
    → i < num_slots
    → Dropped c i
        (torn (slot_at c i))
        (tear_down probe i (release_mode (slot_at c i).state.status) c)
unfolding tear_down
tear_down_lem probe {c} i v h =
    let d = clear_slot_guard_lem probe i v h in
    let at =
      get_or-set_self c.slots i (unguarded (slot_at c i)) initial_slot
        (ground (arith, v.slot_count)) in
    record {
      slots = rw (d.slots, at, set-set) refl;
      free = d.free;
      word = d.word;
      counts = d.counts;
    }
