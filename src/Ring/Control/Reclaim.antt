-- ===== src/Ring/Control/Reclaim.antt =====
-- What `scavenge_orphans` makes of one slot.
use sintra.Base.{
  ℕ, ◌<◌, ◌≡◌, ◌≢◌, refl, Bool, true, false, ◌&&◌, ◌||◌, ◌==◌, Option, none, some, ◌∷◌, [], ◌++◌,
  get_or-set_self, get_or-set_ne, arith, Bool-cases, Option-cases, inl, inr,
}
use sintra.Ring.State.{inactive}
use sintra.Ring.Stack.{contains}
use sintra.Ring.Stack.Free.{push-IsFree}
use sintra.Ring.Control.{
  Incarnation, IdentityStatus, live, dead, unknown, Control, num_slots, slot_at, initial_slot,
}
use sintra.Ring.Control.Guards.{is_dead}
use sintra.Ring.Control.Wakeups.{clear_reader_wakeup}
use sintra.Ring.Control.Scavenge.{Scavenged, return_slot, reclaim, scavenge_slot}
use sintra.Ring.Control.Accounting.{Sound, Dropped, torn, tear_down_lem, set_slot-Sound}

-- Two control blocks with the same slots, counters and free slots.
record Same (c c' : Control) : Type 0 where
  slots : c'.slots ≡ c.slots
  access : c'.read_access ≡ c.read_access
  free : c'.free_stack ≡ c.free_stack

Same-Sound : {c c' : Control} → Same c c' → Sound c → Sound c'
Same-Sound {c} {c'} e v = record {
  slot_count = rw e.slots v.slot_count;
  word = rw e.access v.word;
  free = rw e.free v.free;
  guards = λ i. rw e.slots (v.guards i);
  covered = λ o h. rw (e.slots, e.access) (v.covered o h);
}

clear_reader_wakeup-Same :
    (reset : ℕ → Option (ℕ × Bool)) (i : ℕ) (c : Control) → Same c (clear_reader_wakeup reset i c).1
unfolding clear_reader_wakeup
clear_reader_wakeup-Same reset i c = elim (Option-cases (reset i)) [
  | inl e ↦ rw (e, clear_reader_wakeup) (record { slots = refl; access = refl; free = refl })
  | inr (a, e) ↦ rw (e, clear_reader_wakeup) (record { slots = refl; access = refl; free = refl })
]

clear_reader_wakeup-code :
    (reset : ℕ → Option (ℕ × Bool)) (i : ℕ) (c : Control)
    → (clear_reader_wakeup reset i c).0
      ≡ elim (reset i) [ none ↦ none | some (code, t) ↦ some code ]
unfolding clear_reader_wakeup
clear_reader_wakeup-code reset i c = ground arith

torn-Sound :
    {c c' : Control} (i : ℕ)
    → Sound c
    → i < num_slots
    → Dropped c i (torn (slot_at c i)) c'
    → Sound c'
torn-Sound {c} {c'} i v h d =
    let s =
      set_slot-Sound i c'.read_access (torn (slot_at c i)) v h d.word (λ e. cc)
        (λ o ho. ground (arith, d.counts o ho)) in
    Same-Sound (record { slots = d.slots; access = refl; free = d.free }) s

-- A slot that is not on the free stack can be put there.
record Returned (i : ℕ) (c c' : Control) : Type 0 where
  sound : Sound c'
  slots : c'.slots ≡ c.slots
  here : contains c'.free_stack i ≡ true
  others : (j : ℕ) → i ≢ j → contains c'.free_stack j ≡ contains c.free_stack j

return_slot_lem :
    (i : ℕ) {c : Control}
    → Sound c
    → i < num_slots
    → (b : Bool) × (c' : Control) × (return_slot i c ≡ some (b, c')) × Returned i c c'
unfolding return_slot
return_slot_lem i {c} v h = elim (Bool-cases (contains c.free_stack i)) [
  | inl e ↦ (false, c, rw e, record { sound = v; slots = refl; here = e; others = λ j ne. refl })
  | inr e ↦
      let (t, pushed, f, has) = push-IsFree num_slots i v.free h e in
      (
        true,
        record c { free_stack = t },
        rw (e, pushed),
        record {
          sound = record {
            slot_count = v.slot_count;
            word = v.word;
            free = f;
            guards = v.guards;
            covered = v.covered;
          };
          slots = refl;
          here = ground (arith, has i);
          others = λ j ne. ground (arith, has j);
        },
      )
]

-- What happens to slot `i` in a pass: `c` before, `c'` after.
pub data Settled (taken : Bool) (i : ℕ) (c c' : Control) : Type 0 where
  reclaimed :
      taken ≡ true
      → slot_at c' i ≡ torn (slot_at c i)
      → contains c'.free_stack i ≡ true
      → Settled taken i c c'
  kept :
      taken ≡ false
      → slot_at c' i ≡ slot_at c i
      → contains c'.free_stack i ≡ contains c.free_stack i
      → Settled taken i c c'

pub record Stepped (taken : Bool) (i : ℕ) (c c' : Control) : Type 0 where
  pub sound : Sound c'
  pub own : Settled taken i c c'
  pub others : (j : ℕ) → i ≢ j → slot_at c' j ≡ slot_at c j
  pub others_free : (j : ℕ) → i ≢ j → contains c'.free_stack j ≡ contains c.free_stack j

-- Whether the semaphore of a slot could be drained.
abbrev pub drained : Option (ℕ × Bool) → Bool
drained none = true
drained (some _) = false

reclaim_lem :
    (probe : Incarnation → IdentityStatus) (reset : ℕ → Option (ℕ × Bool)) (force : Bool) (i : ℕ)
    (st : Scavenged)
    → Sound st.control
    → i < num_slots
    → (st' : Scavenged) × (reclaim probe reset force i st ≡ some st')
      × Stepped (drained (reset i)) i st.control st'.control
unfolding reclaim
reclaim_lem probe reset force i st v h =
    let c = st.control in
    let woken = clear_reader_wakeup reset i c in
    let same = clear_reader_wakeup-Same reset i c in
    let v1 : Sound woken.1 = Same-Sound same v in
    let code = clear_reader_wakeup-code reset i c in
    elim (Option-cases (reset i)) [
      | inr (k, e) ↦
          let failed : woken.0 ≡ some k.0 = rw (code, e) in
          (
            record st { errors = st.errors ++ ((i, k.0) ∷ []); control = woken.1 },
            rw (failed, reclaim),
            record {
              sound = v1;
              own = kept (rw e) (rw same.slots) (rw same.free);
              others = λ j ne. rw same.slots;
              others_free = λ j ne. rw same.free;
            },
          )
      | inl e ↦
          let fine : woken.0 ≡ none = rw (code, e) in
          let d = tear_down_lem probe i v1 h in
          let (b, c', q, r) = return_slot_lem i (torn-Sound i v1 h d) h in
          let at : slot_at c' i ≡ torn (slot_at c i) = rw (
            r.slots,
            d.slots,
            get_or-set_self woken.1.slots i (torn (slot_at woken.1 i)) initial_slot
                (ground (arith, v1.slot_count)),
            same.slots,
          ) in
          (
            record st { freed = st.freed || (force || b); control = c' },
            rw (fine, q, reclaim),
            record {
              sound = r.sound;
              own = reclaimed (rw e) at r.here;
              others = λ j ne. rw (
                r.slots,
                d.slots,
                get_or-set_ne woken.1.slots i j (torn (slot_at woken.1 i)) initial_slot ne,
                same.slots,
              );
              others_free = λ j ne. rw (r.others j ne, d.free, same.free);
            },
          )
    ]

-- Whether a pass takes slot `i` back: its status is inactive or its process dead, and its
-- semaphore could be drained.
abbrev pub is_orphan : (Incarnation → IdentityStatus) → (ℕ → Option (ℕ × Bool)) → Control → ℕ → Bool
is_orphan probe reset c i =
    (((slot_at c i).state.status == inactive) || is_dead (probe (slot_at c i).owner))
    && drained (reset i)

-- A live or unidentified owner keeps its slot.
idle_step : (i : ℕ) {c : Control} → Sound c → Stepped false i c c
idle_step i v = record {
  sound = v;
  own = kept refl refl refl;
  others = λ j ne. refl;
  others_free = λ j ne. refl;
}

scavenge_owned :
    (probe : Incarnation → IdentityStatus) (reset : ℕ → Option (ℕ × Bool)) (i : ℕ) (st : Scavenged)
    → Sound st.control
    → i < num_slots
    → (id : IdentityStatus)
    → (st' : Scavenged) × (elim id [
      | dead ↦ reclaim probe reset true i st
      | live ↦ some st
      | unknown ↦ some st
    ]
        ≡ some st')
      × Stepped (is_dead id && drained (reset i)) i st.control st'.control
scavenge_owned probe reset i st v h dead = reclaim_lem probe reset true i st v h
scavenge_owned probe reset i st v h live = (st, refl, idle_step i v)
scavenge_owned probe reset i st v h unknown = (st, refl, idle_step i v)

pub scavenge_slot_lem :
    (probe : Incarnation → IdentityStatus) (reset : ℕ → Option (ℕ × Bool)) (i : ℕ) (st : Scavenged)
    → Sound st.control
    → i < num_slots
    → (st' : Scavenged) × (scavenge_slot probe reset i st ≡ some st')
      × Stepped (is_orphan probe reset st.control i) i st.control st'.control
unfolding scavenge_slot
scavenge_slot_lem probe reset i st v h =
    elim (Bool-cases ((slot_at st.control i).state.status == inactive)) [
      | inl e ↦ rw e (reclaim_lem probe reset false i st v h)
      | inr e ↦ rw e (scavenge_owned probe reset i st v h (probe (slot_at st.control i).owner))
    ]
