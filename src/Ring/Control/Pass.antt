-- ===== src/Ring/Control/Pass.antt =====
-- What a pass of `scavenge_orphans` leaves behind: it always finishes, keeps the accounting, and
-- hands back every slot that nobody owns.
use sintra.Base.{
  ℕ, zero, suc, ◌+◌, ◌-◌, ◌<◌, ◌≤◌, ◌≡◌, refl, sym, ap, Bool, false, ◌&&◌, ◌||◌, ◌==◌, Option, some,
  [], arith, ◌∙◌, ℕ_discrete,
}
use mathlib.Core.Path.{subst}
use sintra.Ring.State.{inactive}
use sintra.Ring.Stack.{contains}
use sintra.Ring.Control.{Incarnation, IdentityStatus, Slot, Control, num_slots, slot_at}
use sintra.Ring.Control.Guards.{is_dead}
use sintra.Ring.Control.Scavenge.{Scavenged, scavenge_slot, scavenge_from, scavenge_orphans}
use sintra.Ring.Control.Accounting.{Sound, torn}
use sintra.Ring.Control.Reclaim.{
  reclaimed, kept, Settled, Stepped, drained, is_orphan, scavenge_slot_lem,
}

-- The slots below `k` are settled, the others as they were.
record Passed (probe : Incarnation → IdentityStatus) (reset : ℕ → Option (ℕ × Bool)) (c : Control)
    (k : ℕ) (c' : Control) : Type 0 where
  sound : Sound c'
  done : (j : ℕ) → j < k → Settled (is_orphan probe reset c j) j c c'
  rest : (j : ℕ) → k ≤ j → slot_at c' j ≡ slot_at c j
  rest_free : (j : ℕ) → k ≤ j → contains c'.free_stack j ≡ contains c.free_stack j

Settled-later :
    {taken : Bool} {j : ℕ} {c c1 c2 : Control}
    → Settled taken j c c1
    → slot_at c2 j ≡ slot_at c1 j
    → contains c2.free_stack j ≡ contains c1.free_stack j
    → Settled taken j c c2
Settled-later (reclaimed t a b) p q = reclaimed t (p ∙ a) (q ∙ b)
Settled-later (kept t a b) p q = kept t (p ∙ a) (q ∙ b)

Settled-earlier :
    {taken : Bool} {j : ℕ} {c c1 c2 : Control}
    → Settled taken j c1 c2
    → slot_at c1 j ≡ slot_at c j
    → contains c1.free_stack j ≡ contains c.free_stack j
    → Settled taken j c c2
Settled-earlier (reclaimed t a b) p q = reclaimed t (a ∙ ap torn p) b
Settled-earlier (kept t a b) p q = kept t (a ∙ p) (b ∙ q)

Passed-step :
    (probe : Incarnation → IdentityStatus) (reset : ℕ → Option (ℕ × Bool)) (k : ℕ)
    {c c1 c2 : Control}
    → Passed probe reset c k c1
    → Stepped (is_orphan probe reset c1 k) k c1 c2
    → Passed probe reset c (suc k) c2
Passed-step probe reset k {c} {c1} {c2} p s = record {
  sound = s.sound;
  done = λ j h. elim (ℕ_discrete k j) [
    | no ne ↦ Settled-later (p.done j (omega arith)) (s.others j ne) (s.others_free j ne)
    | yes e ↦ rw (← e) (
        Settled-earlier {c1 = c1}
          (rw
            (ap
              (λ (x : Slot).
                ((x.state.status == inactive) || is_dead (probe x.owner)) && drained (reset k))
              (sym (p.rest k (omega arith))))
            s.own)
          (p.rest k (omega arith)) (p.rest_free k (omega arith)))
  ];
  rest = λ j h. s.others j (omega arith) ∙ p.rest j (omega arith);
  rest_free = λ j h. s.others_free j (omega arith) ∙ p.rest_free j (omega arith);
}

scavenge_from-step :
    (probe : Incarnation → IdentityStatus) (reset : ℕ → Option (ℕ × Bool)) (n k : ℕ)
    (st st1 : Scavenged)
    → num_slots - suc n ≡ k
    → scavenge_slot probe reset k st ≡ some st1
    → scavenge_from probe reset (suc n) st ≡ scavenge_from probe reset n st1
unfolding scavenge_from
scavenge_from-step probe reset n k st st1 e q = rw (e, q, scavenge_from)

scavenge_from_lem :
    (probe : Incarnation → IdentityStatus) (reset : ℕ → Option (ℕ × Bool)) (n k : ℕ) (c : Control)
    (st : Scavenged)
    → n + k ≡ num_slots
    → Passed probe reset c k st.control
    → (st' : Scavenged) × (scavenge_from probe reset n st ≡ some st')
      × Passed probe reset c num_slots st'.control
unfolding scavenge_from
scavenge_from_lem probe reset zero k c st e p =
    (st, refl, subst (λ m. Passed probe reset c m st.control) (omega arith) p)
scavenge_from_lem probe reset (suc n) k c st e p =
    let (st1, q, s) = scavenge_slot_lem probe reset k st p.sound (omega arith) in
    let (st2, r, t) =
      scavenge_from_lem probe reset n (suc k) c st1 (omega arith) (Passed-step probe reset k p s) in
    (st2, scavenge_from-step probe reset n k st st1 (omega arith) q ∙ r, t)

-- From an accounted control block a pass over the slots finishes, whatever the operating system
-- answers: the free stack never overflows. It keeps the accounting. Exactly the slots that are
-- inactive or whose process is dead, and whose semaphore could be drained, are reset and stand on
-- the free stack; every other slot is unchanged, and is free exactly if it was.
pub scavenge_orphans_lem :
    (probe : Incarnation → IdentityStatus) (reset : ℕ → Option (ℕ × Bool)) (c : Control)
    → Sound c
    → (st : Scavenged) × (scavenge_orphans probe reset c ≡ some st)
      × Sound st.control
      × ((i : ℕ) → i < num_slots → Settled (is_orphan probe reset c i) i c st.control)
unfolding scavenge_orphans
scavenge_orphans_lem probe reset c v =
    let start : Scavenged = record { freed = false; errors = []; control = c } in
    let (st, e, p) = scavenge_from_lem probe reset num_slots 0 c start (omega arith) (record {
      sound = v;
      done = λ j h. absurd (omega arith);
      rest = λ j h. refl;
      rest_free = λ j h. refl;
    }) in
    (st, e, p.sound, p.done)
