-- ===== src/Ring/Protocol/Steps.antt =====
-- One step of the ring keeps the invariant of `Protocol.Invariant`.
use sintra.Base.{
  ℕ, ◌+◌, ◌<◌, ◌≤◌, ◌≡◌, Bool, true, false, ◌==◌, bit, some, arith, ==_refl, Bool-cases, inl, inr,
}
use sintra.Base.Sums.{sum_below, sum_below-change, le-sum_below, sum_below-le_rest}
use sintra.Ring.Control.{num_slots}
use sintra.Ring.State.{ReaderState, raise_request, drop_request}
use sintra.Ring.Access.Counters.{count-sub_count, sub_count-lt}
use sintra.Ring.Transitions.{eligible, evict}
use sintra.Ring.Protocol.{
  ReaderPc, idle, reader, request, cancel, evict_reader, give_evicted, answer, System, update, Step,
}
use sintra.Ring.Protocol.Invariant.{Inv, IsSlot, owes, Room, Move-Paid}

owes-le_two : (o : ℕ) (s : ReaderState) (p : ReaderPc) → owes o s p ≤ 2
owes-le_two o s p = ground arith

room :
    {n : ℕ} {s : System} (i : ℕ)
    → n ≤ num_slots
    → Inv n s
    → i < n
    → Room s.access (s.state i) (s.pc i)
room {n} {s} i few v h = record {
  above =
      λ o ho. omega (arith, v.exact o ho, le-sum_below n i (λ j. owes o (s.state j) (s.pc j)) h);
  below = λ o ho. ground (
    arith,
    v.exact o ho,
    sum_below-le_rest n i (λ j. owes o (s.state j) (s.pc j)) h
        (λ j. owes-le_two o (s.state j) (s.pc j)),
  );
}

-- How the total changes when one reader's state and place change.
total-update :
    (n o : ℕ) (s : System) (i : ℕ) (t : ReaderState) (p : ReaderPc)
    → i < n
    → sum_below n (λ j. owes o (update s.state i t j) (update s.pc i p j))
        + owes o (s.state i) (s.pc i)
      ≡ sum_below n (λ j. owes o (s.state j) (s.pc j)) + owes o t p
total-update n o s i t p h = ground (
  arith,
  ==_refl i,
  sum_below-change n i (λ j. owes o (s.state j) (s.pc j))
      (λ j. owes o (update s.state i t j) (update s.pc i p j)) h (λ j ne. ground arith),
)

-- A state word changes, and its reader stays where it is.
total-state :
    (n o : ℕ) (s : System) (i : ℕ) (t : ReaderState)
    → i < n
    → sum_below n (λ j. owes o (update s.state i t j) (s.pc j)) + owes o (s.state i) (s.pc i)
      ≡ sum_below n (λ j. owes o (s.state j) (s.pc j)) + owes o t (s.pc i)
total-state n o s i t h = ground (
  arith,
  ==_refl i,
  sum_below-change n i (λ j. owes o (s.state j) (s.pc j))
      (λ j. owes o (update s.state i t j) (s.pc j)) h (λ j ne. ground arith),
)

IsSlot-update :
    (s : System) (i j : ℕ) (t : ReaderState) (p : ReaderPc)
    → IsSlot t p
    → IsSlot (s.state j) (s.pc j)
    → IsSlot (update s.state i t j) (update s.pc i p j)
IsSlot-update s i j t p new old = elim (Bool-cases (i == j)) [ inl e ↦ rw e new | inr e ↦ rw e old ]

IsSlot-state :
    (s : System) (i j : ℕ) (t : ReaderState)
    → IsSlot t (s.pc i)
    → IsSlot (s.state j) (s.pc j)
    → IsSlot (update s.state i t j) (s.pc j)
IsSlot-state s i j t new old = elim (Bool-cases (i == j)) [
  | inl e ↦ let q : i ≡ j = ground (arith, e) in rw (e, ← q) new
  | inr e ↦ rw e old
]

-- The writer's operations on a state word that leave the guard alone.
request-IsSlot :
    (s : ReaderState) (p : ReaderPc) (b : Bool) → IsSlot s p → IsSlot (record s { request = b }) p
request-IsSlot s idle b v = record {
  local = v.local;
  octile_small = v.octile_small;
  guard_active = v.guard_active;
}
request-IsSlot s p b v = record {
  local = v.local;
  octile_small = v.octile_small;
  guard_active = v.guard_active;
}

-- An eviction meets only a reader that is between two transactions and does not copy.
evict-IsSlot :
    (threshold new_octile v : ℕ) (s t : ReaderState) (p : ReaderPc)
    → IsSlot s p
    → evict threshold new_octile v s ≡ some t
    → IsSlot t p × (s.octile < 8) × ((o : ℕ) → owes o t p + bit (s.octile == o) ≡ owes o s p)
unfolding evict eligible
evict-IsSlot threshold new_octile v s t idle k e = (
  record {
    local = ground (arith, k.local);
    octile_small = λ q. ground arith;
    guard_active = λ q. ground arith;
  },
  ground (arith, k.octile_small),
  λ o. ground arith,
)
evict-IsSlot threshold new_octile v s t p k e = (
  record {
    local = ground (arith, k.local);
    octile_small = λ q. ground arith;
    guard_active = λ q. ground arith;
  },
  ground (arith, k.octile_small, k.local),
  λ o. ground (arith, k.local),
)

-- Every step keeps the invariant.
pub Step-Inv : {n : ℕ} {s t : System} → n ≤ num_slots → Inv n s → Step n s t → Inv n t
Step-Inv {n} {s} few v (reader i {a} {t} {p} h m) =
    let paid = Move-Paid v.word (v.slot i) (room i few v h) m in
    record {
      word = paid.word;
      slot = λ j. IsSlot-update s i j t p paid.slot (v.slot j);
      writer = v.writer;
      exact = λ o ho. omega (arith, v.exact o ho, paid.paid o ho, total-update n o s i t p h);
    }
Step-Inv {n} {s} few v (request i h) = record {
  word = v.word;
  slot = λ j. IsSlot-state s i j _ (request-IsSlot (s.state i) (s.pc i) true (v.slot i)) (v.slot j);
  writer = v.writer;
  exact = λ o ho. omega (arith, v.exact o ho, total-state n o s i (raise_request (s.state i)) h);
}
Step-Inv {n} {s} few v (cancel i h) = record {
  word = v.word;
  slot =
      λ j. IsSlot-state s i j _ (request-IsSlot (s.state i) (s.pc i) false (v.slot i)) (v.slot j);
  writer = v.writer;
  exact = λ o ho. omega (arith, v.exact o ho, total-state n o s i (drop_request (s.state i)) h);
}
Step-Inv {n} {s} few v (evict_reader i threshold new_octile position {t} h e w) =
    let k = evict-IsSlot threshold new_octile position (s.state i) t (s.pc i) (v.slot i) w in
    record {
      word = v.word;
      slot = λ j. IsSlot-state s i j t k.0 (v.slot j);
      writer = k.1;
      exact = λ o ho. ground (arith, v.exact o ho, e, k.2 o, total-state n o s i t h);
    }
Step-Inv {n} {s} few v (give_evicted {octile} {i} e) = record {
  word = ground (arith, v.word, sub_count-lt s.access octile);
  slot = v.slot;
  writer = tt;
  exact = λ o ho. ground (
    arith,
    e,
    v.exact o ho,
    v.exact octile,
    v.writer,
    v.word,
    ==_refl octile,
    count-sub_count octile o s.access,
  );
}
Step-Inv {n} {s} few v (answer {i} h e) = record {
  word = v.word;
  slot =
      λ j. IsSlot-state s i j _ (request-IsSlot (s.state i) (s.pc i) false (v.slot i)) (v.slot j);
  writer = tt;
  exact = λ o ho. ground (arith, e, v.exact o ho, total-state n o s i (drop_request (s.state i)) h);
}
