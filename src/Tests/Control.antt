-- ===== src/Tests/Control.antt =====
-- A control block in which the process of the reader in slot 5 died with a guard on octile 2.
use sintra.Base.{
  ℕ, zero, suc, ◌<◌, ◌≤◌, ◌≡◌, refl, Bool, true, false, ◌==◌, [], Option, none, some, replicate,
  set, get_or, get_or-set_ne, ap, ◌∙◌, ◌∷◌, arith, ℕ_discrete, if◌then◌else◌,
}
use sintra.Base.Sums.{sum_below}
use sintra.Ring.State.{
  active, no_pending, set_status, set_guard, set_pending, drop_pending, drop_request, drop_marks,
  raise_request, transition_allowed,
}
use sintra.Ring.State.Word
use sintra.Ring.Transitions.{mark_copying}
use sintra.Ring.State.Codec.{decode, word_refines}
use sintra.Ring.Access.{count}
use sintra.Ring.Access.Counters.{elim_octile}
use sintra.Ring.Stack.{
  IndexStack, push, pop_or, contains, contains_in, index_in, remove_at, remove_value,
}
use sintra.Ring.Stack.Bag.{Fits, occurrences, occurrences_in, pop-push}
use sintra.Ring.Stack.Free.{IsFree, push-IsFree}
use sintra.Ring.Control.{
  Incarnation, IdentityStatus, live, dead, Slot, Control, num_slots, slot_at, initial_slot,
  no_owner,
}
use sintra.Ring.Control.Scavenge.{Scavenged, scavenge_orphans, tear_down, release_mode}
use sintra.Ring.Control.Accounting.{Sound, Dropped, held_total, torn, tear_down_lem}
use sintra.Ring.Control.Reclaim.{Settled, is_orphan}
use sintra.Ring.Control.Pass.{scavenge_orphans_lem}
use sintra.Tests.Reader.{fresh}

abbrev orphan : Slot
orphan = record {
  state = record {
    octile = 2;
    present = true;
    copying = true;
    request = false;
    status = active;
    pending = no_pending;
  };
  v = 40;
  owner = record (no_owner) { pid = 77 };
}

abbrev no_free : IndexStack
no_free = record { arr = replicate 127 none; size = 0 }

abbrev orphaned : Control
orphaned = record {
  leading_sequence = 50;
  global_unblock_sequence = 0;
  writer_closed = false;
  read_access = 0x10000;
  slots = set (replicate 127 initial_slot) 5 orphan;
  free_stack = no_free;
  tokens = replicate 127 false;
  sleeping_stack = no_free;
  diagnostics = fresh;
}

-- The process 77 is dead.
abbrev probe : Incarnation → IdentityStatus
probe owner = if owner.pid == 77 then dead else live

-- Every semaphore can be drained.
abbrev reset : ℕ → Option (ℕ × Bool)
reset i = none

get_or-replicate {ℓ} : {A : Type ℓ} (n i : ℕ) (a : A) → get_or (replicate n a) i a ≡ a
get_or-replicate zero i a = refl
get_or-replicate (suc n) zero a = refl
get_or-replicate (suc n) (suc i) a = get_or-replicate n i a

no_free-IsFree : IsFree 127 no_free
unfolding occurrences occurrences_in sum_below
no_free-IsFree = record {
  fits = record { storage = refl; within = omega arith };
  once = λ u. omega arith;
  all = refl;
}

abbrev Covered : ℕ → Type 0
Covered o = held_total o orphaned ≤ count orphaned.read_access o

all-Covered : (o : ℕ) → o < 8 → Covered o
unfolding count sum_below
all-Covered =
    elim_octile Covered (omega arith) (omega arith) (omega arith) (omega arith) (omega arith)
      (omega arith) (omega arith) (omega arith)

slot_guards_small :
    (i : ℕ)
    → (slot_at orphaned i).state.present ≡ true
    → ((slot_at orphaned i).state.octile < 8) × ((slot_at orphaned i).state.status ≡ active)
slot_guards_small i q = elim (ℕ_discrete 5 i) [
  | yes e ↦ rw (← e) (omega arith, refl)
  | no ne ↦
      let same : slot_at orphaned i ≡ initial_slot =
        get_or-set_ne (replicate 127 initial_slot) 5 i orphan initial_slot ne
        ∙ get_or-replicate 127 i initial_slot in
      absurd (ground (arith, ap (λ (s : Slot). s.state.present) same, q))
]

orphaned-Sound : Sound orphaned
orphaned-Sound = record {
  slot_count = refl;
  word = omega arith;
  free = no_free-IsFree;
  guards = slot_guards_small;
  covered = all-Covered;
}

scavenge_orphans_example :
    (st : Scavenged) × (scavenge_orphans probe reset orphaned ≡ some st)
    × Sound st.control
    × ((i : ℕ) → i < num_slots → Settled (is_orphan probe reset orphaned i) i orphaned st.control)
scavenge_orphans_example = scavenge_orphans_lem probe reset orphaned orphaned-Sound

tear_down_example :
    Dropped orphaned 5
      (torn (slot_at orphaned 5))
      (tear_down probe 5 (release_mode active) orphaned)
tear_down_example = tear_down_lem probe 5 orphaned-Sound (omega arith)

push-IsFree_example :
    (t : IndexStack) × (push 127 5 no_free ≡ some t)
    × IsFree 127 t
    × ((u : ℕ) → contains t u ≡ (if 5 == u then true else contains no_free u))
unfolding contains contains_in
push-IsFree_example = push-IsFree 127 5 no_free-IsFree (omega arith) refl

abbrev three : IndexStack
three = record { arr = some 4 ∷ some 9 ∷ some 6 ∷ none ∷ []; size = 3 }

three-Fits : Fits 4 three
three-Fits = record { storage = refl; within = omega arith }

remove_value_test :
    remove_value 4 three ≡ (true, record { arr = some 6 ∷ some 9 ∷ none ∷ none ∷ []; size = 2 })
unfolding remove_value index_in remove_at
remove_value_test = refl

pop-push_example :
    ((pop_or none (record { arr = some 4 ∷ some 9 ∷ some 6 ∷ some 8 ∷ []; size = 4 })).0 ≡ some 8)
    × ((u : ℕ)
        → occurrences
            (pop_or none (record { arr = some 4 ∷ some 9 ∷ some 6 ∷ some 8 ∷ []; size = 4 })).1
            u
          ≡ occurrences three u)
unfolding push
pop-push_example = pop-push 4 8 none three-Fits refl

-- An active reader's word with a guard on octile 2, and the octile 3.
word_refines_example :
    (decode (Word.make_word 1 3 true 5) ≡ record {
      octile = 3;
      present = true;
      copying = false;
      request = false;
      status = 1;
      pending = 5;
    })
    × (decode (Word.with_status 0xff010102 1) ≡ set_status (decode 0xff010102) 1)
    × (decode (Word.with_guard 0xff010102 3 true) ≡ set_guard (decode 0xff010102) 3 true)
    × (decode (Word.with_pending 0xff010102 5) ≡ set_pending (decode 0xff010102) 5)
    × (decode (Word.clear_pending 0xff010102) ≡ drop_pending (decode 0xff010102))
    × (decode (Word.clear_request 0xff010102) ≡ drop_request (decode 0xff010102))
    × (decode (Word.clear_marks 0xff010102) ≡ drop_marks (decode 0xff010102))
    × (decode (Word.set_request 0xff010102) ≡ raise_request (decode 0xff010102))
    × (decode (Word.set_copying 0xff010102) ≡ mark_copying (decode 0xff010102) true)
    × (decode (Word.clear_copying 0xff010102) ≡ mark_copying (decode 0xff010102) false)
    × (Word.guard_transition_allowed 0xff010102 ≡ transition_allowed (decode 0xff010102))
word_refines_example =
    word_refines 0xff010102 1 3 5 true (omega arith) (omega arith) (omega arith) (omega arith)
