-- ===== src/Tests/Protocol.antt =====
-- A run of one ring with one reader: it is admitted, guards octile 3, copies, and gives up its
-- guard, or the writer evicts it.
use sintra.Base.{ℕ, ◌+◌, ◌≡◌, ◌≢◌, refl, true, false, none, arith}
use sintra.Ring.State.{ReaderState, active, no_pending, raise_request}
use sintra.Ring.Access.{count, add_count, sub_count}
use sintra.Ring.Transitions.{
  begin_acquire, attach_guard, begin_release, admit_copy, eligible, evict,
}
use sintra.Ring.Protocol.{
  ReaderPc, idle, pended, counted, releasing, copying, evicting, give_back, pend, take_count,
  attach, release, copy_enter, admit, System, update, reader, request, evict_reader, Reach, here,
  next, initial,
}
use sintra.Ring.Protocol.Invariant.{total}
use sintra.Ring.Protocol.Reachable.{counts_exact, copying-guarded, reader-gives_back}

abbrev word : ReaderState
word = record {
  octile = 0;
  present = false;
  copying = false;
  request = false;
  status = active;
  pending = no_pending;
}

abbrev guarding : ReaderState
guarding = record (word) { octile = 3; present = true }

abbrev moved : System → ℕ → ReaderState → ReaderPc → System
moved s a t p = record s { access = a; state = update s.state 0 t; pc = update s.pc 0 p }

abbrev admitted : System
admitted = moved initial 0 word idle

abbrev pending_three : System
pending_three = moved admitted 0 (record (word) { pending = 3 }) (pended 3 none)

abbrev counted_three : System
counted_three = moved pending_three (add_count 0 3) (record (word) { pending = 3 }) (counted 3 none)

abbrev guarding_three : System
guarding_three = moved counted_three (add_count 0 3) guarding idle

guarding_three-Reach : Reach 1 initial guarding_three
unfolding begin_acquire attach_guard
guarding_three-Reach =
    next
      (next
        (next (next here (reader 0 (omega arith) (admit refl)))
          (reader 0 (omega arith) (pend false 3 (omega arith) refl)))
        (reader 0 (omega arith) take_count))
      (reader 0 (omega arith) attach)

counts_exact_example : count guarding_three.access 3 ≡ total 1 3 guarding_three
counts_exact_example =
    counts_exact 1 3 guarding_three (omega arith) (omega arith) guarding_three-Reach

abbrev copying_three : System
copying_three = moved guarding_three (add_count 0 3) (record (guarding) { copying = true }) copying

copying_three-Reach : Reach 1 initial copying_three
unfolding admit_copy
copying_three-Reach = next guarding_three-Reach (reader 0 (omega arith) (copy_enter refl))

copying-guarded_example : (true ≡ true) × (active ≡ active) × (count copying_three.access 3 ≢ 0)
copying-guarded_example =
    copying-guarded 1 0 copying_three (omega arith) (omega arith) copying_three-Reach refl

abbrev releasing_three : System
releasing_three =
    moved guarding_three (add_count 0 3) (record (guarding) { present = false; pending = 3 })
      (releasing 3 false)

releasing_three-Reach : Reach 1 initial releasing_three
unfolding begin_release
releasing_three-Reach = next guarding_three-Reach (reader 0 (omega arith) (release refl))

reader-gives_back_example :
    (give_back releasing_three.access 3 ≡ sub_count releasing_three.access 3)
    × (count (give_back releasing_three.access 3) 3 + 1 ≡ count releasing_three.access 3)
reader-gives_back_example =
    reader-gives_back 1 0 3 false releasing_three (omega arith) (omega arith) releasing_three-Reach
      refl

abbrev requested : System
requested = record (guarding_three) {
  state = update guarding_three.state 0 (raise_request guarding);
}

abbrev evicting_three : System
evicting_three = record (requested) {
  state =
      update requested.state 0 (record (guarding) { request = true; present = false; status = 2 });
  writer = evicting 3 0;
}

evicting_three-Reach : Reach 1 initial evicting_three
unfolding evict eligible
evicting_three-Reach =
    next (next guarding_three-Reach (request 0 (omega arith)))
      (evict_reader 0 5 3 4 (omega arith) refl refl)
