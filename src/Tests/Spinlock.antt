-- ===== src/Tests/Spinlock.antt =====
-- Thread 0 takes the lock and its process exits; thread 1, of another process, takes it over.
use sintra.Base.{ℕ, suc, ◌%◌, ◌≡◌, ◌≢◌, refl, false, arith}
use sintra.Spinlock.{
  marking, critical, suspecting, bumped, taking, Lock, set_pc, set_exited, acquire, odd_mark,
  suspect, bump, take, mark, move, exit, Reach, here, next, unlocked, advance, take_over_mark,
}
use sintra.Spinlock.Moves.{holds}
use sintra.Spinlock.Exclusion.{excludes, critical-owner, take_over-safe}

some_instance : (t : ℕ) → suc t ≢ 0
some_instance t = λ e. omega (arith, e)

abbrev marking_first : Lock
marking_first = record (unlocked) { owner = 1; pc = set_pc unlocked.pc 0 marking }

abbrev taken : Lock
taken = record (marking_first) { generation = 1; pc = set_pc marking_first.pc 0 critical }

taken-Reach : Reach (λ t. suc t) unlocked taken
unfolding advance
taken-Reach = next (next here (move 0 refl (acquire refl))) (move 0 refl odd_mark)

critical-owner_example : (taken.owner ≡ 1) × (taken.generation % 2 ≡ 1)
critical-owner_example = critical-owner (λ t. suc t) some_instance taken 0 taken-Reach refl refl

abbrev abandoned : Lock
abandoned = record (taken) { exited = set_exited taken.exited 1 }

abbrev suspected : Lock
suspected = record (abandoned) { pc = set_pc abandoned.pc 1 (suspecting 1) }

abbrev bumped_second : Lock
bumped_second = record (suspected) { generation = 3; pc = set_pc suspected.pc 1 (bumped 1) }

bumped_second-Reach : Reach (λ t. suc t) unlocked bumped_second
unfolding advance
bumped_second-Reach =
    next (next (next taken-Reach (exit 1)) (move 1 refl (suspect (λ e. omega (arith, e)) refl)))
      (move 1 refl bump)

take_over-safe_example : holds (bumped_second.pc 2) ≡ false
take_over-safe_example =
    take_over-safe (λ t. suc t) some_instance bumped_second 1 2 1 bumped_second-Reach refl refl refl
      refl

abbrev swapped : Lock
swapped = record (bumped_second) { owner = 2; pc = set_pc bumped_second.pc 1 taking }

abbrev taken_over : Lock
taken_over = record (swapped) { generation = 5; pc = set_pc swapped.pc 1 critical }

taken_over-Reach : Reach (λ t. suc t) unlocked taken_over
unfolding take_over_mark advance
taken_over-Reach = next (next bumped_second-Reach (move 1 refl (take refl))) (move 1 refl mark)

abbrev second : ℕ
second = 1

excludes_example : second ≡ second
excludes_example =
    excludes (λ t. suc t) some_instance taken_over second second taken_over-Reach refl refl refl
      refl
