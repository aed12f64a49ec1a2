-- ===== src/Tests/Writer.antt =====
-- A writer of a ring of 16 elements, and a reader that guards its trailing octile.
use sintra.Base.{ℕ, ◌%◌, ◌≡◌, refl, true, arith, some, [], ◌∷◌, List}
use sintra.Ring.Access.{octile_of_index, count}
use sintra.Ring.Layout.{trailing_octile_of, mod_pos_i64}
use sintra.Ring.Writer.{
  Writer, access, done, await_octile, advance_octile, prepare_write, Ring, store, store_all, write,
  done_writing, Action, put, publish, run,
}
use sintra.Ring.Writer.Reserve.{Reserved, prepare_write-done}
use sintra.Ring.Writer.Frame.{run-keeps_window}

abbrev at_start : Writer
at_start = record { num = 16; thread = 0; octile = 2; pending = 20 }

abbrev two_ring : Ring ℕ
two_ring = record { writer = at_start; cells = λ i. i; leading = 20 }

prepare_write_test :
    prepare_write (λ i. true) 7 2 (access 0 ∷ []) at_start
    ≡ done (4, record { num = 16; thread = 7; octile = 3; pending = 22 })
unfolding prepare_write advance_octile await_octile octile_of_index count
prepare_write_test = refl

prepare_write-done_example :
    Reserved 2 2
      (access 0 ∷ [])
      at_start
      4
      (record { num = 16; thread = 7; octile = 3; pending = 22 })
prepare_write-done_example =
    prepare_write-done (λ i. true) 7 2 2 (access 0 ∷ []) at_start (omega arith) (omega arith)
      (refl, refl) (omega arith) prepare_write_test

-- The reader saw the head 20 and guards the octile of 20 - 12 = 8, which is octile 4.
abbrev actions : List (Action ℕ)
actions = put (100 ∷ 101 ∷ []) (access 0x100000000 ∷ []) ∷ publish ∷ []

abbrev after : Ring ℕ
after = record {
  writer = record { num = 16; thread = 0; octile = 3; pending = 22 };
  cells = store 16 (store 16 (λ i. i) 4 100) 5 101;
  leading = 22;
}

run_test : run (λ i. true) 7 actions two_ring ≡ some after
unfolding run write store_all done_writing prepare_write advance_octile await_octile octile_of_index
    count
run_test = refl

run-keeps_window_example : after.cells (9 % 16) ≡ two_ring.cells (9 % 16)
unfolding trailing_octile_of mod_pos_i64 octile_of_index count
run-keeps_window_example =
    run-keeps_window (λ i. true) 7 2 12 20 actions two_ring (omega arith) (omega arith)
      (omega arith) (omega arith) (refl, refl) (omega arith) (omega arith)
      ((λ e. omega (arith, e), tt), tt) run_test 9 (omega arith) (omega arith)
