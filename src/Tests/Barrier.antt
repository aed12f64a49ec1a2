-- ===== src/Tests/Barrier.antt =====
-- Processes 1, 2 and 3 at one barrier: 1 has arrived, 3 is dropped and 2 arrives last.
use sintra.Base.{ℕ, ◌≡◌, refl, false, ◌||◌, ◌==◌, none, some, List, [], ◌∷◌, mem, arith}
use sintra.Barrier.{Barrier, arrives, leaves, deferred, barrier, join, record_arrival, run_barrier}
use sintra.Barrier.Completion.{Awaits, arrives_in, run_barrier_completes}

abbrev waiting : Barrier
waiting = record {
  processes_pending = 2 ∷ 3 ∷ [];
  processes_arrived = 1 ∷ [];
  mode_tag = 0;
  common_function_iid = 70;
}

-- The member 4 is draining, so nobody waits for it.
barrier_test :
    barrier (λ p. p == 4) (λ p. false) false (1 ∷ 2 ∷ 3 ∷ 4 ∷ []) 70 0 1 none
    ≡ (deferred 70, some waiting)
unfolding barrier join record_arrival
barrier_test = refl

waiting-Awaits : Awaits 0 (leaves 3 ∷ arrives 2 ∷ []) waiting
waiting-Awaits = record {
  same_mode = refl;
  waits = λ x. ground arith;
  apart = λ x h. ground (arith, h);
}

run_barrier_completes_example :
    (answered : List ℕ) × (run_barrier [] 71 0 (leaves 3 ∷ arrives 2 ∷ []) waiting
      ≡ some (answered, []))
    × ((x : ℕ) → mem x answered ≡ (mem x (1 ∷ []) || arrives_in x (leaves 3 ∷ arrives 2 ∷ [])))
run_barrier_completes_example =
    run_barrier_completes [] 71 0 (leaves 3) (arrives 2 ∷ []) waiting (refl, (refl, tt))
      waiting-Awaits
