-- ===== src/Mutex/Exclusion.antt =====
-- No two threads whose processes run hold the mutex.
use sintra.Base.{ℕ, ◌≡◌, refl, true, arith}
use sintra.Mutex.{Mutex}
use sintra.Mutex.Invariant.{owns, Identities, Place-Tuple, Inv-owns}
use sintra.Mutex.Moves.{Holds, RunsIn, instance_id}
use sintra.Mutex.{Step, Reach, move, exit, start, here, next, unused, token_of}
use sintra.Mutex.Steps.{Move-Moved}
use sintra.Mutex.Preservation.{Moved-Inv}
use sintra.Mutex.Processes.{exit-Inv, start-Inv}

module _ (pid_of nonce_of stamp_of process_of tid_of : ℕ → ℕ)
    (ids : Identities pid_of nonce_of stamp_of process_of tid_of) where
  abbrev State : Mutex → Type 0
  State m = Holds pid_of nonce_of stamp_of process_of tid_of ids m

  abbrev Runs : Mutex → ℕ → Type 0
  Runs m t = RunsIn pid_of nonce_of stamp_of process_of tid_of ids m t

  pub Step-Inv :
      (m n : Mutex) → State m → Step pid_of nonce_of stamp_of process_of tid_of m n → State n
  Step-Inv m _ h (move t {w} {p} l v) =
      Moved-Inv pid_of nonce_of stamp_of process_of tid_of ids m t p w h l
        (Move-Moved pid_of nonce_of stamp_of process_of tid_of ids m t h l refl (h.place t l) v)
  Step-Inv m _ h (exit process) =
      exit-Inv pid_of nonce_of stamp_of process_of tid_of ids m process h
  Step-Inv m _ h (start process e free) =
      start-Inv pid_of nonce_of stamp_of process_of tid_of ids m process h e free

  pub Reach-Inv :
      (m n : Mutex) → State m → Reach pid_of nonce_of stamp_of process_of tid_of m n → State n
  Reach-Inv m _ h here = h
  Reach-Inv m _ h (next {n} {k} r s) = Step-Inv n k (Reach-Inv m n h r) s

  pub unused-Inv : State unused
  unused-Inv = record {
    place = λ t k. tt;
    gate = λ t k a. absurd (ground (arith, a));
    gate_one = λ t u k l a b. absurd (ground (arith, a));
    no_owner = λ t u k l a. refl;
    one_pid = λ p q k l e. absurd (ground (arith, k));
    unborn_idle = λ t e. refl;
  }

  -- Whatever the threads do and whichever processes start and exit, also where a process takes over
  -- the process id of one that has exited, two threads that hold the mutex and whose processes
  -- run are the same thread.
  pub excludes_live :
      (m : Mutex) (t u : ℕ)
      → Reach pid_of nonce_of stamp_of process_of tid_of unused m
      → Runs m t
      → Runs m u
      → owns (m.pc t) ≡ true
      → owns (m.pc u) ≡ true
      → t ≡ u
  excludes_live m t u r l k a b =
      Inv-owns pid_of nonce_of stamp_of process_of tid_of m t u ids
        (Reach-Inv unused m unused-Inv r) l k a b

  -- A thread that holds the mutex and whose process runs is the owner that the words name, so its
  -- unlock succeeds; nobody takes the mutex away from it.
  pub owner_keeps :
      (m : Mutex) (t : ℕ)
      → Reach pid_of nonce_of stamp_of process_of tid_of unused m
      → Runs m t
      → owns (m.pc t) ≡ true
      → (m.words.owner ≡ token_of pid_of nonce_of stamp_of process_of tid_of t)
        × (m.words.owner_instance
            ≡ instance_id pid_of nonce_of stamp_of process_of tid_of ids (process_of t))
  owner_keeps m t r l a =
      let v =
        Place-Tuple pid_of nonce_of stamp_of process_of tid_of t m.words (m.pc t)
          ((Reach-Inv unused m unused-Inv r).place t l) a in
      (v.is_owner, v.is_instance)
