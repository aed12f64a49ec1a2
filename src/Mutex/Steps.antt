-- ===== src/Mutex/Steps.antt =====
-- Every atomic operation keeps the invariant.
use sintra.Base.{ℕ, ◌≡◌, inl, inr, refl, ap, true, false, arith}
use sintra.Mutex.{
  Words, Pc, idle, publishing, checked, stamped, tupled, owning, critical, recovering_from,
  condemned, leaving, Mutex, release_recovery_gate, Move, clear_gate, enter_publication,
  find_unowned, find_owned, store_stamp, store_instance, publish, lose_publication,
  finish_publication, leave, enter_recovery, find_changed, find_running, condemn, recover, spare,
  unlock, fail_unlock,
}
use sintra.Mutex.Invariant.{holds, owns, is_condemned, Identities, Inv-owns}
use sintra.Mutex.Moves.{
  Holds, RunsIn, PlaceOf, instance_id, Moved, no_owner-zero, at_gate, enter_gate,
}
use sintra.Mutex.Evidence.{has_exited-running, owner_has_exited-no_owner}

module _ (pid_of nonce_of stamp_of process_of tid_of : ℕ → ℕ)
    (ids : Identities pid_of nonce_of stamp_of process_of tid_of) where
  abbrev State : Mutex → Type 0
  State m = Holds pid_of nonce_of stamp_of process_of tid_of ids m

  abbrev Runs : Mutex → ℕ → Type 0
  Runs m t = RunsIn pid_of nonce_of stamp_of process_of tid_of ids m t

  abbrev Stands : ℕ → Words → Pc → Type 0
  Stands t w p = PlaceOf pid_of nonce_of stamp_of process_of tid_of ids t w p

  abbrev Effect : Mutex → ℕ → Pc → Words → Pc → Type 0
  Effect m t p w p' = Moved pid_of nonce_of stamp_of process_of tid_of ids m t p w p'

  abbrev inst : ℕ → ℕ
  inst p = instance_id pid_of nonce_of stamp_of process_of tid_of ids p

  -- An operation at the gate that changes no word of the owner.
  quiet :
      (m : Mutex) (t : ℕ) (p p' : Pc)
      → State m
      → Runs m t
      → m.pc t ≡ p
      → holds p ≡ true
      → Stands t m.words p'
      → (is_condemned p' ≡ true → (u : ℕ) → Runs m u → owns (m.pc u) ≡ false)
      → Effect m t p m.words p'
  quiet m t p p' h l e a place c =
      at_gate pid_of nonce_of stamp_of process_of tid_of ids m t p m.words p' h l e a place
        (inr (refl, refl, refl)) (λ q. refl) c

  -- The release of the gate.
  release :
      (m : Mutex) (t : ℕ) (p p' : Pc)
      → State m
      → Runs m t
      → m.pc t ≡ p
      → holds p ≡ true
      → holds p' ≡ false
      → is_condemned p' ≡ false
      → Stands t (release_recovery_gate (inst (process_of t)) m.words) p'
      → Effect m t p (release_recovery_gate (inst (process_of t)) m.words) p'
  unfolding release_recovery_gate
  release m t p p' h l e a b c place =
      at_gate pid_of nonce_of stamp_of process_of tid_of ids m t p
        (release_recovery_gate (inst (process_of t)) m.words) p' h l e a place
        (inr (refl, refl, refl)) (λ q. absurd (ground (arith, q, b)))
        (λ q. absurd (ground (arith, q, c)))

  no_owner : (m : Mutex) → State m → m.words.owner ≡ 0 → (u : ℕ) → Runs m u → owns (m.pc u) ≡ false
  no_owner m h z u k = no_owner-zero pid_of nonce_of stamp_of process_of tid_of ids m u h k z

  -- The owner gives the mutex back.
  give_back :
      (m : Mutex) (t : ℕ)
      → State m
      → Runs m t
      → m.pc t ≡ critical
      → Effect m t critical (record (m.words) { owner = 0 }) idle
  give_back m t h l e = record {
    self_place = tt;
    self_gate = λ q. absurd (ground (arith, q));
    entered = λ q. absurd (ground (arith, q));
    other_gate = λ u k b ne. refl;
    other_own = λ u k b ne.
        absurd
          (ne (Inv-owns pid_of nonce_of stamp_of process_of tid_of m t u ids h l k (ap owns e) b));
    other_place = λ u k b ne. (inr refl, refl, refl);
    condemns = λ q. absurd (ground (arith, q));
    owns_after = λ q. absurd (ground (arith, q));
  }

  pub Move-Moved :
      (m : Mutex) (t : ℕ) {p p' : Pc} {w : Words}
      → State m
      → Runs m t
      → m.pc t ≡ p
      → Stands t m.words p
      → Move pid_of nonce_of stamp_of process_of tid_of m.phase t m.words p w p'
      → Effect m t p w p'
  unfolding release_recovery_gate
  Move-Moved m t h l e v (clear_gate alive a nz x) = record {
    self_place = tt;
    self_gate = λ q. absurd (ground (arith, q));
    entered = λ q. absurd (ground (arith, q));
    other_gate = λ u k b ne. absurd (
        ground (
          arith,
          x,
          has_exited-running pid_of nonce_of stamp_of process_of tid_of ids m t (process_of u)
              m.words.recovering alive h l k (h.gate u k b) a,
        ));
    other_own = λ u k b ne. (refl, refl, refl);
    other_place = λ u k b ne. (inl refl, refl, refl);
    condemns = λ q. absurd (ground (arith, q));
    owns_after = λ q. absurd (ground (arith, q));
  }
  Move-Moved m t h l e v (enter_publication z) =
      enter_gate pid_of nonce_of stamp_of process_of tid_of ids m t publishing h e z tt refl refl
  Move-Moved m t h l e v (enter_recovery observed nz z) =
      enter_gate pid_of nonce_of stamp_of process_of tid_of ids m t (recovering_from observed) h e z
        tt refl refl
  Move-Moved m t h l e v (find_unowned z) =
      quiet m t publishing checked h l e refl z (λ q. absurd (ground (arith, q)))
  Move-Moved m t h l e v (find_owned nz) =
      quiet m t publishing leaving h l e refl tt (λ q. absurd (ground (arith, q)))
  Move-Moved m t h l e v (store_stamp stamp s) =
      at_gate pid_of nonce_of stamp_of process_of tid_of ids m t checked _ stamped h l e refl
        (record { no_owner = v; own_stamp = s }) (inl (no_owner m h v)) (λ q. refl)
        (λ q. absurd (ground (arith, q)))
  Move-Moved m t h l e v store_instance =
      at_gate pid_of nonce_of stamp_of process_of tid_of ids m t stamped _ tupled h l e refl
        (record {
          stamp = record { no_owner = v.no_owner; own_stamp = v.own_stamp };
          own_instance = refl;
        })
        (inl (no_owner m h v.no_owner)) (λ q. refl) (λ q. absurd (ground (arith, q)))
  Move-Moved m t h l e v (publish z) =
      at_gate pid_of nonce_of stamp_of process_of tid_of ids m t tupled _ owning h l e refl
        (record { is_owner = refl; is_instance = v.own_instance; is_stamp = v.stamp.own_stamp })
        (inl (no_owner m h z)) (λ q. refl) (λ q. absurd (ground (arith, q)))
  Move-Moved m t h l e v (lose_publication nz) =
      quiet m t tupled leaving h l e refl tt (λ q. absurd (ground (arith, q)))
  Move-Moved m t h l e v finish_publication =
      release m t owning critical h l e refl refl refl
        (record { is_owner = v.is_owner; is_instance = v.is_instance; is_stamp = v.is_stamp })
  Move-Moved m t h l e v leave = release m t leaving idle h l e refl refl refl tt
  Move-Moved m t h l e v (find_changed {observed} ne) =
      quiet m t (recovering_from observed) leaving h l e refl tt (λ q. absurd (ground (arith, q)))
  Move-Moved m t h l e v (find_running {observed} alive current o x) =
      quiet m t (recovering_from observed) leaving h l e refl tt (λ q. absurd (ground (arith, q)))
  Move-Moved m t h l e v (condemn {observed} alive current a s o x) =
      quiet m t (recovering_from observed) (condemned observed) h l e refl tt (λ q u k.
        owner_has_exited-no_owner pid_of nonce_of stamp_of process_of tid_of ids m t u observed
          alive current h l k a s o x)
  Move-Moved m t h l e v (recover {observed} o) =
      at_gate pid_of nonce_of stamp_of process_of tid_of ids m t (condemned observed) _ leaving h l
        e refl tt (inl (λ u k. h.no_owner t u l k (ap is_condemned e))) (λ q. refl)
        (λ q. absurd (ground (arith, q)))
  Move-Moved m t h l e v (spare {observed} ne) =
      quiet m t (condemned observed) leaving h l e refl tt (λ q. absurd (ground (arith, q)))
  Move-Moved m t h l e v (unlock o) = give_back m t h l e
  Move-Moved m t h l e v (fail_unlock ne) = absurd (ne (v.is_owner))
