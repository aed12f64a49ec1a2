-- ===== src/Spinlock/Exclusion.antt =====
-- The spinlock excludes: of the threads that have not exited, at most one is inside.
use sintra.Base.{
  ◌⊎◌, ◌∙◌, ap, ℕ, ◌%◌, ◌≡◌, ◌≢◌, refl, sym, Bool, true, false, ◌==◌, arith, Bool-cases, inl, inr,
}
use sintra.Spinlock.{
  Pc, outside, marking, critical, unlocking, suspecting, bumped, taking, Lock, set_exited, Step,
  move, exit, Reach, here, next, unlocked,
}
use sintra.Spinlock.Moves.{
  holds, Parity, Seen, Place, Vacant, Moved, Move-Moved, moved_holds, Seen-later, critical-marked,
  bumped-Seen,
}

module _ (instance_of : ℕ → ℕ) (some_instance : (t : ℕ) → instance_of t ≢ 0) where
  abbrev Live : Lock → ℕ → Type 0
  Live s t = s.exited (instance_of t) ≡ false

  record Inv (s : Lock) : Type 0 where
    free_even : s.owner ≡ 0 → s.generation % 2 ≡ 0
    place : (t : ℕ) → Live s t → Place s.exited (instance_of t) s.owner s.generation (s.pc t)
    one : (t u : ℕ) → Live s t → Live s u → holds (s.pc t) ≡ true → holds (s.pc u) ≡ true → t ≡ u

  -- Where the lock is vacant but for `t`, no other live thread holds it.
  vacant :
      (s : Lock) (t u : ℕ)
      → Inv s
      → Live s t
      → Live s u
      → holds (s.pc u) ≡ true
      → Vacant s.exited s.owner (s.pc t)
      → t ≡ u
  vacant s t u v lt lu h (inl k) = v.one t u lt lu k h
  vacant s t u v lt lu h (inr (inl k)) = absurd (some_instance u (sym ((v.place u lu).owner h) ∙ k))
  vacant s t u v lt lu h (inr (inr k)) =
      absurd (ground (arith, lu, ap s.exited ((v.place u lu).owner h), k))

  -- The words that another thread's move leaves are still right for a live thread.
  other-Place :
      (s : Lock) (t u : ℕ) {o g : ℕ} {p : Pc}
      → Inv s
      → Live s t
      → Live s u
      → t ≢ u
      → Moved s.exited (instance_of t) s.owner s.generation (s.pc t) o g p
      → Place s.exited (instance_of u) o g (s.pc u)
  other-Place s t u {o} {g} v lt lu ne m = elim m.kept [
    | inl e ↦ record {
      seen_exited = (v.place u lu).seen_exited;
      owner = λ q. e.0 ∙ (v.place u lu).owner q;
      marked = same_parity (s.pc u) s.generation g e.1 (v.place u lu).marked;
    }
    | inr e ↦ idle-Place (s.pc u) (λ q. ne (vacant s t u v lt lu q e)) (v.place u lu).seen_exited
  ]
    where
      same_parity : (p : Pc) (g g' : ℕ) → g' % 2 ≡ g % 2 → Parity g p → Parity g' p
      same_parity marking g g' e k = e ∙ k
      same_parity critical g g' e k = e ∙ k
      same_parity unlocking g g' e k = e ∙ k
      same_parity outside g g' e k = tt
      same_parity taking g g' e k = tt
      same_parity (suspecting x) g g' e k = tt
      same_parity (bumped x) g g' e k = tt

      idle-Place :
          {exited : ℕ → Bool} {self o g : ℕ} (p : Pc)
          → ¬ (holds p ≡ true)
          → Seen exited p
          → Place exited self o g p
      idle-Place outside h k = record { seen_exited = k; owner = λ q. absurd (h q); marked = tt }
      idle-Place (suspecting x) h k = record {
        seen_exited = k;
        owner = λ q. absurd (h q);
        marked = tt;
      }
      idle-Place (bumped x) h k = record { seen_exited = k; owner = λ q. absurd (h q); marked = tt }
      idle-Place marking h k = absurd (h refl)
      idle-Place critical h k = absurd (h refl)
      idle-Place unlocking h k = absurd (h refl)
      idle-Place taking h k = absurd (h refl)

  exited_before :
      (s : Lock) (process u : ℕ) → set_exited s.exited process (instance_of u) ≡ false → Live s u
  exited_before s process u h = ground (arith, h)

  -- Two live threads inside, after a move of `t`.
  moved-one :
      (s : Lock) (t u w : ℕ) (p : Pc)
      → Inv s
      → Live s t
      → Live s u
      → Live s w
      → (holds p ≡ true → Vacant s.exited s.owner (s.pc t))
      → (t ≡ u × holds p ≡ true) ⊎ (holds (s.pc u) ≡ true)
      → (t ≡ w × holds p ≡ true) ⊎ (holds (s.pc w) ≡ true)
      → u ≡ w
  moved-one s t u w p v lt lu lw f (inl hu) (inl hw) = sym hu.0 ∙ hw.0
  moved-one s t u w p v lt lu lw f (inl hu) (inr hw) = sym hu.0 ∙ vacant s t w v lt lw hw (f hu.1)
  moved-one s t u w p v lt lu lw f (inr hu) (inl hw) = sym (vacant s t u v lt lu hu (f hw.1)) ∙ hw.0
  moved-one s t u w p v lt lu lw f (inr hu) (inr hw) = v.one u w lu lw hu hw

  -- Every step keeps the invariant.
  Step-Inv : {s t : Lock} → Inv s → Step instance_of s t → Inv t
  Step-Inv {s} v (move t {o} {g} {p} l m) =
      let k = Move-Moved (some_instance t) v.free_even (v.place t l) m in
      record {
        free_even = k.free_even;
        place = λ u lu. elim (Bool-cases (t == u)) [
          | inl e ↦ let q : t ≡ u = ground (arith, e) in rw (e, ← q) k.place
          | inr e ↦ rw e (other-Place s t u v l lu (λ q. ground (arith, e, q)) k)
        ];
        one = λ u w lu lw hu hw.
            moved-one s t u w p v l lu lw k.entered (moved_holds t u p s.pc hu)
              (moved_holds t w p s.pc hw);
      }
  Step-Inv {s} v (exit process) = record {
    free_even = v.free_even;
    place = λ u lu.
        let k = v.place u (exited_before s process u lu) in
        record {
          seen_exited = Seen-later s.exited process (s.pc u) k.seen_exited;
          owner = k.owner;
          marked = k.marked;
        };
    one = λ u w lu lw hu hw.
        v.one u w (exited_before s process u lu) (exited_before s process w lw) hu hw;
  }

  unlocked-Inv : Inv unlocked
  unlocked-Inv = record {
    free_even = λ q. omega arith;
    place =
        λ t l. record { seen_exited = tt; owner = λ q. absurd (ground (arith, q)); marked = tt };
    one = λ t u lt lu ht hu. absurd (ground (arith, ht));
  }

  Reach-Inv : {s : Lock} → Reach instance_of unlocked s → Inv s
  Reach-Inv here = unlocked-Inv
  Reach-Inv (next r m) = Step-Inv (Reach-Inv r) m

  -- In every reachable state of a lock whose threads all belong to processes with an instance
  -- other than 0, two threads in the critical section whose processes have not exited are the
  -- same thread.
  pub excludes :
      (s : Lock) (t u : ℕ)
      → Reach instance_of unlocked s
      → s.exited (instance_of t) ≡ false
      → s.exited (instance_of u) ≡ false
      → s.pc t ≡ critical
      → s.pc u ≡ critical
      → t ≡ u
  excludes s t u r lt lu ht hu = (Reach-Inv r).one t u lt lu (rw ht refl) (rw hu refl)

  -- In every reachable state, a thread in the critical section whose process has not exited is
  -- named by the owner word, and the generation is odd.
  pub critical-owner :
      (s : Lock) (t : ℕ)
      → Reach instance_of unlocked s
      → s.exited (instance_of t) ≡ false
      → s.pc t ≡ critical
      → (s.owner ≡ instance_of t) × (s.generation % 2 ≡ 1)
  critical-owner s t r l h =
      let k = (Reach-Inv r).place t l in
      (k.owner (rw h refl), critical-marked s.generation (s.pc t) h k.marked)

  -- A takeover never takes the lock from a thread of a process that has not exited: where a
  -- waiter of such a process is about to swap itself in for an owner it has seen exited, and the
  -- word still names that owner, no thread whose process runs holds the lock.
  pub take_over-safe :
      (s : Lock) (t u dead : ℕ)
      → Reach instance_of unlocked s
      → s.exited (instance_of t) ≡ false
      → s.exited (instance_of u) ≡ false
      → s.pc t ≡ bumped dead
      → s.owner ≡ dead
      → holds (s.pc u) ≡ false
  take_over-safe s t u dead r lt lu h e =
      let v = Reach-Inv r in
      elim (Bool-cases (holds (s.pc u))) [
        | inr k ↦ k
        | inl k ↦ absurd (
            ground (
              arith,
              lu,
              ap s.exited (sym e ∙ (v.place u lu).owner k),
              bumped-Seen s.exited (s.pc t) dead h (v.place t lt).seen_exited,
            ))
      ]
