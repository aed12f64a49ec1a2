-- ===== src/Mutex/Processes.antt =====
-- The exit and the start of a process keep the invariant of the mutex.
use mathlib.Core.Path.{subst}
use sintra.Base.{
  ℕ, ◌≡◌, ◌≢◌, ◌⊎◌, inl, inr, refl, sym, ap, ◌∙◌, true, ◌==◌, arith, Bool-cases, ==_iff,
}
use sintra.Mutex.{Words, Pc, idle, Phase, unborn, running, exited, is_running, Mutex}
use sintra.Mutex.Invariant.{holds, owns, Identities}
use sintra.Mutex.Moves.{Holds, RunsIn, PlaceOf}
use sintra.Mutex.{set_phase}
use sintra.Mutex.Preservation.{condemned-holds}

module _ (pid_of nonce_of stamp_of process_of tid_of : ℕ → ℕ)
    (ids : Identities pid_of nonce_of stamp_of process_of tid_of) where
  abbrev State : Mutex → Type 0
  State m = Holds pid_of nonce_of stamp_of process_of tid_of ids m

  abbrev Runs : Mutex → ℕ → Type 0
  Runs m t = RunsIn pid_of nonce_of stamp_of process_of tid_of ids m t

  abbrev Stands : ℕ → Words → Pc → Type 0
  Stands t w p = PlaceOf pid_of nonce_of stamp_of process_of tid_of ids t w p

  -- A phase that a process does not have yet.
  set_phase_ne : (f : ℕ → Phase) (p q : ℕ) (x : Phase) → p ≢ q → set_phase f p x q ≡ f q
  set_phase_ne f p q x ne = elim (Bool-cases (p == q)) [
    | inl e ↦ absurd (ne ((==_iff p q).0 e))
    | inr e ↦ rw (e) refl
  ]

  exit_running :
      (f : ℕ → Phase) (p q : ℕ)
      → is_running (set_phase f p exited q) ≡ true
      → is_running (f q) ≡ true
  exit_running f p q h = ground (arith, h)

  exit_unborn : (f : ℕ → Phase) (p q : ℕ) → set_phase f p exited q ≡ unborn → f q ≡ unborn
  exit_unborn f p q h = elim (Bool-cases (p == q)) [
    | inl e ↦ absurd (ground (arith, h, e))
    | inr e ↦ ground (arith, h, e)
  ]

  pub exit-Inv :
      (m : Mutex) (process : ℕ)
      → State m
      → State (record m { phase = set_phase m.phase process exited })
  exit-Inv m process h = record {
    place = λ t k. h.place t (exit_running m.phase process (process_of t) k);
    gate = λ t k. h.gate t (exit_running m.phase process (process_of t) k);
    gate_one = λ t u k l.
        h.gate_one t u (exit_running m.phase process (process_of t) k)
          (exit_running m.phase process (process_of u) l);
    no_owner = λ t u k l.
        h.no_owner t u (exit_running m.phase process (process_of t) k)
          (exit_running m.phase process (process_of u) l);
    one_pid = λ p q k l.
        h.one_pid p q (exit_running m.phase process p k) (exit_running m.phase process q l);
    unborn_idle = λ t e. h.unborn_idle t (exit_unborn m.phase process (process_of t) e);
  }

  start_unborn : (f : ℕ → Phase) (p q : ℕ) → set_phase f p running q ≡ unborn → f q ≡ unborn
  start_unborn f p q h = elim (Bool-cases (p == q)) [
    | inl e ↦ absurd (ground (arith, h, e))
    | inr e ↦ ground (arith, h, e)
  ]

  -- A process that runs after a start ran before or is the one that starts.
  start_running :
      (f : ℕ → Phase) (p q : ℕ)
      → is_running (set_phase f p running q) ≡ true
      → (p ≡ q) ⊎ (is_running (f q) ≡ true)
  start_running f p q h = elim (Bool-cases (p == q)) [
    | inl e ↦ inl ((==_iff p q).0 e)
    | inr e ↦ inr (ground (arith, h, e))
  ]

  pub start-Inv :
      (m : Mutex) (process : ℕ)
      → State m
      → m.phase process ≡ unborn
      → ((q : ℕ) → is_running (m.phase q) ≡ true → pid_of q ≢ pid_of process)
      → State (record m { phase = set_phase m.phase process running })
  start-Inv m process h e free = record {
    place =
        λ t k. elim (ran t k) [ inl i ↦ subst (Stands t m.words) (sym i) tt | inr r ↦ h.place t r ];
    gate = λ t k a. h.gate t (at_work t k a) a;
    gate_one = λ t u k l a b. h.gate_one t u (at_work t k a) (at_work u l b) a b;
    no_owner = λ t u k l a. elim (ran u l) [
      | inl i ↦ ap owns i
      | inr r ↦
          h.no_owner t u
            (at_work t k
              (condemned-holds pid_of nonce_of stamp_of process_of tid_of ids (m.pc t) a))
            r a
    ];
    one_pid = λ p q k l a. elim (start_running m.phase process p k) [
      | inl x ↦ elim (start_running m.phase process q l) [
        | inl y ↦ sym x ∙ y
        | inr y ↦ absurd (free q y (sym a ∙ ap pid_of (sym x)))
      ]
      | inr x ↦ elim (start_running m.phase process q l) [
        | inl y ↦ absurd (free p x (a ∙ ap pid_of (sym y)))
        | inr y ↦ h.one_pid p q x y a
      ]
    ];
    unborn_idle = λ t a. h.unborn_idle t (start_unborn m.phase process (process_of t) a);
  }
    where
      ran :
          (t : ℕ)
          → is_running (set_phase m.phase process running (process_of t)) ≡ true
          → (m.pc t ≡ idle) ⊎ Runs m t
      ran t k = elim (start_running m.phase process (process_of t) k) [
        | inl x ↦ inl (h.unborn_idle t (ap m.phase (sym x) ∙ e))
        | inr r ↦ inr r
      ]

      at_work :
          (t : ℕ)
          → is_running (set_phase m.phase process running (process_of t)) ≡ true
          → holds (m.pc t) ≡ true
          → Runs m t
      at_work t k a = elim (ran t k) [ inl i ↦ absurd (ground (arith, a, ap holds i)) | inr r ↦ r ]
