-- ===== src/Mutex/Recovery.antt =====
-- A mutex whose owner's process has exited can be taken.
use sintra.Base.{
  ℕ, suc, ◌≤◌, ◌≡◌, ◌≢◌, ◌⊎◌, ◌==◌, ℕ_discrete, inl, inr, refl, sym, ap, ◌∙◌, true, false, none,
  arith, ==_refl, ==_iff, Bool-cases,
}
use sintra.Mutex.{
  Words, Pc, idle, critical, is_running, Mutex, owner_pid, instance_of, token_of, owner_has_exited,
  release_recovery_gate, process_instance_has_exited, clear_gate, Move, enter_publication,
  find_unowned, store_stamp, store_instance, publish, finish_publication, leave, enter_recovery,
  condemn, recover, none_runs, unknown, move, Reach, here, next, set_pc,
}
use sintra.Mutex.Invariant.{owner_pid-instance_of}

module _ (pid_of nonce_of stamp_of process_of tid_of : ℕ → ℕ) where
  abbrev inst : ℕ → ℕ
  inst p = instance_of pid_of nonce_of stamp_of process_of tid_of p

  -- States that are one run of so many operations of the one thread apart: no other thread moves, and
  -- no process starts or exits.
  pub data Alone (t : ℕ) (m : Mutex) : ℕ → Mutex → Type 0 where
    stay : Alone t m 0 m
    operate :
        {k : ℕ} {n : Mutex} {w : Words} {p : Pc}
        → Alone t m k n
        → is_running (n.phase (process_of t)) ≡ true
        → Move pid_of nonce_of stamp_of process_of tid_of n.phase t n.words (n.pc t) w p
        → Alone t m (suc k) (record n { words = w; pc = set_pc n.pc t p })

  -- The operations of one thread are steps among those of all.
  Alone-Reach :
      {t : ℕ} {m : Mutex} {k : ℕ} {n : Mutex}
      → Alone t m k n
      → Reach pid_of nonce_of stamp_of process_of tid_of m n
  Alone-Reach stay = here
  Alone-Reach {t} (operate s l v) = next (Alone-Reach s) (move t l v)

  -- A state that the thread can lead to by so many operations of its own, where it stands at a place with given words.
  pub record Leads (m : Mutex) (t k : ℕ) (w : Words) (p : Pc) : Type 0 where
    pub after : Mutex
    pub reach : Alone t m k after
    pub phases : after.phase ≡ m.phase
    pub words : after.words ≡ w
    pub stands : after.pc t ≡ p

  -- One operation further.
  further :
      (m : Mutex) (t : ℕ) {k : ℕ} {w w' : Words} {p p' : Pc}
      → is_running (m.phase (process_of t)) ≡ true
      → Leads m t k w p
      → Move pid_of nonce_of stamp_of process_of tid_of m.phase t w p w' p'
      → Leads m t (suc k) w' p'
  further m t {k} {w} {w'} {p} {p'} l s v = record {
    after = record (s.after) { words = w'; pc = set_pc s.after.pc t p' };
    reach =
        operate s.reach (ap (λ f. is_running (f (process_of t))) s.phases ∙ l)
          (rw (s.phases, s.words, s.stands) v);
    phases = s.phases;
    words = refl;
    stands = rw (==_refl t) refl;
  }

  abbrev NoneRuns : Mutex → ℕ → Type 0
  NoneRuns m pid = (q : ℕ) → pid_of q ≡ pid → is_running (m.phase q) ≡ false

  -- The process id of a process that runs is not one that none runs under.
  other_pid :
      (m : Mutex) (t recorded : ℕ)
      → is_running (m.phase (process_of t)) ≡ true
      → NoneRuns m (owner_pid recorded)
      → (owner_pid recorded == owner_pid (inst (process_of t))) ≡ false
  other_pid m t recorded l n =
      elim (Bool-cases (owner_pid recorded == owner_pid (inst (process_of t)))) [
        | inl e ↦ absurd (
            ground (
              arith,
              l,
              n (process_of t) (
                  sym (
                    (==_iff _ _).0 e
                    ∙ owner_pid-instance_of pid_of nonce_of stamp_of process_of tid_of
                        (process_of t))),
            ))
        | inr e ↦ e
      ]

  -- The free gate is taken, the owner condemned and cleared, and the gate released.
  cleared :
      (m : Mutex) (t k : ℕ) (w : Words)
      → is_running (m.phase (process_of t)) ≡ true
      → Leads m t k w idle
      → w.recovering ≡ 0
      → w.owner ≢ 0
      → NoneRuns m (owner_pid w.owner)
      → Leads m t
          (suc (suc (suc (suc k))))
          (release_recovery_gate
            (inst (process_of t))
            (record w { recovering = inst (process_of t); owner = 0 }))
          idle
  unfolding owner_has_exited
  cleared m t k w l s z nz n =
      further m t l
        (further m t l
          (further m t l (further m t l s (enter_recovery w.owner nz z)) (
            condemn false none (none_runs n) unknown refl
              (rw (owner_has_exited, other_pid m t w.owner l n) refl)))
          (recover refl))
        leave

  -- The free mutex is taken.
  taken :
      (m : Mutex) (t k : ℕ) (w : Words)
      → is_running (m.phase (process_of t)) ≡ true
      → Leads m t k w idle
      → w.recovering ≡ 0
      → w.owner ≡ 0
      → Leads m t
          (suc (suc (suc (suc (suc (suc k))))))
          (release_recovery_gate (inst (process_of t)) (record {
            owner = token_of pid_of nonce_of stamp_of process_of tid_of t;
            owner_start_stamp = 0;
            owner_instance = inst (process_of t);
            recovering = inst (process_of t);
          }))
          critical
  taken m t k w l s z o =
      further m t l
        (further m t l
          (further m t l
            (further m t l (further m t l (further m t l s (enter_publication z)) (find_unowned o))
              (store_stamp 0 (inl refl)))
            store_instance)
          (publish o))
        finish_publication

  -- A dead process's gate is cleared.
  ungated :
      (m : Mutex) (t : ℕ)
      → is_running (m.phase (process_of t)) ≡ true
      → m.pc t ≡ idle
      → (m.words.recovering ≡ 0) ⊎ NoneRuns m (owner_pid m.words.recovering)
      → (k : ℕ) × (k ≤ 1) × Leads m t k (record (m.words) { recovering = 0 }) idle
  unfolding process_instance_has_exited
  ungated m t l e g = elim (ℕ_discrete m.words.recovering 0) [
    | yes z ↦ (
      0,
      omega arith,
      record {
        after = m;
        reach = stay;
        phases = refl;
        words = ap {A = ℕ} {B = Words} (λ r. record (m.words) { recovering = r }) z;
        stands = e;
      },
    )
    | no nz ↦ elim g [
      | inl z ↦ absurd (nz z)
      | inr n ↦ (
        1,
        omega arith,
        further m t l (record { after = m; reach = stay; phases = refl; words = refl; stands = e })
            (clear_gate false (none_runs n) nz
              (rw (process_instance_has_exited, other_pid m t m.words.recovering l n) refl)),
      )
    ]
  ]

  -- Where no process runs under the process id of the owner, and the gate is free or no process
  -- runs under the process id of its holder, any idle thread of a running process can take the
  -- mutex by itself: it has a run of at most eleven operations, while no other thread moves and no
  -- process starts or exits, that ends where it holds the mutex, the words are those of an owner,
  -- and the gate is free.
  pub abandoned_taken :
      (m : Mutex) (t : ℕ)
      → is_running (m.phase (process_of t)) ≡ true
      → m.pc t ≡ idle
      → (m.words.recovering ≡ 0) ⊎ NoneRuns m (owner_pid m.words.recovering)
      → m.words.owner ≢ 0
      → NoneRuns m (owner_pid m.words.owner)
      → (k : ℕ) × (after : Mutex) × (k ≤ 11)
        × Alone t m k after
        × (after.pc t ≡ critical)
        × (after.phase ≡ m.phase)
        × (after.words ≡ record {
          owner = token_of pid_of nonce_of stamp_of process_of tid_of t;
          owner_start_stamp = 0;
          owner_instance = inst (process_of t);
          recovering = 0;
        })
  unfolding release_recovery_gate
  abandoned_taken m t l e g nz n =
      let (k, small, start) = ungated m t l e g in
      let free = cleared m t k _ l start refl nz n in
      let held =
        taken m t (suc (suc (suc (suc k)))) _ l free (ground (arith, ==_refl (inst (process_of t))))
          refl in
      (
        suc (suc (suc (suc (suc (suc (suc (suc (suc (suc k))))))))),
        held.after,
        omega (arith, small),
        held.reach,
        held.stands,
        held.phases,
        held.words ∙ ground (arith, ==_refl (inst (process_of t))),
      )
