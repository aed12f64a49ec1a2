-- ===== src/Mutex/Evidence.antt =====
-- What the evidence of an exit proves.
use sintra.Base.{
  ℕ, ◌≡◌, inl, inr, refl, sym, ap, ◌∙◌, Bool, true, false, not, ◌==◌, Option, arith, Bool-cases,
  ==_iff, ==_refl,
}
use sintra.Mutex.{
  is_running, Mutex, owner_pid, process_instance_has_exited, owner_has_exited,
  owner_generation_is_stale, IsLiveness, may_run, none_runs, IsStamp, unknown, known,
}
use sintra.Mutex.Invariant.{
  owns, Identities, Tuple, Place-Tuple, owner_pid-instance_of, owner_pid-token_of,
}
use sintra.Mutex.Moves.{Holds, RunsIn, instance_id}

module _ (pid_of nonce_of stamp_of process_of tid_of : ℕ → ℕ)
    (ids : Identities pid_of nonce_of stamp_of process_of tid_of) where
  abbrev State : Mutex → Type 0
  State m = Holds pid_of nonce_of stamp_of process_of tid_of ids m

  abbrev Runs : Mutex → ℕ → Type 0
  Runs m t = RunsIn pid_of nonce_of stamp_of process_of tid_of ids m t

  abbrev inst : ℕ → ℕ
  inst p = instance_id pid_of nonce_of stamp_of process_of tid_of ids p

  abbrev Alive : Mutex → ℕ → Bool → Type 0
  Alive m pid alive = IsLiveness pid_of nonce_of stamp_of process_of tid_of m.phase pid alive

  -- A process that runs is not found to have exited by its liveness.
  pub Alive-running :
      (m : Mutex) (pid q : ℕ) (alive : Bool)
      → Alive m pid alive
      → is_running (m.phase q) ≡ true
      → pid_of q ≡ pid
      → alive ≡ true
  Alive-running m pid q alive (may_run) l e = refl
  Alive-running m pid q alive (none_runs none_of) l e = absurd (ground (arith, none_of q e, l))

  -- Nor is it by its instance.
  pub has_exited-running :
      (m : Mutex) (t q recorded : ℕ) (alive : Bool)
      → State m
      → Runs m t
      → is_running (m.phase q) ≡ true
      → recorded ≡ inst q
      → Alive m (owner_pid recorded) alive
      → process_instance_has_exited alive recorded (inst (process_of t)) ≡ false
  unfolding process_instance_has_exited
  has_exited-running m t q recorded alive h l k e a =
      elim (Bool-cases (owner_pid recorded == owner_pid (inst (process_of t)))) [
        | inl same ↦
            rw (process_instance_has_exited, same) (ground (arith, this same, ==_refl (inst q)))
        | inr other ↦
            rw (process_instance_has_exited, other)
              (ap not (Alive-running m (owner_pid recorded) q alive a k (sym pid)))
      ]
    where
      pid : owner_pid recorded ≡ pid_of q
      pid = ap owner_pid e ∙ owner_pid-instance_of pid_of nonce_of stamp_of process_of tid_of q

      this :
          (owner_pid recorded == owner_pid (inst (process_of t))) ≡ true
          → recorded ≡ inst (process_of t)
      this same =
          e
          ∙ ap inst (
              h.one_pid q (process_of t) k l (
                sym pid
                ∙ (==_iff _ _).0 same
                ∙ owner_pid-instance_of pid_of nonce_of stamp_of process_of tid_of (process_of t)))

  -- Nor is a live owner's generation stale.
  stale-running :
      (m : Mutex) (u observed : ℕ) (current : Option ℕ)
      → State m
      → Runs m u
      → IsStamp pid_of nonce_of stamp_of process_of tid_of m.phase (owner_pid observed) current
      → owner_pid observed ≡ pid_of (process_of u)
      → Tuple pid_of nonce_of stamp_of process_of tid_of u m.words
      → owner_generation_is_stale current m.words.owner_start_stamp ≡ false
  unfolding owner_generation_is_stale
  stale-running m u observed current h k unknown pid v = refl
  stale-running m u observed current h k (known q l e) pid v = elim v.is_stamp [
    | inl z ↦ ground (arith, z)
    | inr y ↦ ground (
      arith,
      y,
      ap stamp_of (h.one_pid q (process_of u) l k (e ∙ pid)),
      ==_refl (stamp_of (process_of u)),
    )
  ]

  -- The owner whom the evidence finds to have exited is not a thread that lives.
  pub owner_has_exited-no_owner :
      (m : Mutex) (t u observed : ℕ) (alive : Bool) (current : Option ℕ)
      → State m
      → Runs m t
      → Runs m u
      → Alive m (owner_pid observed) alive
      → IsStamp pid_of nonce_of stamp_of process_of tid_of m.phase (owner_pid observed) current
      → m.words.owner ≡ observed
      → owner_has_exited alive current observed m.words (inst (process_of t)) ≡ true
      → owns (m.pc u) ≡ false
  unfolding owner_has_exited owner_generation_is_stale
  owner_has_exited-no_owner m t u observed alive current h l k a s e x =
      elim (Bool-cases (owns (m.pc u))) [
        | inl o ↦ absurd (
            contradiction (
              Place-Tuple pid_of nonce_of stamp_of process_of tid_of u m.words (m.pc u)
                (h.place u k) o))
        | inr o ↦ o
      ]
    where
      contradiction : Tuple pid_of nonce_of stamp_of process_of tid_of u m.words → ⊥
      contradiction v =
          let pid =
            ap owner_pid (sym e ∙ v.is_owner)
            ∙ owner_pid-token_of pid_of nonce_of stamp_of process_of tid_of u in
          elim (Bool-cases (owner_pid observed == owner_pid (inst (process_of t)))) [
            | inl same ↦ ground (
              arith,
              x,
              same,
              ==_refl (inst (process_of t)),
              v.is_instance
                  ∙ ap inst (
                      h.one_pid (process_of u) (process_of t) k l (
                        sym pid
                        ∙ (==_iff _ _).0 same
                        ∙ owner_pid-instance_of pid_of nonce_of stamp_of process_of tid_of
                            (process_of t))),
            )
            | inr other ↦ ground (
              arith,
              x,
              other,
              Alive-running m (owner_pid observed) (process_of u) alive a k (sym pid),
              stale-running m u observed current h k s pid v,
            )
          ]
