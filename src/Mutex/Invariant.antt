-- ===== src/Mutex/Invariant.antt =====
-- What holds of the mutex between two atomic operations.
use sintra.Base.{ℕ, ◌%◌, ◌^◌, ◌≡◌, ◌≢◌, ◌⊎◌, sym, ◌∙◌, Bool, true, false, arith}
use sintra.Mutex.{
  Words, Pc, idle, publishing, checked, stamped, tupled, owning, critical, recovering_from,
  condemned, leaving, unborn, is_running, Mutex, owner_pid, make_owner_token, instance_of, token_of,
}

-- The gate is held.
abbrev pub holds : Pc → Bool
holds idle = false
holds critical = false
holds _ = true

-- The mutex is held.
abbrev pub owns : Pc → Bool
owns owning = true
owns critical = true
owns _ = false

abbrev pub is_condemned : Pc → Bool
is_condemned (condemned observed) = true
is_condemned _ = false

module _ (pid_of nonce_of stamp_of process_of tid_of : ℕ → ℕ) where
  abbrev pub instance_of' : ℕ → ℕ
  instance_of' = instance_of pid_of nonce_of stamp_of process_of tid_of

  abbrev pub token_of' : ℕ → ℕ
  token_of' = token_of pid_of nonce_of stamp_of process_of tid_of

  -- Ids tell apart: instances the processes, thread ids the threads of a process; no process has
  -- the process id 0.
  pub record Identities : Type 0 where
    pub instances : (p q : ℕ) → instance_of' p ≡ instance_of' q → p ≡ q
    pub pids : (p : ℕ) → pid_of p ≢ 0
    pub tids :
        (t u : ℕ) → process_of t ≡ process_of u → tid_of t % 2 ^ 32 ≡ tid_of u % 2 ^ 32 → t ≡ u

  pub instance_of-nonzero : (p : ℕ) → Identities → instance_of' p ≢ 0
  unfolding instance_of
  instance_of-nonzero p ids h = ids.pids p (omega (arith, h))

  pub token_of-nonzero : (t : ℕ) → Identities → token_of' t ≢ 0
  unfolding token_of make_owner_token
  token_of-nonzero t ids h = ids.pids (process_of t) (omega (arith, h))

  pub owner_pid-instance_of : (p : ℕ) → owner_pid (instance_of' p) ≡ pid_of p
  unfolding instance_of owner_pid
  owner_pid-instance_of p = omega arith

  pub owner_pid-token_of : (t : ℕ) → owner_pid (token_of' t) ≡ pid_of (process_of t)
  unfolding token_of make_owner_token owner_pid
  owner_pid-token_of t = omega arith

  pub token_of-injective :
      (t u : ℕ) → Identities → token_of' t ≡ token_of' u → process_of t ≡ process_of u → t ≡ u
  unfolding token_of make_owner_token
  token_of-injective t u ids h p = ids.tids t u p (omega (arith, h))

  -- The owner has published its instance, and a stamp that is its own where one is there.
  pub record Tuple (t : ℕ) (w : Words) : Type 0 where
    pub is_owner : w.owner ≡ token_of' t
    pub is_instance : w.owner_instance ≡ instance_of' (process_of t)
    pub is_stamp : (w.owner_start_stamp ≡ 0) ⊎ (w.owner_start_stamp ≡ stamp_of (process_of t))

  pub record Stamped (t : ℕ) (w : Words) : Type 0 where
    pub no_owner : w.owner ≡ 0
    pub own_stamp : (w.owner_start_stamp ≡ 0) ⊎ (w.owner_start_stamp ≡ stamp_of (process_of t))

  pub record Tupled (t : ℕ) (w : Words) : Type 0 where
    pub stamp : Stamped t w
    pub own_instance : w.owner_instance ≡ instance_of' (process_of t)

  -- What a thread that stands somewhere knows of the words.
  abbrev pub Place : ℕ → Words → Pc → Type 0
  Place t w checked = w.owner ≡ 0
  Place t w stamped = Stamped t w
  Place t w tupled = Tupled t w
  Place t w owning = Tuple t w
  Place t w critical = Tuple t w
  Place t w _ = Unit {0}

  abbrev pub live : Mutex → ℕ → Bool
  live m t = is_running (m.phase (process_of t))

  pub record Inv (m : Mutex) : Type 0 where
    pub place : (t : ℕ) → live m t ≡ true → Place t m.words (m.pc t)
    pub gate :
        (t : ℕ)
        → live m t ≡ true
        → holds (m.pc t) ≡ true
        → m.words.recovering ≡ instance_of' (process_of t)
    pub gate_one :
        (t u : ℕ)
        → live m t ≡ true
        → live m u ≡ true
        → holds (m.pc t) ≡ true
        → holds (m.pc u) ≡ true
        → t ≡ u
    pub no_owner :
        (t u : ℕ)
        → live m t ≡ true
        → live m u ≡ true
        → is_condemned (m.pc t) ≡ true
        → owns (m.pc u) ≡ false
    pub one_pid :
        (p q : ℕ)
        → is_running (m.phase p) ≡ true
        → is_running (m.phase q) ≡ true
        → pid_of p ≡ pid_of q
        → p ≡ q
    pub unborn_idle : (t : ℕ) → m.phase (process_of t) ≡ unborn → m.pc t ≡ idle

  pub Place-Tuple : (t : ℕ) (w : Words) (p : Pc) → Place t w p → owns p ≡ true → Tuple t w
  Place-Tuple t w owning h e = h
  Place-Tuple t w critical h e = h
  Place-Tuple t w idle h e = absurd (ground (arith, e))
  Place-Tuple t w publishing h e = absurd (ground (arith, e))
  Place-Tuple t w checked h e = absurd (ground (arith, e))
  Place-Tuple t w stamped h e = absurd (ground (arith, e))
  Place-Tuple t w tupled h e = absurd (ground (arith, e))
  Place-Tuple t w (recovering_from o) h e = absurd (ground (arith, e))
  Place-Tuple t w (condemned o) h e = absurd (ground (arith, e))
  Place-Tuple t w leaving h e = absurd (ground (arith, e))

  -- Two live threads that hold the mutex are one.
  pub Inv-owns :
      (m : Mutex) (t u : ℕ)
      → Identities
      → Inv m
      → live m t ≡ true
      → live m u ≡ true
      → owns (m.pc t) ≡ true
      → owns (m.pc u) ≡ true
      → t ≡ u
  Inv-owns m t u ids h l k a b =
      let x = Place-Tuple t m.words (m.pc t) (h.place t l) a in
      let y = Place-Tuple u m.words (m.pc u) (h.place u k) b in
      token_of-injective t u ids (sym x.is_owner ∙ y.is_owner)
        (ids.instances (process_of t) (process_of u) (sym x.is_instance ∙ y.is_instance))
