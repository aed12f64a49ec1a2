-- ===== src/Mutex/Moves.antt =====
-- What each atomic operation keeps.
use sintra.Base.{ℕ, ◌≡◌, ◌≢◌, ◌⊎◌, inl, inr, refl, sym, ap, ◌∙◌, true, false, arith, Bool-cases}
use sintra.Mutex.{Words, Pc, idle, Mutex}
use sintra.Mutex.Invariant.{
  holds, owns, is_condemned, Identities, Place, Place-Tuple, live, Inv, instance_of',
  instance_of-nonzero, token_of-nonzero,
}

module _ (pid_of nonce_of stamp_of process_of tid_of : ℕ → ℕ)
    (ids : Identities pid_of nonce_of stamp_of process_of tid_of) where
  abbrev pub Holds : Mutex → Type 0
  Holds m = Inv pid_of nonce_of stamp_of process_of tid_of m

  abbrev pub RunsIn : Mutex → ℕ → Type 0
  RunsIn m t = live pid_of nonce_of stamp_of process_of tid_of m t ≡ true

  abbrev pub PlaceOf : ℕ → Words → Pc → Type 0
  PlaceOf t w p = Place pid_of nonce_of stamp_of process_of tid_of t w p

  abbrev pub instance_id : ℕ → ℕ
  instance_id p = instance_of' pid_of nonce_of stamp_of process_of tid_of p

  -- The effect of an operation of the thread `t`, which stood at `p`, on itself and on the others.
  pub record Moved (m : Mutex) (t : ℕ) (p : Pc) (w : Words) (p' : Pc) : Type 0 where
    pub self_place : PlaceOf t w p'
    pub self_gate : holds p' ≡ true → w.recovering ≡ instance_id (process_of t)
    pub entered : holds p' ≡ true → (holds p ≡ true) ⊎ (m.words.recovering ≡ 0)
    pub other_gate :
        (u : ℕ) → RunsIn m u → holds (m.pc u) ≡ true → t ≢ u → w.recovering ≡ m.words.recovering
    pub other_own :
        (u : ℕ)
        → RunsIn m u
        → owns (m.pc u) ≡ true
        → t ≢ u
        → (w.owner ≡ m.words.owner)
          × (w.owner_start_stamp ≡ m.words.owner_start_stamp)
          × (w.owner_instance ≡ m.words.owner_instance)
    pub other_place :
        (u : ℕ)
        → RunsIn m u
        → holds (m.pc u) ≡ true
        → t ≢ u
        → ((w.owner ≡ m.words.owner) ⊎ (w.owner ≡ 0))
          × (w.owner_start_stamp ≡ m.words.owner_start_stamp)
          × (w.owner_instance ≡ m.words.owner_instance)
    pub condemns : is_condemned p' ≡ true → (u : ℕ) → RunsIn m u → owns (m.pc u) ≡ false
    pub owns_after : owns p' ≡ true → (owns p ≡ true) ⊎ (holds p ≡ true)

  -- No live thread holds the mutex while the owner is 0.
  pub no_owner-zero :
      (m : Mutex) (u : ℕ) → Holds m → RunsIn m u → m.words.owner ≡ 0 → owns (m.pc u) ≡ false
  no_owner-zero m u h l z = elim (Bool-cases (owns (m.pc u))) [
    | inl e ↦ absurd (
        token_of-nonzero pid_of nonce_of stamp_of process_of tid_of u ids (
          sym
            (Place-Tuple pid_of nonce_of stamp_of process_of tid_of u m.words (m.pc u) (h.place u l)
              e).is_owner
          ∙ z))
    | inr e ↦ e
  ]

  -- Only one live thread is at the gate.
  pub alone :
      (m : Mutex) (t u : ℕ) (p : Pc)
      → Holds m
      → RunsIn m t
      → RunsIn m u
      → m.pc t ≡ p
      → holds p ≡ true
      → holds (m.pc u) ≡ true
      → t ≢ u
      → ⊥
  alone m t u p h l k e a b ne = ne (h.gate_one t u l k (ap holds e ∙ a) b)

  -- An operation of the thread at the gate that leaves the owner's words as they are, or that finds
  -- no owner.
  pub at_gate :
      (m : Mutex) (t : ℕ) (p : Pc) (w : Words) (p' : Pc)
      → Holds m
      → RunsIn m t
      → m.pc t ≡ p
      → holds p ≡ true
      → PlaceOf t w p'
      → ((u : ℕ) → RunsIn m u → owns (m.pc u) ≡ false)
        ⊎ ((w.owner ≡ m.words.owner)
            × (w.owner_start_stamp ≡ m.words.owner_start_stamp)
            × (w.owner_instance ≡ m.words.owner_instance))
      → (holds p' ≡ true → w.recovering ≡ m.words.recovering)
      → (is_condemned p' ≡ true → (u : ℕ) → RunsIn m u → owns (m.pc u) ≡ false)
      → Moved m t p w p'
  at_gate m t p w p' h l e a place owner gate condemns = record {
    self_place = place;
    self_gate = λ q. gate q ∙ h.gate t l (ap holds e ∙ a);
    entered = λ q. inl a;
    other_gate = λ u k b ne. absurd (alone m t u p h l k e a b ne);
    other_own = λ u k b ne. elim owner [
      | inl free ↦ absurd (ground (arith, free u k, b))
      | inr same ↦ same
    ];
    other_place = λ u k b ne. absurd (alone m t u p h l k e a b ne);
    condemns = condemns;
    owns_after = λ q. inr a;
  }

  -- An operation that takes the free gate.
  pub enter_gate :
      (m : Mutex) (t : ℕ) (p' : Pc)
      → Holds m
      → m.pc t ≡ idle
      → m.words.recovering ≡ 0
      → PlaceOf t (record (m.words) { recovering = instance_id (process_of t) }) p'
      → is_condemned p' ≡ false
      → owns p' ≡ false
      → Moved m t idle (record (m.words) { recovering = instance_id (process_of t) }) p'
  enter_gate m t p' h e z place c o = record {
    self_place = place;
    self_gate = λ q. refl;
    entered = λ q. inr z;
    other_gate = λ u k b ne. absurd (
        instance_of-nonzero pid_of nonce_of stamp_of process_of tid_of (process_of u) ids
          (sym (h.gate u k b) ∙ z));
    other_own = λ u k b ne. (refl, refl, refl);
    other_place = λ u k b ne. (inl refl, refl, refl);
    condemns = λ q. absurd (ground (arith, q, c));
    owns_after = λ q. absurd (ground (arith, q, o));
  }
