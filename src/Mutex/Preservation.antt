-- ===== src/Mutex/Preservation.antt =====
-- An atomic operation keeps the invariant of the mutex.
use mathlib.Core.Path.{subst}
use sintra.Base.{
  ℕ_discrete, ℕ, ◌≡◌, ◌≢◌, inl, inr, refl, sym, ◌∙◌, true, false, ◌==◌, arith, Bool-cases, ==_iff,
  ==_refl,
}
use sintra.Mutex.{Words, Pc, idle, unborn, Mutex}
use sintra.Mutex.Invariant.{holds, owns, is_condemned, Identities, instance_of-nonzero}
use sintra.Mutex.Moves.{Holds, RunsIn, PlaceOf, instance_id, Moved}
use sintra.Mutex.{set_pc}
use sintra.Mutex.Kept.{Stands-kept}

module _ (pid_of nonce_of stamp_of process_of tid_of : ℕ → ℕ)
    (ids : Identities pid_of nonce_of stamp_of process_of tid_of) where
  abbrev State : Mutex → Type 0
  State m = Holds pid_of nonce_of stamp_of process_of tid_of ids m

  abbrev Runs : Mutex → ℕ → Type 0
  Runs m t = RunsIn pid_of nonce_of stamp_of process_of tid_of ids m t

  abbrev Stands : ℕ → Words → Pc → Type 0
  Stands t w p = PlaceOf pid_of nonce_of stamp_of process_of tid_of ids t w p

  abbrev Effect : Mutex → ℕ → Pc → Words → Pc → Type 0
  Effect m t p w p' = Moved pid_of nonce_of stamp_of process_of tid_of ids m t p w p'

  set_pc_ne : (f : ℕ → Pc) (t u : ℕ) (p : Pc) → t ≢ u → set_pc f t p u ≡ f u
  set_pc_ne f t u p ne = elim (Bool-cases (t == u)) [
    | inl e ↦ absurd (ne ((==_iff t u).0 e))
    | inr e ↦ rw (e) refl
  ]

  set_pc_same : (f : ℕ → Pc) (t : ℕ) (p : Pc) → set_pc f t p t ≡ p
  set_pc_same f t p = rw (==_refl t) refl

  -- A property of a thread's place, after one thread has moved.
  at_each :
      (P : ℕ → Pc → Type 0) (f : ℕ → Pc) (t u : ℕ) (p : Pc)
      → P t p
      → (t ≢ u → P u (f u))
      → P u (set_pc f t p u)
  at_each P f t u p self other = elim (ℕ_discrete t u) [
    | yes e ↦ subst (λ x. P x (set_pc f t p x)) e (subst (P t) (sym (set_pc_same f t p)) self)
    | no ne ↦ subst (P u) (sym (set_pc_ne f t u p ne)) (other ne)
  ]

  -- The thread that comes to the gate is the only one there.
  comes_alone :
      (m : Mutex) (t : ℕ) (p' : Pc) (w : Words)
      → State m
      → Runs m t
      → Effect m t (m.pc t) w p'
      → (u : ℕ) → Runs m u
      → holds p' ≡ true
      → holds (m.pc u) ≡ true
      → t ≡ u
  comes_alone m t p' w h l v u k a b = elim (v.entered a) [
    | inl e ↦ h.gate_one t u l k e b
    | inr z ↦ absurd (
        instance_of-nonzero pid_of nonce_of stamp_of process_of tid_of (process_of u) ids
          (sym (h.gate u k b) ∙ z))
  ]

  moved_one :
      (m : Mutex) (t : ℕ) (p' : Pc) (w : Words)
      → State m
      → Runs m t
      → Effect m t (m.pc t) w p'
      → (x u : ℕ) → Runs m x
      → Runs m u
      → holds (set_pc m.pc t p' x) ≡ true
      → holds (set_pc m.pc t p' u) ≡ true
      → x ≡ u
  moved_one m t p' w h l v x u kx k =
      at_each (λ y q. Runs m y → holds q ≡ true → holds (set_pc m.pc t p' u) ≡ true → y ≡ u) m.pc t
        x p'
        (λ ky a.
          at_each (λ z q. Runs m z → holds q ≡ true → t ≡ z) m.pc t u p' (λ kz b. refl)
            (λ ne kz b. comes_alone m t p' w h l v u kz a b) k)
        (λ ny ky a.
          at_each (λ z q. Runs m z → holds q ≡ true → x ≡ z) m.pc t u p'
            (λ kz b. sym (comes_alone m t p' w h l v x ky b a))
            (λ ne kz b. h.gate_one x u ky kz a b) k)
        kx

  condemned-owns : (p : Pc) → is_condemned p ≡ true → owns p ≡ false
  condemned-owns p e = ground (arith, e)

  pub condemned-holds : (p : Pc) → is_condemned p ≡ true → holds p ≡ true
  condemned-holds p e = ground (arith, e)

  -- A thread does not come to own the mutex while another one has condemned the owner.
  comes_not :
      (m : Mutex) (t : ℕ) (p' : Pc) (w : Words)
      → State m
      → Runs m t
      → Effect m t (m.pc t) w p'
      → (x : ℕ) → t ≢ x
      → Runs m x
      → is_condemned (m.pc x) ≡ true
      → owns p' ≡ false
  comes_not m t p' w h l v x ne k a = elim (Bool-cases (owns p')) [
    | inl o ↦ elim (v.owns_after o) [
      | inl b ↦ absurd (ground (arith, b, h.no_owner x t k l a))
      | inr b ↦ absurd (ne (h.gate_one t x l k b (condemned-holds (m.pc x) a)))
    ]
    | inr o ↦ o
  ]

  moved_no_owner :
      (m : Mutex) (t : ℕ) (p' : Pc) (w : Words)
      → State m
      → Runs m t
      → Effect m t (m.pc t) w p'
      → (x u : ℕ) → Runs m x
      → Runs m u
      → is_condemned (set_pc m.pc t p' x) ≡ true
      → owns (set_pc m.pc t p' u) ≡ false
  moved_no_owner m t p' w h l v x u kx k =
      at_each (λ y q. Runs m y → is_condemned q ≡ true → owns (set_pc m.pc t p' u) ≡ false) m.pc t x
        p'
        (λ ky a.
          at_each (λ z q. Runs m z → owns q ≡ false) m.pc t u p' (λ kz. condemned-owns p' a)
            (λ ne kz. v.condemns a u kz) k)
        (λ ny ky a.
          at_each (λ z q. Runs m z → owns q ≡ false) m.pc t u p'
            (λ kz. comes_not m t p' w h l v x ny ky a) (λ ne kz. h.no_owner x u ky kz a) k)
        kx

  pub Moved-Inv :
      (m : Mutex) (t : ℕ) (p' : Pc) (w : Words)
      → State m
      → Runs m t
      → Effect m t (m.pc t) w p'
      → State (record m { words = w; pc = set_pc m.pc t p' })
  Moved-Inv m t p' w h l v = record {
    place = λ u k.
        at_each (λ x q. Stands x w q) m.pc t u p' v.self_place
          (λ ne.
            Stands-kept pid_of nonce_of stamp_of process_of tid_of ids u m.words w (m.pc u)
              (h.place u k) (λ b. v.other_own u k b ne) (λ b. v.other_place u k b ne));
    gate = λ u k.
        at_each
          (λ x q.
            holds q ≡ true
            → w.recovering
              ≡ instance_id pid_of nonce_of stamp_of process_of tid_of ids (process_of x))
          m.pc t u p' v.self_gate (λ ne b. v.other_gate u k b ne ∙ h.gate u k b);
    gate_one = λ x u kx k. moved_one m t p' w h l v x u kx k;
    no_owner = λ x u kx k. moved_no_owner m t p' w h l v x u kx k;
    one_pid = h.one_pid;
    unborn_idle = λ u e.
        at_each (λ x q. m.phase (process_of x) ≡ unborn → q ≡ idle) m.pc t u p'
          (λ b. absurd (ground (arith, b, l))) (λ ne b. h.unborn_idle u b) e;
  }
