-- ===== src/Coordinator/Lifecycle/Known.antt =====
-- The processes that the coordinator knows.
use sintra.Base.{
  ℕ, ◌≡◌, ◌≢◌, ◌↔◌, refl, sym, true, not, ◌&&◌, ◌==◌, List, [], ◌∷◌, mem, arith, ==_refl, ==_iff,
  Bool-cases, inl, inr,
}
use mathlib.Core.Path.{subst}
use sintra.Barrier.{insert}
use sintra.Barrier.Completion.{mem-insert}
use sintra.Coordinator.{Coordinator, is_process_draining}
use sintra.Coordinator.Lifecycle.Candidates.{IsKnown, candidates-IsKnown, IsKnown-candidates}
use sintra.Coordinator.Lifecycle.{
  collect_known_process_candidates, all_draining, all_known_processes_draining, distinct_valid,
  is_only, is_sole_known_process,
}

all_draining_sound :
    (x : ℕ) (xs : List ℕ) (c : Coordinator)
    → all_draining xs c ≡ true
    → mem x xs ≡ true
    → x ≢ 0
    → is_process_draining x c ≡ true
unfolding all_draining
all_draining_sound x [] c h m v = absurd (ground (arith, m))
all_draining_sound x (y ∷ ys) c h m v = elim (Bool-cases (x == y)) [
  | inl e ↦
      subst (λ z. is_process_draining z c ≡ true) (sym ((==_iff x y).0 e))
        (ground (arith, h, v, (==_iff x y).0 e))
  | inr e ↦ all_draining_sound x ys c (ground (arith, h)) (ground (arith, m, e)) v
]

all_draining_complete :
    (xs : List ℕ) (c : Coordinator)
    → ((x : ℕ) → mem x xs ≡ true → x ≢ 0 → is_process_draining x c ≡ true)
    → all_draining xs c ≡ true
unfolding all_draining
all_draining_complete [] c h = refl
all_draining_complete (y ∷ ys) c h = ground (
  arith,
  h y (ground (arith, ==_refl y)),
  all_draining_complete ys c (λ x m v. h x (ground (arith, m)) v),
)

-- The coordinator finds every known process draining exactly when each process that is known, the
-- invalid id aside, is draining. Known are the processes that published, those that join in a
-- branch, those whose initialization is tracked, the members of the group of all processes, and
-- the processes that are read without an open invitation.
pub all_known_processes_draining_iff :
    (readers invited : List ℕ) (c : Coordinator)
    → (all_known_processes_draining readers invited c ≡ true)
      ↔ ((x : ℕ) → IsKnown readers invited c x → x ≢ 0 → is_process_draining x c ≡ true)
unfolding all_known_processes_draining
all_known_processes_draining_iff readers invited c = (
  λ h x m v.
      all_draining_sound x (collect_known_process_candidates readers invited c) c h
        (IsKnown-candidates readers invited c x m) v,
  λ h.
      all_draining_complete (collect_known_process_candidates readers invited c) c
        (λ x m v. h x (candidates-IsKnown readers invited c x m) v),
)

mem-distinct_valid : (x : ℕ) (xs : List ℕ) → mem x (distinct_valid xs) ≡ (mem x xs && not (x == 0))
mem-distinct_valid x [] = refl
mem-distinct_valid x (y ∷ ys) =
    ground (arith, mem-distinct_valid x ys, mem-insert y x (distinct_valid ys))

is_only_sound : (x self : ℕ) (xs : List ℕ) → is_only self xs ≡ true → mem x xs ≡ true → x ≡ self
is_only_sound x self [] h m = absurd (ground (arith, m))
is_only_sound x self (y ∷ []) h m = ground (arith, h, m)
is_only_sound x self (y ∷ z ∷ zs) h m = absurd (ground (arith, h))

is_only-insert :
    (self : ℕ) (xs : List ℕ) → is_only self xs ≡ true → is_only self (insert self xs) ≡ true
is_only-insert self [] h = ==_refl self
is_only-insert self (y ∷ []) h = ground (arith, h)
is_only-insert self (y ∷ z ∷ zs) h = absurd (ground (arith, h))

is_only_complete :
    (self : ℕ) (xs : List ℕ)
    → ((x : ℕ) → mem x xs ≡ true → x ≢ 0 → x ≡ self)
    → is_only self (distinct_valid xs) ≡ true
is_only_complete self [] h = refl
is_only_complete self (y ∷ ys) h =
    let rest = is_only_complete self ys (λ x m v. h x (ground (arith, m)) v) in
    elim (Bool-cases (y == 0)) [
      | inl e ↦ rw (e) rest
      | inr e ↦ rw (e) (
          subst (λ z. is_only self (insert z (distinct_valid ys)) ≡ true)
            (sym (h y (ground (arith, ==_refl y)) (ground (arith, e))))
            (is_only-insert self (distinct_valid ys) rest))
    ]

-- A process is found to be the sole known one exactly when every process that is known, for one of
-- the five reasons, is it or has the invalid id.
pub is_sole_known_process_iff :
    (readers invited : List ℕ) (self : ℕ) (c : Coordinator)
    → (is_sole_known_process readers invited self c ≡ true)
      ↔ ((x : ℕ) → IsKnown readers invited c x → x ≢ 0 → x ≡ self)
unfolding is_sole_known_process
is_sole_known_process_iff readers invited self c = (
  λ h x k v.
      let m = IsKnown-candidates readers invited c x k in
      is_only_sound x self (distinct_valid (collect_known_process_candidates readers invited c)) h (
        ground
          (arith, m, v, mem-distinct_valid x (collect_known_process_candidates readers invited c))),
  λ h.
      is_only_complete self (collect_known_process_candidates readers invited c)
        (λ x m v. h x (candidates-IsKnown readers invited c x m) v),
)
