-- ===== src/Coordinator/Lifecycle/Candidates.antt =====
-- The candidates that the coordinator collects are exactly the processes that it knows.
use sintra.Base.{
  ℕ, ◌≡◌, ◌⊎◌, ◌∙◌, refl, sym, ap, Bool, true, false, not, ◌&&◌, ◌||◌, ◌==◌, Option, none, some,
  List, [], ◌∷◌, ◌++◌, mem, arith, ==_iff, Bool-cases, inl, inr, ℕ_discrete,
}
use sintra.Base.Maps.{Entry, get}
use sintra.Coordinator.{Coordinator, Group, Publication}
use sintra.Coordinator.Lifecycle.{
  keys, values, members, without, all_processes_group, collect_known_process_candidates,
}

-- A process that is known, and why: it published, it joins in a branch, its initialization is
-- tracked, it is a member of the group of all processes, or it is read without an open invitation.
pub data IsKnown (readers invited : List ℕ) (c : Coordinator) (x : ℕ) : Type 0 where
  published :
      (registry : List (ℕ × Publication))
      → Entry x registry c.transceiver_registry
      → IsKnown readers invited c x
  joining : (branch : ℕ) → Entry branch x c.inflight_joins → IsKnown readers invited c x
  initializing : mem x c.processes_in_initialization ≡ true → IsKnown readers invited c x
  member :
      (g : Group)
      → get c.groups all_processes_group ≡ some g
      → mem x g.process_ids ≡ true
      → IsKnown readers invited c x
  reading : mem x readers ≡ true → mem x invited ≡ false → IsKnown readers invited c x

mem-append : (x : ℕ) (xs ys : List ℕ) → mem x (xs ++ ys) ≡ (mem x xs || mem x ys)
mem-append x [] ys = refl
mem-append x (y ∷ xs) ys = ground (arith, mem-append x xs ys)

or-cases : (a b : Bool) → (a || b) ≡ true → (a ≡ true) ⊎ (b ≡ true)
or-cases true b h = inl refl
or-cases false b h = inr h

or-right : (a b : Bool) → b ≡ true → (a || b) ≡ true
or-right true b h = refl
or-right false b h = h

or-left : (a b : Bool) → a ≡ true → (a || b) ≡ true
or-left true b h = refl
or-left false b h = absurd (ground (arith, h))

-- A member of two lists in a row is in one of them.
mem-append_cases :
    (x : ℕ) (xs ys : List ℕ) → mem x (xs ++ ys) ≡ true → (mem x xs ≡ true) ⊎ (mem x ys ≡ true)
mem-append_cases x xs ys h = or-cases (mem x xs) (mem x ys) (sym (mem-append x xs ys) ∙ h)

mem-append_right : (x : ℕ) (xs ys : List ℕ) → mem x ys ≡ true → mem x (xs ++ ys) ≡ true
mem-append_right x xs ys h = mem-append x xs ys ∙ or-right (mem x xs) (mem x ys) h

mem-append_left : (x : ℕ) (xs ys : List ℕ) → mem x xs ≡ true → mem x (xs ++ ys) ≡ true
mem-append_left x xs ys h = mem-append x xs ys ∙ or-left (mem x xs) (mem x ys) h

module _ {A : Type 0} where
  mem-keys : (x : ℕ) (m : List (ℕ × A)) → mem x (keys m) ≡ true → (a : A) × Entry x a m
  mem-keys x [] h = absurd (ground (arith, h))
  mem-keys x ((k, a) ∷ rest) h = elim (Bool-cases (x == k)) [
    | inl e ↦ (a, inl (sym ((==_iff x k).0 e), refl))
    | inr e ↦ let found = mem-keys x rest (ground (arith, h, e)) in (found.0, inr found.1)
  ]

  Entry-keys : (x : ℕ) (a : A) (m : List (ℕ × A)) → Entry x a m → mem x (keys m) ≡ true
  Entry-keys x a [] h = absurd h
  Entry-keys x a ((k, b) ∷ rest) (inl h) = ground (arith, h.0)
  Entry-keys x a ((k, b) ∷ rest) (inr h) = or-right (x == k) _ (Entry-keys x a rest h)

mem-values : (x : ℕ) (m : List (ℕ × ℕ)) → mem x (values m) ≡ true → (k : ℕ) × Entry k x m
mem-values x [] h = absurd (ground (arith, h))
mem-values x ((k, a) ∷ rest) h = elim (Bool-cases (x == a)) [
  | inl e ↦ (k, inl (refl, sym ((==_iff x a).0 e)))
  | inr e ↦ let found = mem-values x rest (ground (arith, h, e)) in (found.0, inr found.1)
]

Entry-values : (k x : ℕ) (m : List (ℕ × ℕ)) → Entry k x m → mem x (values m) ≡ true
Entry-values k x [] h = absurd h
Entry-values k x ((j, a) ∷ rest) (inl h) = ground (arith, h.1)
Entry-values k x ((j, a) ∷ rest) (inr h) = or-right (x == a) _ (Entry-values k x rest h)

mem-without :
    (x : ℕ) (invited xs : List ℕ) → mem x (without invited xs) ≡ (mem x xs && not (mem x invited))
mem-without x invited [] = refl
mem-without x invited (y ∷ ys) = elim (ℕ_discrete x y) [
  | yes e ↦ ground (arith, e, ap (λ z. mem z invited) e, mem-without x invited ys)
  | no e ↦ ground (arith, e, mem-without x invited ys)
]

mem-members :
    (x : ℕ) (o : Option Group)
    → mem x (members o) ≡ true
    → (g : Group) × (o ≡ some g) × (mem x g.process_ids ≡ true)
mem-members x none h = absurd (ground (arith, h))
mem-members x (some g) h = (g, refl, h)

-- The candidates, source by source.
abbrev one : Coordinator → List ℕ
one c = keys c.transceiver_registry

abbrev two : Coordinator → List ℕ
two c = one c ++ values c.inflight_joins

abbrev three : Coordinator → List ℕ
three c = two c ++ c.processes_in_initialization

abbrev four : Coordinator → List ℕ
four c = three c ++ members (get c.groups all_processes_group)

module _ (readers invited : List ℕ) (c : Coordinator) (x : ℕ) where
  pub candidates-IsKnown :
      mem x (collect_known_process_candidates readers invited c) ≡ true
      → IsKnown readers invited c x
  unfolding collect_known_process_candidates
  candidates-IsKnown h = elim (mem-append_cases x (four c) (without invited readers) h) [
    | inr r ↦
        let both : (mem x readers && not (mem x invited)) ≡ true =
          sym (mem-without x invited readers) ∙ r in
        reading (ground (arith, both)) (ground (arith, both))
    | inl m4 ↦ elim (mem-append_cases x (three c) (members (get c.groups all_processes_group)) m4) [
      | inr g ↦
          let found = mem-members x (get c.groups all_processes_group) g in
          member found.0 found.1 found.2
      | inl m3 ↦ elim (mem-append_cases x (two c) c.processes_in_initialization m3) [
        | inr i ↦ initializing i
        | inl m2 ↦ elim (mem-append_cases x (one c) (values c.inflight_joins) m2) [
          | inr j ↦ let found = mem-values x c.inflight_joins j in joining found.0 found.1
          | inl p ↦ let found = mem-keys x c.transceiver_registry p in published found.0 found.1
        ]
      ]
    ]
  ]

  pub IsKnown-candidates :
      IsKnown readers invited c x
      → mem x (collect_known_process_candidates readers invited c) ≡ true
  unfolding collect_known_process_candidates
  IsKnown-candidates (published registry h) = mem-append_left x (four c) (without invited readers) (
      mem-append_left x (three c) (members (get c.groups all_processes_group)) (
        mem-append_left x (two c) c.processes_in_initialization (
          mem-append_left x (one c) (values c.inflight_joins)
            (Entry-keys x registry c.transceiver_registry h))))
  IsKnown-candidates (joining branch h) = mem-append_left x (four c) (without invited readers) (
      mem-append_left x (three c) (members (get c.groups all_processes_group)) (
        mem-append_left x (two c) c.processes_in_initialization (
          mem-append_right x (one c) (values c.inflight_joins)
            (Entry-values branch x c.inflight_joins h))))
  IsKnown-candidates (initializing h) = mem-append_left x (four c) (without invited readers) (
      mem-append_left x (three c) (members (get c.groups all_processes_group))
        (mem-append_right x (two c) c.processes_in_initialization h))
  IsKnown-candidates (member g e h) = mem-append_left x (four c) (without invited readers) (
      mem-append_right x (three c) (members (get c.groups all_processes_group))
        (ap (λ o. mem x (members o)) e ∙ h))
  IsKnown-candidates (reading h k) =
      mem-append_right x (four c) (without invited readers)
        (mem-without x invited readers ∙ ground (arith, h, k))
