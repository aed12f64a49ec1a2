-- ===== src/Coordinator/Consistency.antt =====
-- The names and the registry of publications agree: the lemmas on the tables.
pub mod Withdrawal
pub mod Runs
pub mod Retirement
use sintra.Base.{
  ℕ, ◌≤◌, ◌<◌, ◌≡◌, ◌≢◌, refl, ◌⊎◌, inl, inr, ap, sym, ◌∙◌, true, false, ◌==◌, Option, none, some,
  List, length, arith, Option-cases, Bool-cases, ==_iff, suc, ℕ_discrete,
}
use sintra.Base.Maps.{
  get, put, remove, remove_where, get-put_cases, get-remove_cases, some_inj, none-some,
  get-put_same, get-put_ne, get-remove_same, get-remove_ne, get-remove_where_kept,
  get-remove_where_old, length-put, length-remove,
}
use sintra.Ids.{process_of}
use sintra.Coordinator.{Publication, registry_of, put_entry, remove_entry}
use sintra.Coordinator.Publish.{max_public_transceivers_per_proc}

abbrev pub Names : Type 0
Names = List (ℕ × ℕ)

abbrev pub Registry : Type 0
Registry = List (ℕ × List (ℕ × Publication))

abbrev pub own : Registry → ℕ → List (ℕ × Publication)
own registry iid = registry_of (get registry (process_of iid))

abbrev pub entry_of : Registry → ℕ → Option Publication
entry_of registry iid = get (registry_of (get registry (process_of iid))) iid

-- An instance is published under a name.
pub record IsPublished (registry : Registry) (name iid : ℕ) : Type 0 where
  pub entry : Publication
  pub listed : entry_of registry iid ≡ some entry
  pub same_name : entry.name ≡ name

pub record Consistent (names : Names) (registry : Registry) : Type 0 where
  pub to_registry : (name iid : ℕ) → get names name ≡ some iid → IsPublished registry name iid
  pub to_names :
      (iid : ℕ) (entry : Publication)
      → entry_of registry iid ≡ some entry
      → get names entry.name ≡ some iid
  pub valid : (name iid : ℕ) → get names name ≡ some iid → iid ≢ 0
  pub bounded :
      (process : ℕ) (r : List (ℕ × Publication))
      → get registry process ≡ some r
      → length r ≤ max_public_transceivers_per_proc

-- The registry with another registry for one process.
pub entry_of-put_same :
    (registry : Registry) (r : List (ℕ × Publication)) (iid p : ℕ)
    → process_of iid ≡ p
    → entry_of (put registry p r) iid ≡ get r iid
entry_of-put_same registry r iid p h = ground (arith, h)

pub entry_of-put_ne :
    (registry : Registry) (r : List (ℕ × Publication)) (iid p : ℕ)
    → p ≢ process_of iid
    → entry_of (put registry p r) iid ≡ entry_of registry iid
entry_of-put_ne registry r iid p h = rw (get-put_ne registry p (process_of iid) r h) refl

pub entry_of-remove_ne :
    (registry : Registry) (iid p : ℕ)
    → p ≢ process_of iid
    → entry_of (remove registry p) iid ≡ entry_of registry iid
entry_of-remove_ne registry iid p h = rw (get-remove_ne registry p (process_of iid) h) refl

pub entry_of-remove_same :
    (registry : Registry) (iid p : ℕ) → process_of iid ≡ p → entry_of (remove registry p) iid ≡ none
entry_of-remove_same registry iid p h = rw (h, get-remove_same registry p) refl

-- The publication that is put into the registry, and the others.
pub entry_of-put_entry_same :
    (registry : Registry) (iid : ℕ) (e : Publication)
    → entry_of (put_entry registry (process_of iid) iid e) iid ≡ some e
entry_of-put_entry_same registry iid e =
    rw (get-put_same registry (process_of iid) (put (own registry iid) iid e))
      (get-put_same (own registry iid) iid e)

pub entry_of-put_entry_ne :
    (registry : Registry) (iid i : ℕ) (e : Publication)
    → iid ≢ i
    → entry_of (put_entry registry (process_of iid) iid e) i ≡ entry_of registry i
entry_of-put_entry_ne registry iid i e h = elim (ℕ_discrete (process_of iid) (process_of i)) [
  | yes same ↦
      entry_of-put_same registry (put (own registry iid) iid e) i (process_of iid) (sym same)
      ∙ get-put_ne (own registry iid) iid i e h
      ∙ ap (λ p. get (registry_of (get registry p)) i) same
  | no other ↦ entry_of-put_ne registry (put (own registry iid) iid e) i (process_of iid) other
]

-- What stays when a publication is taken out.
pub entry_of-remove_entry_same :
    (registry : Registry) (iid : ℕ)
    → entry_of (remove_entry registry (process_of iid) iid) iid ≡ none
entry_of-remove_entry_same registry iid =
    rw (get-put_same registry (process_of iid) (remove (own registry iid) iid))
      (get-remove_same (own registry iid) iid)

pub entry_of-remove_entry_ne :
    (registry : Registry) (iid i : ℕ)
    → iid ≢ i
    → entry_of (remove_entry registry (process_of iid) iid) i ≡ entry_of registry i
entry_of-remove_entry_ne registry iid i h = elim (ℕ_discrete (process_of iid) (process_of i)) [
  | yes same ↦
      entry_of-put_same registry (remove (own registry iid) iid) i (process_of iid) (sym same)
      ∙ get-remove_ne (own registry iid) iid i h
      ∙ ap (λ p. get (registry_of (get registry p)) i) same
  | no other ↦ entry_of-put_ne registry (remove (own registry iid) iid) i (process_of iid) other
]

-- Where a publication of a changed registry is from.
pub entry_of-put_cases :
    (registry : Registry) (iid i : ℕ) (e v : Publication)
    → entry_of (put_entry registry (process_of iid) iid e) i ≡ some v
    → ((iid ≡ i) × (e ≡ v)) ⊎ ((iid ≢ i) × (entry_of registry i ≡ some v))
entry_of-put_cases registry iid i e v h = elim (ℕ_discrete iid i) [
  | yes same ↦ inl (
    same,
    some_inj e v (
        sym (entry_of-put_entry_same registry iid e)
        ∙ ap (entry_of (put_entry registry (process_of iid) iid e)) same
        ∙ h),
  )
  | no other ↦ inr (other, sym (entry_of-put_entry_ne registry iid i e other) ∙ h)
]

pub entry_of-remove_cases :
    (registry : Registry) (iid i : ℕ) (v : Publication)
    → entry_of (remove_entry registry (process_of iid) iid) i ≡ some v
    → (iid ≢ i) × (entry_of registry i ≡ some v)
entry_of-remove_cases registry iid i v h = elim (ℕ_discrete iid i) [
  | yes same ↦ absurd (
      none-some _ v
        (sym (ap (entry_of (remove_entry registry (process_of iid) iid)) same)
          ∙ entry_of-remove_entry_same registry iid)
        h)
  | no other ↦ (other, sym (entry_of-remove_entry_ne registry iid i other) ∙ h)
]

pub Consistent-put :
    (names : Names) (registry : Registry) (iid : ℕ) (e : Publication)
    → Consistent names registry
    → iid ≢ 0
    → get names e.name ≡ none
    → entry_of registry iid ≡ none
    → length (own registry iid) < max_public_transceivers_per_proc
    → Consistent (put names e.name iid) (put_entry registry (process_of iid) iid e)
Consistent-put names registry iid e h v free absent room = record {
  to_registry = λ n i k. elim (get-put_cases names e.name n iid i k) [
    | inl (same, this) ↦ record {
      entry = e;
      listed =
          ap (entry_of (put_entry registry (process_of iid) iid e)) (sym this)
          ∙ entry_of-put_entry_same registry iid e;
      same_name = same;
    }
    | inr (other, old) ↦ keeps n i (h.to_registry n i old)
  ];
  to_names = λ i entry k. elim (entry_of-put_cases registry iid i e entry k) [
    | inl (same, this) ↦
        ap (λ x. get (put names e.name iid) x.name) (sym this)
        ∙ get-put_same names e.name iid
        ∙ ap some same
    | inr (other, old) ↦
        get-put_ne names e.name entry.name iid
          (λ same. none-some _ i (ap (get names) (sym same) ∙ free) (h.to_names i entry old))
        ∙ h.to_names i entry old
  ];
  valid = λ n i k. elim (get-put_cases names e.name n iid i k) [
    | inl (same, this) ↦ λ zero. v (this ∙ zero)
    | inr (other, old) ↦ h.valid n i old
  ];
  bounded = λ p r k.
      elim (get-put_cases registry (process_of iid) p (put (own registry iid) iid e) r k) [
        | inl (same, this) ↦ rw (← this) (omega (arith, length-put (own registry iid) iid e, room))
        | inr (other, old) ↦ h.bounded p r old
      ];
}
  where
    keeps :
        (n i : ℕ)
        → IsPublished registry n i
        → IsPublished (put_entry registry (process_of iid) iid e) n i
    keeps n i p = record {
      entry = p.entry;
      listed =
          entry_of-put_entry_ne registry iid i e
            (λ same. none-some _ p.entry (ap (entry_of registry) (sym same) ∙ absent) p.listed)
          ∙ p.listed;
      same_name = p.same_name;
    }
