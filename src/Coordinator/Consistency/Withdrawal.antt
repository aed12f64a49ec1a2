-- ===== src/Coordinator/Consistency/Withdrawal.antt =====
-- The names and the registry agree after a publication, or a whole process, is taken out.
use sintra.Base.{
  ℕ, ◌≤◌, ◌≡◌, ◌≢◌, ap, sym, ◌∙◌, false, ◌==◌, some, length, arith, Option-cases, ℕ_discrete, inl,
  inr,
}
use sintra.Base.Maps.{
  get, remove, remove_where, get-put_cases, get-remove_cases, none-some, some_inj, get-remove_ne,
  get-remove_where_kept, get-remove_where_old, length-remove,
}
use sintra.Ids.{process_of}
use sintra.Coordinator.{Publication, remove_entry}
use sintra.Coordinator.Publish.{max_public_transceivers_per_proc}
use sintra.Coordinator.Consistency.{
  Names, Registry, Consistent, IsPublished, entry_of, own, entry_of-remove_entry_ne,
  entry_of-remove_cases, entry_of-remove_ne, entry_of-remove_same,
}

pub Consistent-own :
    (names : Names) (registry : Registry) (iid : ℕ)
    → Consistent names registry
    → length (own registry iid) ≤ max_public_transceivers_per_proc
Consistent-own names registry iid h = elim (Option-cases (get registry (process_of iid))) [
  | inl e ↦ rw (e) (omega arith)
  | inr (r, e) ↦ rw (e) (h.bounded (process_of iid) r e)
]

-- Without one publication and its name.
pub Consistent-remove_entry :
    (names : Names) (registry : Registry) (iid : ℕ) (e : Publication)
    → Consistent names registry
    → entry_of registry iid ≡ some e
    → Consistent (remove names e.name) (remove_entry registry (process_of iid) iid)
Consistent-remove_entry names registry iid e h listed = record {
  to_registry = λ n i k.
      let old = get-remove_cases names e.name n i k in keeps n i old.0 (h.to_registry n i old.1);
  to_names = λ i entry k.
      let old = entry_of-remove_cases registry iid i entry k in
      get-remove_ne names e.name entry.name (λ same. old.0 (
        some_inj iid i
          (sym (h.to_names iid e listed) ∙ ap (get names) same ∙ h.to_names i entry old.1)))
      ∙ h.to_names i entry old.1;
  valid = λ n i k. h.valid n i (get-remove_cases names e.name n i k).1;
  bounded = λ p r k.
      elim (get-put_cases registry (process_of iid) p (remove (own registry iid) iid) r k) [
        | inl (same, this) ↦ rw (← this) (
            omega
              (arith, length-remove (own registry iid) iid, Consistent-own names registry iid h))
        | inr (other, old) ↦ h.bounded p r old
      ];
}
  where
    keeps :
        (n i : ℕ)
        → e.name ≢ n
        → IsPublished registry n i
        → IsPublished (remove_entry registry (process_of iid) iid) n i
    keeps n i other p = record {
      entry = p.entry;
      listed =
          entry_of-remove_entry_ne registry iid i (λ same. other (
            ap (λ x. x.name)
              (some_inj e p.entry (sym listed ∙ ap (entry_of registry) same ∙ p.listed))
            ∙ p.same_name))
          ∙ p.listed;
      same_name = p.same_name;
    }

-- Without a process.
pub Consistent-forget :
    (names : Names) (registry : Registry) (process : ℕ)
    → Consistent names registry
    → Consistent (remove_where (λ iid. process_of iid == process) names) (remove registry process)
Consistent-forget names registry process h = record {
  to_registry = λ n i k.
      let old = get-remove_where_old (λ iid. process_of iid == process) names n i k in
      keeps n i old.1 (h.to_registry n i old.0);
  to_names = λ i entry k. elim (ℕ_discrete process (process_of i)) [
    | yes same ↦ absurd (none-some _ entry (entry_of-remove_same registry i process (sym same)) k)
    | no other ↦
        get-remove_where_kept (λ iid. process_of iid == process) names entry.name i
          (h.to_names i entry (sym (entry_of-remove_ne registry i process other) ∙ k))
          (ground (arith, other))
  ];
  valid =
      λ n i k. h.valid n i (get-remove_where_old (λ iid. process_of iid == process) names n i k).0;
  bounded = λ p r k. h.bounded p r (get-remove_cases registry process p r k).1;
}
  where
    keeps :
        (n i : ℕ)
        → (process_of i == process) ≡ false
        → IsPublished registry n i
        → IsPublished (remove registry process) n i
    keeps n i other p = record {
      entry = p.entry;
      listed =
          entry_of-remove_ne registry i process (λ same. ground (arith, other, same)) ∙ p.listed;
      same_name = p.same_name;
    }
