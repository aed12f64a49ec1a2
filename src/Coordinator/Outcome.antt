-- ===== src/Coordinator/Outcome.antt =====
-- How a retirement ends.
use sintra.Base.{
  ℕ, ◌+◌, ◌≡◌, ◌≢◌, ◌≤◌, refl, ap, sym, ◌∙◌, Bool, true, false, not, ◌||◌, ◌==◌, Option, none, some,
  length, arith, Option-cases, inl, inr, ==_iff,
}
use sintra.Base.Maps.{get, remove, get-remove_same, get-remove_where_old, none-some}
use sintra.Ids.{process_of, get_process_index, max_process_index}
use sintra.Coordinator.{
  Coordinator, ReaderIdentity, Publication, same_identity, exchange_draining_state,
}
use sintra.Coordinator.Departure.{IsGone, depart-IsGone}
use sintra.Coordinator.Leaving.{
  forget_join, finalize_initialization_tracking, collect_pending_barrier_completions,
}
use sintra.Coordinator.Retire.{
  no_departure, MessageReader, Retired, rejected, retired, Departure, publication_of, expects,
  extract, depart, forget_process, may_retire, retire,
}
use sintra.Coordinator.Consistency.{entry_of-remove_entry_same}
use sintra.Coordinator.Consistency.Runs.{depart-tables}

-- What a retirement that is not rejected has found and has left.
pub record Withdrawn (iid : ℕ) (expected : Option ReaderIdentity) (captured : ReaderIdentity)
    (p : Publication) (c after : Coordinator) : Type 0 where
  pub was_published : publication_of iid c ≡ some p
  pub was_expected : expects expected p.reader_identity ≡ true
  pub was_captured :
      (not (iid == process_of iid) || same_identity p.reader_identity captured) ≡ true
  pub is_withdrawn : publication_of iid after ≡ none
  pub is_unnamed : get after.instance_id_of_assigned_name p.name ≡ none
  pub is_gone : iid ≡ process_of iid → IsGone iid after
  pub waits_stay : after.instances_waited ≡ c.instances_waited

forget_join-waits :
    (branch : Option ℕ) (process : ℕ) (c : Coordinator)
    → (forget_join branch process c).instances_waited ≡ c.instances_waited
forget_join-waits none process c = refl
forget_join-waits (some b) process c = refl

finalize-waits :
    (process : ℕ) (c : Coordinator)
    → (finalize_initialization_tracking process c).1.instances_waited ≡ c.instances_waited
unfolding finalize_initialization_tracking
finalize-waits process c = ground arith

depart-waits :
    (process : ℕ) (c : Coordinator) → (depart process c).1.instances_waited ≡ c.instances_waited
unfolding depart forget_process exchange_draining_state collect_pending_barrier_completions
depart-waits process c =
    finalize-waits process (forget_join (get c.joined_process_branch process) process c)
    ∙ forget_join-waits (get c.joined_process_branch process) process c

pub data IsRetirement (iid : ℕ) (expected : Option ReaderIdentity) (captured : ReaderIdentity)
    (c : Coordinator) : Retired × Coordinator → Type 0 where
  unchanged : IsRetirement iid expected captured c (rejected, c)
  withdrawn :
      (p : Publication) (d : Departure) (after : Coordinator)
      → Withdrawn iid expected captured p c after
      → IsRetirement iid expected captured c (retired p d, after)

-- A retirement, of a valid instance, is rejected and then changes nothing, or it withdraws the
-- publication whose identity is the expected one and, for a process, the one that was captured
-- before: the instance is not published any longer and its name is free. Of a process, there is then
-- no publication, no name, no external attachment, no membership in a group, no place at a barrier,
-- no tracked initialization and no branch that it joined in, and it counts as draining. The waits
-- for names stay as they were, also those of a process that is gone.
pub retire-IsRetirement :
    (mproc_id : ℕ) (reader : Option (Option MessageReader)) (iid : ℕ)
    (expected : Option ReaderIdentity) (captured : ReaderIdentity) (c : Coordinator)
    → iid ≢ 0
    → get_process_index iid ≢ 0
    → get_process_index iid ≤ max_process_index
    → length c.draining_process_states ≡ max_process_index + 1
    → IsRetirement iid expected captured c (retire mproc_id reader iid expected captured c)
unfolding retire may_retire extract forget_process
retire-IsRetirement mproc_id reader iid expected captured c nonzero valid bound size =
    go (publication_of iid c) refl
  where
    unnamed :
        (p : Publication)
        → get (depart iid (extract iid p c)).1.instance_id_of_assigned_name p.name ≡ none
    unnamed p =
        elim (Option-cases
          (get (depart iid (extract iid p c)).1.instance_id_of_assigned_name p.name)) [
            | inl h ↦ h
            | inr (i, h) ↦ absurd (
                none-some _ i (get-remove_same c.instance_id_of_assigned_name p.name)
                  (get-remove_where_old (λ j. process_of j == iid)
                    (remove c.instance_id_of_assigned_name p.name) p.name i
                    (ap (λ names. get names p.name) (sym (depart-tables iid (extract iid p c)).0)
                      ∙ h)).0)
          ]

    allowed :
        (p : Publication)
        → publication_of iid c ≡ some p
        → (permits is_process : Bool)
        → may_retire mproc_id reader iid expected captured p.reader_identity c ≡ permits
        → (iid == process_of iid) ≡ is_process
        → IsRetirement iid expected captured c (retire mproc_id reader iid expected captured c)
    allowed p e false b m k = rw (retire, e, m) unchanged
    allowed p e true true m k =
        let gone = depart-IsGone iid (extract iid p c) nonzero valid bound size in
        rw (retire, e, m, k)
          (withdrawn p (depart iid (extract iid p c)).0 (depart iid (extract iid p c)).1 (record {
            was_published = e;
            was_expected = ground (arith, m);
            was_captured = ground (arith, m, k);
            is_withdrawn = gone.no_publication iid (sym ((==_iff iid (process_of iid)).0 k));
            is_unnamed = unnamed p;
            is_gone = λ h. gone;
            waits_stay = depart-waits iid (extract iid p c);
          }))
    allowed p e true false m k =
        rw (retire, e, m, k)
          (withdrawn p no_departure (extract iid p c) (record {
            was_published = e;
            was_expected = ground (arith, m);
            was_captured = ground (arith, k);
            is_withdrawn = entry_of-remove_entry_same c.transceiver_registry iid;
            is_unnamed = get-remove_same c.instance_id_of_assigned_name p.name;
            is_gone = λ h. absurd (ground (arith, h, k));
            waits_stay = refl;
          }))

    go :
        (o : Option Publication)
        → publication_of iid c ≡ o
        → IsRetirement iid expected captured c (retire mproc_id reader iid expected captured c)
    go none e = rw (retire, e) unchanged
    go (some p) e = allowed p e _ _ refl refl
