-- ===== src/Coordinator/Consistency/Retirement.antt =====
-- A retirement keeps the names and the registry in agreement, and so does every run of operations.
use sintra.Base.{
  ℕ, ◌≡◌, refl, Bool, true, false, ◌==◌, ◌&&◌, Option, none, some, List, [], ◌∷◌, arith, Bool-cases,
  inl, inr,
}
use sintra.Base.Maps.{get}
use sintra.Ids.{process_of, is_valid_process_instance_id}
use sintra.Coordinator.{
  Coordinator, ReaderIdentity, Publication, set_draining_state, set_collective_shutdown_state,
}
use sintra.Coordinator.Leaving.{forget_join, collect_pending_barrier_completions}
use sintra.Coordinator.Retire.{
  MessageReader, publication_of, extract, depart, forget_process, may_retire, retire,
}
use sintra.Coordinator.Lifecycle.{
  CurrentMessage, may_shut_down, mark_initialization_complete, begin_process_draining,
  begin_collective_shutdown,
}
use sintra.Coordinator.Operations.{
  Operation, publishes, waits, retires, completes_initialization, drains, shuts_down, perform, run,
  names_instance, all_name_instances,
}
use sintra.Coordinator.Consistency.Withdrawal.{Consistent-remove_entry, Consistent-forget}
use sintra.Coordinator.Consistency.Runs.{
  IsConsistent, Consistent-tables, depart-tables, finalize-tables, forget_join-tables,
  publish_transceiver-IsConsistent, wait_for_instance-IsConsistent,
}

extract-IsConsistent :
    (iid : ℕ) (p : Publication) (c : Coordinator)
    → IsConsistent c
    → publication_of iid c ≡ some p
    → IsConsistent (extract iid p c)
unfolding extract
extract-IsConsistent iid p c h e =
    Consistent-remove_entry c.instance_id_of_assigned_name c.transceiver_registry iid p h e

depart-IsConsistent :
    (process : ℕ) (c : Coordinator) → IsConsistent c → IsConsistent (depart process c).1
unfolding forget_process
depart-IsConsistent process c h =
    Consistent-tables _ _ _ _
      (Consistent-forget c.instance_id_of_assigned_name c.transceiver_registry process h)
      (depart-tables process c)

pub retire-IsConsistent :
    (mproc_id : ℕ) (reader : Option (Option MessageReader)) (iid : ℕ)
    (expected : Option ReaderIdentity) (captured : ReaderIdentity) (c : Coordinator)
    → IsConsistent c
    → IsConsistent (retire mproc_id reader iid expected captured c).1
unfolding retire
retire-IsConsistent mproc_id reader iid expected captured c h = go (publication_of iid c) refl
  where
    allowed :
        (p : Publication)
        → publication_of iid c ≡ some p
        → (permits is_process : Bool)
        → may_retire mproc_id reader iid expected captured p.reader_identity c ≡ permits
        → (iid == process_of iid) ≡ is_process
        → IsConsistent (retire mproc_id reader iid expected captured c).1
    allowed p e false b m k = rw (retire, e, m) h
    allowed p e true true m k =
        rw (retire, e, m, k)
          (depart-IsConsistent iid (extract iid p c) (extract-IsConsistent iid p c h e))
    allowed p e true false m k = rw (retire, e, m, k) (extract-IsConsistent iid p c h e)

    go :
        (o : Option Publication)
        → publication_of iid c ≡ o
        → IsConsistent (retire mproc_id reader iid expected captured c).1
    go none e = rw (retire, e) h
    go (some p) e = allowed p e _ _ refl refl

mark-IsConsistent :
    (process : ℕ) (c : Coordinator)
    → IsConsistent c
    → IsConsistent (mark_initialization_complete process c).1
unfolding mark_initialization_complete
mark-IsConsistent process c h =
    Consistent-tables _ _ _ _
      (Consistent-tables _ _ _ _ h
        (forget_join-tables (get c.joined_process_branch process) process c))
      (finalize-tables process (forget_join (get c.joined_process_branch process) process c))

begin_collective_shutdown-IsConsistent :
    (lifecycle : ℕ → Bool) (message : Option CurrentMessage) (mproc_id watermark process : ℕ)
    (c : Coordinator)
    → IsConsistent c
    → IsConsistent (begin_collective_shutdown lifecycle message mproc_id watermark process c).2
unfolding begin_collective_shutdown collect_pending_barrier_completions
    set_collective_shutdown_state
begin_collective_shutdown-IsConsistent lifecycle message mproc_id watermark process c h =
    elim (Bool-cases
      (is_valid_process_instance_id process && may_shut_down message mproc_id process)) [
        | inl e ↦ rw (e, begin_collective_shutdown) h
        | inr e ↦ rw (e, begin_collective_shutdown) h
      ]

perform-IsConsistent :
    (o : Operation) (c : Coordinator)
    → IsConsistent c
    → names_instance o ≡ true
    → IsConsistent (perform o c)
unfolding begin_process_draining collect_pending_barrier_completions set_draining_state
perform-IsConsistent (publishes tid iid name identity) c h v =
    publish_transceiver-IsConsistent tid iid name identity c h (λ e. ground (arith, e, v))
perform-IsConsistent (waits caller fresh name) c h v =
    wait_for_instance-IsConsistent caller fresh name c h
perform-IsConsistent (retires mproc_id reader iid expected captured) c h v =
    retire-IsConsistent mproc_id reader iid expected captured c h
perform-IsConsistent (completes_initialization process) c h v = mark-IsConsistent process c h
perform-IsConsistent (drains process) c h v = h
perform-IsConsistent (shuts_down lifecycle message mproc_id watermark process) c h v =
    begin_collective_shutdown-IsConsistent lifecycle message mproc_id watermark process c h

-- From a state in which the assigned names and the registry agree, any sequence of operations,
-- where no publication is of the invalid instance, leads to such a state: a name is assigned to
-- an instance exactly when the instance is published under it, no two instances have one name, and
-- no process has more than 65535 publications.
pub run-IsConsistent :
    (operations : List Operation) (c : Coordinator)
    → IsConsistent c
    → all_name_instances operations ≡ true
    → IsConsistent (run operations c)
run-IsConsistent [] c h v = h
run-IsConsistent (o ∷ rest) c h v =
    run-IsConsistent rest (perform o c) (perform-IsConsistent o c h (ground (arith, v)))
      (ground (arith, v))
