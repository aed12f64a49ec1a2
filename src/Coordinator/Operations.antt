-- ===== src/Coordinator/Operations.antt =====
-- Sequences of operations of the coordinator.
use sintra.Base.{ℕ, Bool, true, not, ◌&&◌, ◌==◌, Option, List, [], ◌∷◌}
use sintra.Coordinator.{Coordinator, ReaderIdentity}
use sintra.Coordinator.Publish.{publish_transceiver, wait_for_instance}
use sintra.Coordinator.Retire.{MessageReader, retire}
use sintra.Coordinator.Lifecycle.{
  CurrentMessage, mark_initialization_complete, begin_process_draining, begin_collective_shutdown,
}

-- What other threads and processes ask of the coordinator.
pub data Operation : Type 0 where
  publishes : (tid iid name : ℕ) (identity : ReaderIdentity) → Operation
  waits : (caller fresh name : ℕ) → Operation
  retires :
      (mproc_id : ℕ) (reader : Option (Option MessageReader)) (iid : ℕ)
      (expected : Option ReaderIdentity) (captured : ReaderIdentity)
      → Operation
  completes_initialization : (process : ℕ) → Operation
  drains : (process : ℕ) → Operation
  shuts_down :
      (lifecycle : ℕ → Bool) (message : Option CurrentMessage) (mproc_id watermark process : ℕ)
      → Operation

abbrev pub perform : Operation → Coordinator → Coordinator
perform (publishes tid iid name identity) c = (publish_transceiver tid iid name identity c).1
perform (waits caller fresh name) c = (wait_for_instance caller fresh name c).1
perform (retires mproc_id reader iid expected captured) c =
    (retire mproc_id reader iid expected captured c).1
perform (completes_initialization process) c = (mark_initialization_complete process c).1
perform (drains process) c = (begin_process_draining process c).1
perform (shuts_down lifecycle message mproc_id watermark process) c =
    (begin_collective_shutdown lifecycle message mproc_id watermark process c).2

abbrev pub names_instance : Operation → Bool
names_instance (publishes tid iid name identity) = not (iid == 0)
names_instance operation = true

abbrev pub run : List Operation → Coordinator → Coordinator
run [] c = c
run (o ∷ rest) c = run rest (perform o c)

abbrev pub all_name_instances : List Operation → Bool
all_name_instances [] = true
all_name_instances (o ∷ rest) = names_instance o && all_name_instances rest
