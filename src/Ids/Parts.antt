-- ===== src/Ids/Parts.antt =====
-- An instance id and its two parts determine each other.
use sintra.Base.{ℕ, ◌-◌, ◌^◌, ◌<◌, ◌≤◌, ◌≡◌, true, arith}
use sintra.Ids.{
  decompose_instance, compose_instance, process_of, is_process, is_valid_process_instance_id,
  max_process_index,
}

-- For an 8-bit process and a 56-bit transceiver, `decompose_instance` gives back what
-- `compose_instance` was given, with the complements.
pub decompose-compose :
    (process transceiver : ℕ)
    → process < 2 ^ 8
    → transceiver < 2 ^ 56
    → decompose_instance (compose_instance process transceiver) ≡ record {
      process = process;
      transceiver = transceiver;
      process_complement = 2 ^ 32 - 1 - process;
      transceiver_complement = 2 ^ 64 - 1 - transceiver;
    }
unfolding decompose_instance compose_instance
decompose-compose process transceiver hp ht = ground (arith, hp, ht)

-- The parts of a 64-bit id compose to that id, and they are in range.
pub compose-decompose :
    (iid : ℕ)
    → iid < 2 ^ 64
    → (compose_instance (decompose_instance iid).process (decompose_instance iid).transceiver ≡ iid)
      × ((decompose_instance iid).process < 2 ^ 8)
      × ((decompose_instance iid).transceiver < 2 ^ 56)
unfolding decompose_instance compose_instance
compose-decompose iid h = (omega arith, omega arith, omega arith)

-- The process of an id that names one process is the valid process id with the same process part,
-- and taking it again changes nothing.
pub process_of_lem :
    (iid : ℕ)
    → 0 < (decompose_instance iid).process
    → (decompose_instance iid).process ≤ max_process_index
    → ((decompose_instance (process_of iid)).process ≡ (decompose_instance iid).process)
      × (is_valid_process_instance_id (process_of iid) ≡ true)
      × (is_process (process_of iid) ≡ true)
      × (process_of (process_of iid) ≡ process_of iid)
unfolding decompose_instance process_of compose_instance is_valid_process_instance_id is_process
process_of_lem iid lo hi = (omega arith, ground arith, ground arith, omega arith)
