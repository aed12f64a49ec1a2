-- ===== src/Tests/Ids.antt =====
-- Ids of the process 5 and of others.
use sintra.Base.{ℕ, ◌-◌, ◌^◌, ◌≡◌, ◌↔◌, refl, true, arith}
use sintra.Ids.{
  decompose_instance, compose_instance, get_process_index, is_local, make_instance_id,
  make_service_instance_id, make_process_instance_id,
}
use sintra.Ids.Parts.{decompose-compose}
use sintra.Ids.Locality.{Addresses, is_local_lem}
use sintra.Ids.Counters.{AllDifferent, calls, makers-AllDifferent}

abbrev mproc : ℕ
mproc = 0x0500000000000001

abbrev all_but_three : ℕ
all_but_three = 0xfc00000000000007

decompose-compose_example : decompose_instance (compose_instance 5 9) ≡ record {
  process = 5;
  transceiver = 9;
  process_complement = 2 ^ 32 - 1 - 5;
  transceiver_complement = 2 ^ 64 - 1 - 9;
}
decompose-compose_example = decompose-compose 5 9 (omega arith) (omega arith)

is_local_example :
    (is_local mproc all_but_three ≡ true) ↔ Addresses 5 (decompose_instance all_but_three).process 5
unfolding get_process_index decompose_instance
is_local_example = is_local_lem 5 mproc all_but_three (omega arith) (omega arith) (omega arith) refl

makers-AllDifferent_example :
    AllDifferent (calls (make_instance_id mproc) 3 4098)
    × AllDifferent (calls (make_service_instance_id mproc) 3 2)
    × AllDifferent (calls make_process_instance_id 3 2)
makers-AllDifferent_example =
    makers-AllDifferent mproc 3 4098 2 2 (omega arith) (omega arith) (omega arith)
