-- ===== src/Ids.antt =====
-- Instance ids, include/sintra/detail/id_types.h: a 64-bit number whose upper 8 bits name a process
-- and whose lower 56 bits name a transceiver in it, the wildcards among them, and the counters
-- that hand them out. The id of the own process, `s_mproc_id`, is an argument, and a counter is
-- passed on from call to call; a thrown exception is `none`.
pub mod Parts
pub mod Locality
pub mod Counters
use sintra.Base.{
  ℕ, ◌+◌, ◌-◌, ◌*◌, ◌/◌, ◌%◌, ◌^◌, Bool, not, ◌&&◌, ◌||◌, ◌==◌, ltb, leb, Option, none, some,
  if◌then◌else◌,
}

-- `num_process_index_bits`
abbrev pub num_process_index_bits : ℕ
num_process_index_bits = 8

abbrev pub num_transceiver_index_bits : ℕ
num_transceiver_index_bits = 56

abbrev pub max_process_index : ℕ
max_process_index = 2 ^ 7 - 1

abbrev pub max_instance_index : ℕ
max_instance_index = 2 ^ 55 - 1

abbrev pub num_reserved_service_instances : ℕ
num_reserved_service_instances = 0x1000

abbrev pub all_remote_processes_wildcard : ℕ
all_remote_processes_wildcard = 254

abbrev pub all_processes_wildcard : ℕ
all_processes_wildcard = 255

abbrev pub all_transceivers_wildcard : ℕ
all_transceivers_wildcard = 2 ^ 56 - 1

pub record DecomposedInstanceId : Type 0 where
  pub process : ℕ
  pub transceiver : ℕ
  pub process_complement : ℕ
  pub transceiver_complement : ℕ

unfoldable pub decompose_instance : ℕ → DecomposedInstanceId
decompose_instance instance_id =
    let process = instance_id / 2 ^ 56 in
    let transceiver = instance_id % 2 ^ 56 in
    record {
      process = process;
      transceiver = transceiver;
      process_complement = 2 ^ 32 - 1 - process;
      transceiver_complement = 2 ^ 64 - 1 - transceiver;
    }

-- A transceiver index is below `2 ^ 56`, so the two halves do not overlap and `|` adds them.
unfoldable pub compose_instance : ℕ → ℕ → ℕ
compose_instance process transceiver = process * 2 ^ 56 % 2 ^ 64 + transceiver

unfoldable pub get_process_index : ℕ → ℕ
unfolding decompose_instance
get_process_index instance_id = (decompose_instance instance_id).process

abbrev pub any_local_or_remote : ℕ
any_local_or_remote = 0xffffffffffffffff

abbrev pub any_remote : ℕ
any_remote = 0xfeffffffffffffff

abbrev pub any_local : ℕ
any_local = 0x01ffffffffffffff

-- `make_instance_id`: the counter before the call, and the id with the counter after it. The
-- counters are 64-bit words that wrap.
unfoldable pub make_instance_id : ℕ → ℕ → Option ℕ × ℕ
unfolding decompose_instance compose_instance
make_instance_id mproc_id counter =
    if leb max_instance_index counter then (none, (counter + 1) % 2 ^ 64) else (
      some (compose_instance (decompose_instance mproc_id).process counter),
      (counter + 1) % 2 ^ 64,
    )

unfoldable pub make_service_instance_id : ℕ → ℕ → Option ℕ × ℕ
unfolding decompose_instance compose_instance
make_service_instance_id mproc_id counter =
    if leb (2 + num_reserved_service_instances) counter then (none, (counter + 1) % 2 ^ 64) else (
      some (compose_instance (decompose_instance mproc_id).process counter),
      (counter + 1) % 2 ^ 64,
    )

unfoldable pub is_service_instance : ℕ → Bool
is_service_instance instance_id =
    let idx = instance_id % 2 ^ 56 in leb 2 idx && ltb idx (2 + num_reserved_service_instances)

unfoldable pub make_process_instance_id : ℕ → Option ℕ × ℕ
unfolding compose_instance
make_process_instance_id counter =
    if ltb max_process_index counter
    then (none, (counter + 1) % 2 ^ 64)
    else (some (compose_instance counter 1), (counter + 1) % 2 ^ 64)

unfoldable pub is_local_instance : ℕ → ℕ → Bool
unfolding decompose_instance get_process_index
is_local_instance mproc_id iid =
    let process_index = (decompose_instance iid).process in
    process_index == 1 || process_index == get_process_index mproc_id

-- `~process_index & 0xff`
unfoldable pub excluded_process : ℕ → ℕ
excluded_process process_index = (2 ^ 32 - 1 - process_index) % 2 ^ 8

unfoldable pub is_local : ℕ → ℕ → Bool
unfolding decompose_instance get_process_index is_local_instance excluded_process
is_local mproc_id iid =
    let process_index = (decompose_instance iid).process in
    let matches_implicit_process =
      ltb max_process_index process_index
      && not (excluded_process process_index == 1)
      && not (excluded_process process_index == get_process_index mproc_id) in
    is_local_instance mproc_id iid
    || matches_implicit_process
    || process_index == all_processes_wildcard

unfoldable pub is_process : ℕ → Bool
unfolding decompose_instance
is_process iid = (decompose_instance iid).transceiver == 1

unfoldable pub is_valid_process_instance_id : ℕ → Bool
unfolding decompose_instance
is_valid_process_instance_id iid =
    let di = decompose_instance iid in
    ltb 0 di.process && leb di.process max_process_index && di.transceiver == 1

unfoldable pub process_of : ℕ → ℕ
unfolding decompose_instance compose_instance
process_of iid = compose_instance (decompose_instance iid).process 1
