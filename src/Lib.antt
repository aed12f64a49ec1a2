-- ===== src/Lib.antt =====
-- A model of sintra, a C++ library for communication between processes through shared-memory
-- rings, and of what its core promises.
--
-- A ring (include/sintra/detail/ipc/rings.h) is a circular buffer in a file that is mapped twice
-- in a row, beside a control block in a second file. One writer appends, and up to 127 readers
-- read what it published. The ring is cut into eight octiles; `read_access` counts the readers on
-- each of them, one byte per octile, and each reader slot has a word that publishes the octile it
-- guards. A reader publishes its guard and takes a count; the writer enters an octile only when
-- its count is zero, and may evict a reader that is too slow. The control block is handed between
-- processes that can die at any point, so its free slots and counts can be recovered, under a
-- spinlock that survives the exit of its owner (include/sintra/detail/ipc/spinlock.h). Processes
-- and the objects in them are named by instance ids (include/sintra/detail/id_types.h).
-- A coordinator lets the processes of a group meet at barriers; it also keeps the registry of what
-- the processes publish and under which names, the processes that are starting, draining or gone,
-- and the invitations by which an external process may join.
--
-- Base has the helpers: tests, arrays as lists, sums, 64-bit integers, gcd, and (Base.Maps) maps as
-- association lists.
-- Ring.State models Reader_state_union, as a record and (State.Word, State.Codec) as the word.
-- Ring.Access models read_access, octile_mask and octile_of_index.
-- Ring.Stack models Index_stack; Stack.Bag and Stack.Free see it as a bag and as a set of slots.
-- Ring.Control models Control: Guards the release functions, clear_slot_guard,
--   count_guards_for_octile and try_rollback_unpaired_read_access; Wakeups flush_wakeups and
--   clear_reader_wakeup; Scavenge scavenge_orphans. Accounting, Reclaim and Pass have the
--   proofs.
-- Ring.Layout models mod_pos_i64, mod_u64 and trailing_octile_of.
-- Ring.Capacity models aligned_capacity and get_ring_configurations.
-- Ring.Writer models Ring_W: prepare_write, advance_writer_octile_if_needed as far as its octile
--   check and its wait, write, done_writing, get_readable_range. Writer.Reserve and Writer.Frame have the
--   proofs.
-- Ring.Reader models Ring_R: the loops of acquire_guard and release_guard, and start_reading.
--   Reader.Recovery models handle_eviction, resume_at_leading_sequence and done_reading_new_data,
--   and Reader.Delivery produce_range of wait_for_new_data, which begins with the recovery from an
--   eviction. Reader.Snapshot, Reader.Stream, Reader.Complete, Recovery.Aligned and Recovery.Resumed
--   have the proofs.
-- Ring.Transitions has the compare-and-swap transitions of a slot's word, and Ring.Protocol lets
--   any number of readers and the writer take them in any order. The counters and the words change
--   in separate steps there.
-- Ring.Lifecycle models Ring_lifecycle_guard_base: the attachments of processes to a ring in its
--   lifecycle anchor, and the deletion of the ring by the last of them. Lifecycle.Attachments and
--   Lifecycle.Claiming have the proofs.
-- Spinlock models lock, unlock and the takeover from an exited owner as interleaved steps.
-- Ids models instance ids, their wildcards and the counters that hand them out.
-- Barrier models Process_group::barrier and drop_from_inflight_barriers of
--   include/sintra/detail/process/coordinator_impl.h for one barrier.
-- Coordinator models the tables of include/sintra/detail/process/coordinator.h and, in its parts,
--   coordinator_impl.h beside it: Publish the publication of names and the waits for them, Retire
--   `unpublish_transceiver_exact`, with Leaving for the groups and barriers that a process leaves,
--   Lifecycle the draining of processes and the collective shutdown, Invitations the invitations of
--   external processes, StandardGroups and Claim the claim of one. Consistency, Departure,
--   Outcome, Waiting, Invitations.Deadlines, Invitations.Tokens, Lifecycle.Candidates,
--   Lifecycle.Known, Claim.Events, Claim.Occurrences and Claim.Once have the proofs; Operations has
--   the runs of operations that some of them are about. The two locked regions of an unpublication
--   are separate operations.
-- Mutex models include/sintra/detail/ipc/mutex.h: the atomic operations of any number of threads,
--   interleaved, with processes that exit and process ids that are used again.
-- NameCache models include/sintra/detail/process/instance_name_cache.h.
-- Tests runs the definitions on small inputs.
--
-- Numbers are natural numbers with the wrap-around of the source's integers written out. A loop
-- whose rounds read shared memory is a recursion over a list of what the rounds observe; when the
-- list ends the loop is still waiting, which is a result of its own. The other loops recurse on
-- what they run over. What the operating system answers is an argument: `probe` for the state of a
-- process, `reset` for a semaphore that cannot be drained, the page size for a capacity.
--
-- Names in the coordinator are numbers, 0 the empty string; 1 and 2 are the names of the standard
-- groups, `_sintra_all_processes` and `_sintra_external_processes`. A token is the list of its
-- bytes, and invitations count nanoseconds of the steady clock, with a grace of two seconds.
--
-- Not modelled: the ABI checks, the files and mappings and the fingerprints of the lifecycle anchor,
-- the wait phases of a reader, the writer's recovery of counts that no guard explains; the waits of
-- the mutex, its timed calls and the classification of its recursive calls; the coordinator's
-- lifecycle events, its spawns and recovery, unpublications with crash information, the joining of
-- a swarm, the groups that a program makes and the waits on condition variables; messages,
-- transceivers and the process management.
pub mod Base
pub mod Ring
pub mod Spinlock
pub mod Ids
pub mod Barrier
pub mod Coordinator
pub mod Mutex
pub mod NameCache
pub mod Tests
