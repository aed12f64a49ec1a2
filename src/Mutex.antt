-- ===== src/Mutex.antt =====
-- `interprocess_mutex` of include/sintra/detail/ipc/mutex.h as interleaved atomic operations of any
-- number of threads on its four words. A process starts and exits at any point, and a process that
-- starts can take the process id of one that has exited. The operating system says of a process id
-- whether a process runs under it, and of a running process its start stamp; it may not know.
-- To clear the gate of an exited process is one operation here, where the source reads the holder,
-- asks the operating system and exchanges the word that it read.
-- Left out: the waiting, and a call of a thread that holds the mutex already, which ends without a
-- change of the owner.
pub mod Invariant
pub mod Moves
pub mod Evidence
pub mod Steps
pub mod Kept
pub mod Preservation
pub mod Processes
pub mod Exclusion
pub mod Recovery
use sintra.Base.{
  ℕ, ◌+◌, ◌*◌, ◌/◌, ◌%◌, ◌^◌, ◌≡◌, ◌≢◌, ◌⊎◌, Bool, true, false, not, ◌&&◌, ◌||◌, ◌==◌, Option, none,
  some, if◌then◌else◌,
}

-- The words of the mutex.
pub record Words : Type 0 where
  pub owner : ℕ
  pub owner_start_stamp : ℕ
  pub owner_instance : ℕ
  pub recovering : ℕ

-- Where a thread stands in `try_acquire` and `unlock`.
pub data Pc : Type 0 where
  idle : Pc
  publishing : Pc  -- the gate is taken, in try_acquire_unowned_when_no_recovery
  checked : Pc  -- no owner was read
  stamped : Pc  -- the start stamp is stored
  tupled : Pc  -- the process instance is stored, too
  owning : Pc  -- the owner is stored, the gate is not released yet
  critical : Pc
  recovering_from : (observed : ℕ) → Pc  -- the gate is taken, in try_recover
  condemned : (observed : ℕ) → Pc  -- the owner was found to have exited
  leaving : Pc  -- before the gate is released

pub data Phase : Type 0 where
  unborn running exited : Phase

abbrev pub is_running : Phase → Bool
is_running running = true
is_running _ = false

pub record Mutex : Type 0 where
  pub words : Words
  pub phase : ℕ → Phase
  pub pc : ℕ → Pc

abbrev pub set_pc : (ℕ → Pc) → ℕ → Pc → ℕ → Pc
set_pc f t p u = if t == u then p else f u

abbrev pub set_phase : (ℕ → Phase) → ℕ → Phase → ℕ → Phase
set_phase f process x q = if process == q then x else f q

-- `owner_pid`, and `process_instance_pid`, which is the same function
unfoldable pub owner_pid : ℕ → ℕ
owner_pid token = token / 2 ^ 32

-- `make_owner_token`
unfoldable pub make_owner_token : ℕ → ℕ → ℕ
make_owner_token pid tid = pid * 2 ^ 32 + tid % 2 ^ 32

-- `process_instance_has_exited`; `alive` is the answer of `is_process_alive`.
unfoldable pub process_instance_has_exited : Bool → ℕ → ℕ → Bool
unfolding owner_pid
process_instance_has_exited alive recorded self =
    if owner_pid recorded == owner_pid self then not (recorded == self) else not alive

-- `owner_generation_is_stale`, where a start stamp proves another incarnation
unfoldable pub owner_generation_is_stale : Option ℕ → ℕ → Bool
owner_generation_is_stale none stored_stamp = false
owner_generation_is_stale (some current) stored_stamp =
    not (stored_stamp == 0) && not (current == stored_stamp)

-- `owner_has_exited`
unfoldable pub owner_has_exited : Bool → Option ℕ → ℕ → Words → ℕ → Bool
unfolding owner_pid owner_generation_is_stale
owner_has_exited alive current owner w self_instance =
    if owner_pid owner == owner_pid self_instance
    then not (w.owner_instance == self_instance)
    else not alive || owner_generation_is_stale current w.owner_start_stamp

-- `release_recovery_gate`
unfoldable pub release_recovery_gate : ℕ → Words → Words
release_recovery_gate owned_token w = record w {
  recovering = if w.recovering == owned_token then 0 else w.recovering;
}

-- The processes and the threads: the process id and the start stamp of a process, the number that
-- makes its instance, and the process and the thread id of a thread.
module _ (pid_of nonce_of stamp_of process_of tid_of : ℕ → ℕ) where
  unfoldable pub instance_of : ℕ → ℕ
  instance_of process = pid_of process * 2 ^ 32 + nonce_of process % 2 ^ 32

  unfoldable pub token_of : ℕ → ℕ
  unfolding make_owner_token
  token_of t = make_owner_token (pid_of (process_of t)) (tid_of t)

  -- An answer of the operating system: that no process runs under a process id is true.
  pub data IsLiveness (phase : ℕ → Phase) (pid : ℕ) : Bool → Type 0 where
    may_run : IsLiveness phase pid true
    none_runs :
        ((q : ℕ) → pid_of q ≡ pid → is_running (phase q) ≡ false) → IsLiveness phase pid false

  pub data IsStamp (phase : ℕ → Phase) (pid : ℕ) : Option ℕ → Type 0 where
    unknown : IsStamp phase pid none
    known :
        (q : ℕ)
        → is_running (phase q) ≡ true
        → pid_of q ≡ pid
        → IsStamp phase pid (some (stamp_of q))

  -- What one atomic operation of a thread makes of the words and of its place.
  pub data Move (phase : ℕ → Phase) (t : ℕ) (w : Words) : Pc → Words → Pc → Type 0 where
    clear_gate :
        (alive : Bool)
        → IsLiveness phase (owner_pid w.recovering) alive
        → w.recovering ≢ 0
        → process_instance_has_exited alive w.recovering (instance_of (process_of t)) ≡ true
        → Move phase t w idle (record w { recovering = 0 }) idle
    enter_publication :
        w.recovering ≡ 0
        → Move phase t w idle (record w { recovering = instance_of (process_of t) }) publishing
    find_unowned : w.owner ≡ 0 → Move phase t w publishing w checked
    find_owned : w.owner ≢ 0 → Move phase t w publishing w leaving
    store_stamp :
        (stamp : ℕ)
        → (stamp ≡ 0) ⊎ (stamp ≡ stamp_of (process_of t))
        → Move phase t w checked (record w { owner_start_stamp = stamp }) stamped
    store_instance :
        Move phase t w stamped (record w { owner_instance = instance_of (process_of t) }) tupled
    publish : w.owner ≡ 0 → Move phase t w tupled (record w { owner = token_of t }) owning
    lose_publication : w.owner ≢ 0 → Move phase t w tupled w leaving
    finish_publication :
        Move phase t w owning (release_recovery_gate (instance_of (process_of t)) w) critical
    leave : Move phase t w leaving (release_recovery_gate (instance_of (process_of t)) w) idle
    enter_recovery :
        (observed : ℕ)
        → observed ≢ 0
        → w.recovering ≡ 0
        → Move phase t w idle
            (record w { recovering = instance_of (process_of t) })
            (recovering_from observed)
    find_changed :
        {observed : ℕ} → w.owner ≢ observed → Move phase t w (recovering_from observed) w leaving
    find_running :
        {observed : ℕ} (alive : Bool) (current : Option ℕ)
        → w.owner ≡ observed
        → owner_has_exited alive current observed w (instance_of (process_of t)) ≡ false
        → Move phase t w (recovering_from observed) w leaving
    condemn :
        {observed : ℕ} (alive : Bool) (current : Option ℕ)
        → IsLiveness phase (owner_pid observed) alive
        → IsStamp phase (owner_pid observed) current
        → w.owner ≡ observed
        → owner_has_exited alive current observed w (instance_of (process_of t)) ≡ true
        → Move phase t w (recovering_from observed) w (condemned observed)
    recover :
        {observed : ℕ}
        → w.owner ≡ observed
        → Move phase t w (condemned observed) (record w { owner = 0 }) leaving
    spare : {observed : ℕ} → w.owner ≢ observed → Move phase t w (condemned observed) w leaving
    unlock : w.owner ≡ token_of t → Move phase t w critical (record w { owner = 0 }) idle
    fail_unlock : w.owner ≢ token_of t → Move phase t w critical w idle

  pub data Step (m : Mutex) : Mutex → Type 0 where
    move :
        (t : ℕ) {w : Words} {p : Pc}
        → is_running (m.phase (process_of t)) ≡ true
        → Move m.phase t m.words (m.pc t) w p
        → Step m (record m { words = w; pc = set_pc m.pc t p })
    exit : (process : ℕ) → Step m (record m { phase = set_phase m.phase process exited })
    start :
        (process : ℕ)
        → m.phase process ≡ unborn
        → ((q : ℕ) → is_running (m.phase q) ≡ true → pid_of q ≢ pid_of process)
        → Step m (record m { phase = set_phase m.phase process running })

  pub data Reach (m : Mutex) : Mutex → Type 0 where
    here : Reach m m
    next : {n k : Mutex} → Reach m n → Step n k → Reach m k

-- A mutex that nobody has used yet, before any process starts.
abbrev pub unused : Mutex
unused = record {
  words = record { owner = 0; owner_start_stamp = 0; owner_instance = 0; recovering = 0 };
  phase = λ p. unborn;
  pc = λ t. idle;
}
