-- ===== src/Spinlock.antt =====
-- The shared spinlock of include/sintra/detail/ipc/spinlock.h as interleaved atomic steps of any
-- number of threads on its two words. A thread belongs to a process, whose instance id is not 0;
-- a process can exit at any point, and its threads then stop where they stand.
-- `process_instance_has_exited` is the fact that the process exited, and instance ids are not used
-- again. Left out: the waiting, the diagnostics, and the witness that aborts the waiter's own
-- process, which is an exit here.
pub mod Moves
pub mod Exclusion
use sintra.Base.{ℕ, ◌+◌, ◌%◌, ◌^◌, ◌≡◌, ◌≢◌, Bool, true, false, ◌==◌, if◌then◌else◌}

-- Where a thread stands in `lock`, `unlock` and `try_take_over_exited_owner`.
pub data Pc : Type 0 where
  outside : Pc
  marking : Pc  -- after the acquiring swap, before the generation is marked odd
  critical : Pc
  unlocking : Pc  -- after the even mark, before `owner` is cleared
  suspecting : (owner : ℕ) → Pc  -- an owner that has exited was read
  bumped : (owner : ℕ) → Pc  -- before the swap from that owner
  taking : Pc  -- after that swap, before the generation is marked

-- The words of the lock, which processes have exited, and the threads.
pub record Lock : Type 0 where
  pub owner : ℕ
  pub generation : ℕ
  pub exited : ℕ → Bool
  pub pc : ℕ → Pc

abbrev pub set_pc : (ℕ → Pc) → ℕ → Pc → ℕ → Pc
set_pc f t p u = if t == u then p else f u

abbrev pub set_exited : (ℕ → Bool) → ℕ → ℕ → Bool
set_exited f p q = if p == q then true else f q

-- `generation.fetch_add(n)`
unfoldable pub advance : ℕ → ℕ → ℕ
advance g n = (g + n) % 2 ^ 64

-- The mark of a takeover leaves the generation odd.
unfoldable pub take_over_mark : ℕ → ℕ
unfolding advance
take_over_mark g = if g % 2 == 1 then advance g 2 else advance g 1

-- What one atomic operation of a thread makes of the owner, the generation and the thread's
-- place; `self` is the instance of its process.
pub data Move (exited : ℕ → Bool) (self o g : ℕ) : Pc → ℕ → ℕ → Pc → Type 0 where
  acquire : o ≡ 0 → Move exited self o g outside self g marking
  odd_mark : Move exited self o g marking o (advance g 1) critical
  even_mark : Move exited self o g critical o (advance g 1) unlocking
  zero_store : Move exited self o g unlocking 0 g outside
  suspect : o ≢ 0 → exited o ≡ true → Move exited self o g outside o g (suspecting o)
  bump : {dead : ℕ} → Move exited self o g (suspecting dead) o (advance g 2) (bumped dead)
  take : {dead : ℕ} → o ≡ dead → Move exited self o g (bumped dead) self g taking
  lose : {dead : ℕ} → o ≢ dead → Move exited self o g (bumped dead) o g outside
  mark : Move exited self o g taking o (take_over_mark g) critical

module _ (instance_of : ℕ → ℕ) where
  pub data Step (s : Lock) : Lock → Type 0 where
    move :
        (t : ℕ) {o g : ℕ} {p : Pc}
        → s.exited (instance_of t) ≡ false
        → Move s.exited (instance_of t) s.owner s.generation (s.pc t) o g p
        → Step s (record s { owner = o; generation = g; pc = set_pc s.pc t p })
    exit : (process : ℕ) → Step s (record s { exited = set_exited s.exited process })

  pub data Reach (s : Lock) : Lock → Type 0 where
    here : Reach s s
    next : {t u : Lock} → Reach s t → Step t u → Reach s u

-- A lock that nobody has taken yet.
abbrev pub unlocked : Lock
unlocked = record { owner = 0; generation = 0; exited = λ p. false; pc = λ t. outside }
