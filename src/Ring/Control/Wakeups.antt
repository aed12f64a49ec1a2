-- ===== src/Ring/Control/Wakeups.antt =====
-- The wakeup bookkeeping of the control block: `flush_wakeups`, `clear_reader_wakeup_unlocked`
-- and the writer's `unblock_global`, which run under the ring spinlock. The outcome of a semaphore
-- call is an argument: `post i` is the error code of the post to slot `i`, and `reset i` the error
-- code of the drain with the token that it leaves.
use sintra.Base.{
  ℕ, zero, suc, Bool, true, false, ◌==◌, Option, none, some, List, [], ◌∷◌, ◌++◌, set, length,
  if◌then◌else◌,
}
use sintra.Ring.Stack.{cell, clear, remove_value}
use sintra.Ring.Control.{Control, inc}

-- `Wakeup_errors`: a slot with its error code.
abbrev pub WakeupErrors : Type 0
WakeupErrors = List (ℕ × ℕ)

-- One post. A cell that the stack counts always names a slot.
unfoldable pub post_cell :
    (ℕ → Option ℕ) → Option ℕ → WakeupErrors × List Bool → WakeupErrors × List Bool
post_cell post none (errors, tokens) = (errors, tokens)
post_cell post (some i) (errors, tokens) = elim (post i) [
  | none ↦ (errors, set tokens i true)
  | some code ↦ (errors ++ ((i, code) ∷ []), tokens)
]

-- The loop from the top of the stack down: `n` cells are left.
unfoldable pub post_all :
    (ℕ → Option ℕ) → List (Option ℕ) → ℕ → WakeupErrors × List Bool → WakeupErrors × List Bool
unfolding post_cell
post_all post arr zero acc = acc
post_all post arr (suc n) acc = post_all post arr n (post_cell post (cell arr n) acc)

-- The stack is dropped only if every post was accepted.
unfoldable pub flush_wakeups : (ℕ → Option ℕ) → Control → WakeupErrors × Control
unfolding clear
flush_wakeups post c =
    let (errors, tokens) =
      post_all post c.sleeping_stack.arr c.sleeping_stack.size ([], c.tokens) in
    if length errors == 0
    then (errors, record c { tokens = tokens; sleeping_stack = clear c.sleeping_stack })
    else (errors, record c { tokens = tokens })

-- A failed drain keeps the registration.
unfoldable pub clear_reader_wakeup : (ℕ → Option (ℕ × Bool)) → ℕ → Control → Option ℕ × Control
clear_reader_wakeup reset i c = elim (reset i) [
  | none ↦ (
    none,
    record c {
      tokens = set c.tokens i false;
      sleeping_stack = (remove_value i c.sleeping_stack).1;
    },
  )
  | some (code, token) ↦ (some code, record c { tokens = set c.tokens i token })
]

-- `Ring_W::unblock_global`
unfoldable pub unblock_global : (ℕ → Option ℕ) → Control → WakeupErrors × Control
unblock_global post c =
    flush_wakeups post (record c { global_unblock_sequence = inc c.global_unblock_sequence })
