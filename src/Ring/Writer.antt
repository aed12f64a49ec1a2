-- ===== src/Ring/Writer.antt =====
-- The writer of include/sintra/detail/ipc/rings.h: `prepare_write`, the octile check of
-- `advance_writer_octile_if_needed`, `write`, `done_writing`, `get_readable_range` and the
-- constructor's choice of a head. The ring's storage is a function from an index below
-- `num_elements` to the element there; the second mapping of the same file makes a position past
-- the end wrap round. The wait for an octile is a recursion over what the writer observes of the
-- shared control block, one observation for each round of its loop.
pub mod Reserve
pub mod Frame
use sintra.Base.{
  ℕ, suc, ◌+◌, ◌-◌, ◌*◌, ◌/◌, ◌%◌, ◌^◌, Bool, true, false, ◌&&◌, ◌||◌, not, ◌==◌, ltb, Option, none,
  some, List, [], ◌∷◌, if◌then◌else◌, length,
}
use sintra.Ring.Access.{octile_of_index, count}
use sintra.Ring.Layout.{mod_u64}

-- The fields of `Ring_W` that a write uses; `num` is `m_num_elements`.
pub record Writer : Type 0 where
  pub num : ℕ
  pub thread : ℕ
  pub octile : ℕ
  pub pending : ℕ

-- What a round of the wait for an octile sees: the word `read_access`, or an exception, when a
-- blocking reader's process cannot be identified.
pub data Observation : Type 0 where
  access : ℕ → Observation
  unidentified : Observation

pub data Outcome {ℓ} (A : Type ℓ) : Type ℓ where
  done : A → Outcome A
  invalid_argument : Outcome A
  system_error : Outcome A
  waiting : Outcome A

-- The loop `while (c.read_access & range_mask)`. When the observations end, it still waits.
unfoldable pub await_octile : ℕ → List Observation → Outcome Bool
await_octile new_octile [] = waiting
await_octile new_octile (unidentified ∷ rest) = system_error
await_octile new_octile (access word ∷ rest) = elim (count word new_octile == 0) [
  | true ↦ done true
  | false ↦ await_octile new_octile rest
]

unfoldable pub advance_octile : ℕ → List Observation → Writer → Outcome Writer
unfolding await_octile
advance_octile head observed w =
    let new_octile = octile_of_index head w.num in
    if w.octile == new_octile then done w else elim (await_octile new_octile observed) [
      | done _ ↦ done (record w { octile = new_octile })
      | invalid_argument ↦ invalid_argument
      | system_error ↦ system_error
      | waiting ↦ waiting
    ]

-- `m_pending_new_sequence += num_elements_to_write`
abbrev pub reserve : Writer → ℕ → Writer
reserve w n = record w { pending = (w.pending + n) % 2 ^ 64 }

-- The writing thread `me` reserves `n` elements. A refusal leaves the writer as it was, since every
-- exception restores the sequence, the octile and the owning thread. `aligned` tells whether the
-- address of an index suits the payload.
unfoldable pub prepare_write : (ℕ → Bool) → ℕ → ℕ → List Observation → Writer → Outcome (ℕ × Writer)
prepare_write aligned me n observed w =
    if ltb (w.num / 8) n
    then invalid_argument
    else if not (w.thread == 0 || w.thread == me)
    then waiting
    else if not (aligned (mod_u64 w.pending w.num))
    then invalid_argument
    else elim (advance_octile (mod_u64 (reserve w n).pending w.num) observed
        (record (reserve w n) { thread = me })) [
          | done w' ↦ done (mod_u64 w.pending w.num, w')
          | invalid_argument ↦ invalid_argument
          | system_error ↦ system_error
          | waiting ↦ waiting
        ]

-- The writer and the storage that it writes, with the published head.
pub record Ring {ℓ} (A : Type ℓ) : Type ℓ where
  pub writer : Writer
  pub cells : ℕ → A
  pub leading : ℕ

module _ {ℓ} {A : Type ℓ} where
  -- One element stored at a position of the linear mapping.
  abbrev pub store : ℕ → (ℕ → A) → ℕ → A → ℕ → A
  store num cells i x j = if i % num == j then x else cells j

  -- `memcpy` to consecutive positions.
  unfoldable pub store_all : ℕ → (ℕ → A) → ℕ → List A → ℕ → A
  store_all num cells i [] = cells
  store_all num cells i (x ∷ xs) = store_all num (store num cells i x) (suc i) xs

  -- `write(src_buffer, num_src_elements)`, to be published by `done_writing`.
  unfoldable pub write : (ℕ → Bool) → ℕ → List A → List Observation → Ring A → Outcome (Ring A)
  write aligned me src observed r = elim (prepare_write aligned me (length src) observed r.writer) [
    | done (i, w) ↦ done (record r { writer = w; cells = store_all w.num r.cells i src })
    | invalid_argument ↦ invalid_argument
    | system_error ↦ system_error
    | waiting ↦ waiting
  ]

  unfoldable pub done_writing : Ring A → Ring A
  done_writing r = record r {
    writer = record (r.writer) { thread = 0 };
    leading = r.writer.pending;
  }

  -- The constructor resumes at the committed head.
  unfoldable pub resume : ℕ → Ring A → Ring A
  resume num r = record r {
    writer = record {
      num = num;
      thread = 0;
      octile = octile_of_index (mod_u64 r.leading num) num;
      pending = r.leading;
    };
  }

  -- `get_readable_range`: the first index and the number of elements.
  unfoldable pub get_readable_range : Ring A → ℕ × ℕ
  get_readable_range r =
      let most = 3 * r.writer.num / 4 in
      let first : ℕ = if ltb most r.leading then r.leading - most else 0 in
      (mod_u64 first r.writer.num, r.leading - first)

-- What a writing thread does with the ring.
pub data Action {ℓ} (A : Type ℓ) : Type ℓ where
  put : List A → List Observation → Action A
  publish : Action A

module _ {ℓ} {A : Type ℓ} where
  -- A sequence of writes and publications; a write that fails or still waits ends it with `none`.
  unfoldable pub run : (ℕ → Bool) → ℕ → List (Action A) → Ring A → Option (Ring A)
  run aligned me [] r = some r
  run aligned me (publish ∷ rest) r = run aligned me rest (done_writing r)
  run aligned me (put src observed ∷ rest) r = elim (write aligned me src observed r) [
    | done r' ↦ run aligned me rest r'
    | invalid_argument ↦ none
    | system_error ↦ none
    | waiting ↦ none
  ]
