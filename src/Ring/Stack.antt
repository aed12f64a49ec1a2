-- ===== src/Ring/Stack.antt =====
-- `Index_stack` of include/sintra/detail/ipc/rings.h: the fixed-capacity stack of reader slots in
-- shared memory, used for the free slots and for the sleeping registrations. A cell of the array
-- is an `int`; the code stores slot numbers, and -1 (here `none`) in the cells that it empties.
pub mod Bag
pub mod Free
use sintra.Base.{
  ℕ, zero, suc, ◌+◌, ◌-◌, Bool, true, false, ◌&&◌, ◌||◌, Option, none, some, List, ◌==◌, leb,
  if◌then◌else◌, get_or, set,
}

pub record IndexStack : Type 0 where
  pub arr : List (Option ℕ)
  pub size : ℕ

abbrev pub cell_eq : Option ℕ → ℕ → Bool
cell_eq none v = false
cell_eq (some a) v = a == v

abbrev pub cell : List (Option ℕ) → ℕ → Option ℕ
cell arr i = get_or arr i none

unfoldable pub empty : IndexStack → Bool
empty s = s.size == 0

unfoldable pub clear : IndexStack → IndexStack
clear s = record s { size = 0 }

module _ (capacity : ℕ) where
  -- `none` is the exception "control stack capacity exceeded".
  unfoldable pub push : ℕ → IndexStack → Option IndexStack
  push value s =
      if leb capacity s.size
      then none
      else some (record s { arr = set s.arr s.size (some value); size = s.size + 1 })

-- The second component is the stack after the call.
unfoldable pub pop_or : Option ℕ → IndexStack → Option ℕ × IndexStack
pop_or fallback s = if s.size == 0 then (fallback, s) else (
  cell s.arr (s.size - 1),
  record s { arr = set s.arr (s.size - 1) none; size = s.size - 1 },
)

-- The loop over the first `n` cells, the last first; only whether one matches is used.
unfoldable pub contains_in : List (Option ℕ) → ℕ → ℕ → Bool
contains_in arr zero value = false
contains_in arr (suc n) value = contains_in arr n value || cell_eq (cell arr n) value

unfoldable pub contains : IndexStack → ℕ → Bool
unfolding contains_in
contains s value = contains_in s.arr s.size value

-- The first of the cells below `n` that holds the value.
unfoldable pub index_in : List (Option ℕ) → ℕ → ℕ → Option ℕ
index_in arr zero value = none
index_in arr (suc n) value = elim (index_in arr n value) [
  | some i ↦ some i
  | none ↦ if cell_eq (cell arr n) value then some n else none
]

-- The loop's case: the last cell moves into the hole.
unfoldable pub remove_at : IndexStack → Option ℕ → Bool × IndexStack
remove_at s none = (false, s)
remove_at s (some i) = (
  true,
  record s {
    arr = set (set s.arr i (cell s.arr (s.size - 1))) (s.size - 1) none;
    size = s.size - 1;
  },
)

unfoldable pub remove_value : ℕ → IndexStack → Bool × IndexStack
unfolding index_in remove_at
remove_value value s =
    if leb 1 s.size && cell_eq (cell s.arr (s.size - 1)) value
    then (true, record s { arr = set s.arr (s.size - 1) none; size = s.size - 1 })
    else remove_at s (index_in s.arr s.size value)
