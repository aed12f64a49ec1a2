-- ===== src/Ring/Stack/Bag.antt =====
-- The stack as a bag: how often each value stands in it after each operation.
use sintra.Base.{
  ℕ, zero, suc, ◌+◌, ◌-◌, ◌<◌, ◌≤◌, ◌≡◌, ◌⊎◌, inl, inr, refl, Bool, true, false, ◌&&◌, Option, none,
  some, List, ◌==◌, bit, set, length, length-set, get_or-set_self, get_or-set_ne, Bool-cases, arith,
  ℕ_discrete, dec_lt, ap, leb, not,
}
use native.Mathlib.Numerals.{add-one}
use sintra.Ring.Stack.{
  IndexStack, cell_eq, cell, push, pop_or, contains_in, contains, index_in, remove_at, remove_value,
}

-- How many of the first `n` cells hold the value.
unfoldable pub occurrences_in : List (Option ℕ) → ℕ → ℕ → ℕ
occurrences_in arr zero v = 0
occurrences_in arr (suc n) v = occurrences_in arr n v + bit (cell_eq (cell arr n) v)

unfoldable pub occurrences : IndexStack → ℕ → ℕ
unfolding occurrences_in
occurrences s v = occurrences_in s.arr s.size v

occurrences_in-suc :
    (arr : List (Option ℕ)) (n v : ℕ)
    → occurrences_in arr (n + 1) v ≡ occurrences_in arr n v + bit (cell_eq (cell arr n) v)
unfolding occurrences_in
occurrences_in-suc arr n v = rw add-one refl

-- The array has room for the capacity and the size is within it.
pub record Fits (capacity : ℕ) (s : IndexStack) : Type 0 where
  pub storage : length s.arr ≡ capacity
  pub within : s.size ≤ capacity

-- A write past the counted cells is not counted.
occurrences_in-set_of_le :
    (arr : List (Option ℕ)) (n i v : ℕ) (x : Option ℕ)
    → n ≤ i
    → occurrences_in (set arr i x) n v ≡ occurrences_in arr n v
unfolding occurrences_in
occurrences_in-set_of_le arr zero i v x h = refl
occurrences_in-set_of_le arr (suc n) i v x h =
    ground (arith, occurrences_in-set_of_le arr n i v x, get_or-set_ne arr i n x none)

occurrences_in-set :
    (arr : List (Option ℕ)) (n i v : ℕ) (x : Option ℕ)
    → i < n
    → n ≤ length arr
    → occurrences_in (set arr i x) n v + bit (cell_eq (cell arr i) v)
      ≡ occurrences_in arr n v + bit (cell_eq x v)
unfolding occurrences_in
occurrences_in-set arr zero i v x h k = absurd (omega arith)
occurrences_in-set arr (suc n) i v x h k = elim (dec_lt i n) [
  | yes below ↦ ground (arith, occurrences_in-set arr n i v x below, get_or-set_ne arr i n x none)
  | no last ↦ ground (arith, occurrences_in-set_of_le arr n i v x, get_or-set_self arr i x none)
]

pub contains_in_iff :
    (arr : List (Option ℕ)) (n v : ℕ)
    → ((contains_in arr n v ≡ true) × (0 < occurrences_in arr n v))
      ⊎ ((contains_in arr n v ≡ false) × (occurrences_in arr n v ≡ 0))
unfolding contains_in occurrences_in
contains_in_iff arr zero v = inr (refl, refl)
contains_in_iff arr (suc n) v = ground (arith, contains_in_iff arr n v)

-- The search finds a cell below `n` that holds the value, or there is none.
index_in_lem :
    (arr : List (Option ℕ)) (n v : ℕ)
    → ((i : ℕ) × (index_in arr n v ≡ some i) × (i < n) × (cell_eq (cell arr i) v ≡ true))
      ⊎ ((index_in arr n v ≡ none) × (occurrences_in arr n v ≡ 0))
unfolding index_in occurrences_in
index_in_lem arr zero v = inr (refl, refl)
index_in_lem arr (suc n) v = elim (index_in_lem arr n v) [
  | inl (i, e, h, m) ↦ inl (i, ground (arith, e), ground arith, m)
  | inr (e, z) ↦ elim (Bool-cases (cell_eq (cell arr n) v)) [
    | inl m ↦ inl (n, ground (arith, e, m), ground arith, m)
    | inr m ↦ inr (ground (arith, e, m), ground (arith, z, m))
  ]
]

-- Below the capacity a push succeeds, adds one occurrence of its value, and keeps the others.
pub push_lem :
    (capacity v : ℕ) {s : IndexStack}
    → Fits capacity s
    → s.size < capacity
    → (t : IndexStack) × (push capacity v s ≡ some t)
      × Fits capacity t
      × (t.size ≡ s.size + 1)
      × ((u : ℕ) → occurrences t u ≡ occurrences s u + bit (v == u))
unfolding push occurrences
push_lem capacity v {s} f h = (
  record { arr = set s.arr s.size (some v); size = s.size + 1 },
  ground arith,
  ground (arith, length-set s.arr s.size (some v)),
  refl,
  λ u. ground (
    arith,
    occurrences_in-set_of_le s.arr s.size s.size u (some v),
    get_or-set_self s.arr s.size (some v) none,
    occurrences_in-suc (set s.arr s.size (some v)) s.size u,
  ),
)

-- What a stack is left with, and whether the operation found its value.
pub record Took (s : IndexStack) (capacity v : ℕ) (found : Bool) (t : IndexStack) : Type 0 where
  pub fits : Fits capacity t
  pub shrunk : t.size + bit found ≡ s.size
  pub counted : (u : ℕ) → occurrences t u + bit (found && v == u) ≡ occurrences s u

-- Two values that match one cell are one.
cell_eq_iff : (c : Option ℕ) (v u : ℕ) → cell_eq c v ≡ true → cell_eq c u ≡ (v == u)
cell_eq_iff none v u h = cc
cell_eq_iff (some a) v u h = ground arith

-- After the last cell was copied to cell `i`, the last cell holds what it held.
moved_last :
    (arr : List (Option ℕ)) (i n : ℕ) (x : Option ℕ)
    → n < length arr
    → cell arr n ≡ x
    → cell (set arr i x) n ≡ x
moved_last arr i n x h e = elim (ℕ_discrete i n) [
  | yes p ↦ ground (arith, get_or-set_self arr i x none)
  | no p ↦ ground (arith, get_or-set_ne arr i n x none p)
]

-- Emptying the last cell.
tail_drop :
    (s : IndexStack) (capacity v : ℕ)
    → Fits capacity s
    → 0 < s.size
    → cell_eq (cell s.arr (s.size - 1)) v ≡ true
    → Took s capacity v true (record s { arr = set s.arr (s.size - 1) none; size = s.size - 1 })
unfolding occurrences
tail_drop s capacity v f h m = record {
  fits = ground (arith, length-set s.arr (s.size - 1) none);
  shrunk = omega arith;
  counted = λ u. ground (
    arith,
    occurrences_in-set_of_le s.arr (s.size - 1) (s.size - 1) u none,
    occurrences_in-suc s.arr (s.size - 1) u,
    cell_eq_iff (cell s.arr (s.size - 1)) v u m,
  );
}

-- Moving the last cell into cell `i`, and emptying it.
swap_drop :
    (s : IndexStack) (capacity v i : ℕ)
    → Fits capacity s
    → i < s.size
    → cell_eq (cell s.arr i) v ≡ true
    → Took s capacity v true (remove_at s (some i)).1
unfolding occurrences remove_at
swap_drop s capacity v i f h m =
    let last = cell s.arr (s.size - 1) in
    record {
      fits =
          ground (arith, length-set s.arr i last, length-set (set s.arr i last) (s.size - 1) none);
      shrunk = omega arith;
      counted = λ u. ground (
        arith,
        length-set s.arr i last,
        occurrences_in-set_of_le (set s.arr i last) (s.size - 1) (s.size - 1) u none,
        occurrences_in-suc (set s.arr i last) (s.size - 1) u,
        occurrences_in-set s.arr s.size i u last,
        moved_last s.arr i (s.size - 1) last (omega (arith, f.within, f.storage)) refl,
        cell_eq_iff (cell s.arr i) v u m,
      );
    }

-- A cell below the size that holds the value.
contains_in_of_cell :
    (arr : List (Option ℕ)) (n v i : ℕ)
    → i < n
    → cell_eq (cell arr i) v ≡ true
    → contains_in arr n v ≡ true
unfolding contains_in
contains_in_of_cell arr zero v i h m = absurd (omega arith)
contains_in_of_cell arr (suc n) v i h m = elim (dec_lt i n) [
  | yes below ↦ rw (contains_in_of_cell arr n v i below m) refl
  | no last ↦ let e : i ≡ n = omega arith in ground (arith, ap (cell arr) e)
]

-- `remove_value` takes away one occurrence of its value exactly when the stack contains it, and
-- otherwise changes nothing; no other value is touched.
pub remove_value_lem :
    (capacity v : ℕ) {s : IndexStack}
    → Fits capacity s
    → ((remove_value v s).0 ≡ contains s v)
      × Took s capacity v (remove_value v s).0 (remove_value v s).1
unfolding remove_value contains
remove_value_lem capacity v {s} f =
    elim (Bool-cases (leb 1 s.size && cell_eq (cell s.arr (s.size - 1)) v)) [
      | inl tail ↦ rw tail (
        ground
            (arith, contains_in_of_cell s.arr s.size v (s.size - 1) (ground arith) (ground arith)),
        tail_drop s capacity v f (ground arith) (ground arith),
      )
      | inr other ↦ rw other (elim (index_in_lem s.arr s.size v) [
        | inl (i, e, h, m) ↦ rw e (
          ground (arith, contains_in_of_cell s.arr s.size v i h m),
          swap_drop s capacity v i f h m,
        )
        | inr (e, z) ↦ rw e (
          ground (arith, contains_in_iff s.arr s.size v),
          record { fits = f; shrunk = omega arith; counted = λ u. ground arith },
        )
      ])
    ]

-- A pop takes the last value away; on an empty stack it returns the fallback and changes nothing.
pub pop_or_lem :
    (capacity v : ℕ) (fallback : Option ℕ) {s : IndexStack}
    → Fits capacity s
    → ((s.size ≡ 0) × (pop_or fallback s ≡ (fallback, s)))
      ⊎ ((pop_or fallback s).0 ≡ some v → Took s capacity v true (pop_or fallback s).1)
unfolding pop_or
pop_or_lem capacity v fallback {s} f = elim (Bool-cases (s.size == 0)) [
  | inl e ↦ inl (ground (arith, e), rw e)
  | inr e ↦ inr (rw e (λ q. tail_drop s capacity v f (ground arith) (rw q (ground arith))))
]

-- What was pushed last is popped first, and the bag is as before.
pub pop-push :
    (capacity v : ℕ) (fallback : Option ℕ) {s t : IndexStack}
    → Fits capacity s
    → push capacity v s ≡ some t
    → ((pop_or fallback t).0 ≡ some v)
      × ((u : ℕ) → occurrences (pop_or fallback t).1 u ≡ occurrences s u)
unfolding push pop_or occurrences
pop-push capacity v fallback {s} {t} f e = (
  ground (arith, get_or-set_self s.arr s.size (some v) none),
  λ u. ground (
    arith,
    occurrences_in-set_of_le s.arr s.size s.size u (some v),
    occurrences_in-set_of_le (set s.arr s.size (some v)) s.size s.size u none,
  ),
)

-- The search through the stack answers by the bag.
pub contains-occurrences : (s : IndexStack) (v : ℕ) → contains s v ≡ not (occurrences s v == 0)
unfolding contains occurrences
contains-occurrences s v = ground (arith, contains_in_iff s.arr s.size v)
