-- ===== src/Ring/Capacity.antt =====
-- The sizes that a ring can have: `aligned_capacity` and `get_ring_configurations` of
-- include/sintra/detail/ipc/rings.h. The page size, which the operating system gives, and the size
-- of an element are arguments; `size_t` has 64 bits.
pub mod Aligned
use sintra.Base.{
  ℕ, zero, suc, ◌+◌, ◌-◌, ◌*◌, ◌/◌, ◌%◌, ◌^◌, Bool, ◌||◌, ◌==◌, ltb, leb, List, [], ◌∷◌, ◌++◌,
  if◌then◌else◌,
}
use mathlib.Core.List.{reverse}
use sintra.Base.Gcd.{gcd}

-- `std::numeric_limits<size_t>::max()`
abbrev pub max_size_t : ℕ
max_size_t = 2 ^ 64 - 1

-- `page_size / std::gcd(page_size, element_size)`: a page-aligned number of elements
unfoldable pub page_step : ℕ → ℕ → ℕ
page_step page_size element_size = page_size / gcd page_size element_size

-- The number of elements that a capacity is a multiple of; 0 where it does not fit.
unfoldable pub alignment : ℕ → ℕ → ℕ
unfolding page_step
alignment page_size element_size =
    if page_size == 0
    then 8
    else let step_div_gcd =
        page_step page_size element_size / gcd (page_step page_size element_size) 8 in
      if ltb (max_size_t / 8) step_div_gcd then 0 else step_div_gcd * 8

-- `requested += padding`
unfoldable pub padded : ℕ → ℕ → ℕ
padded requested step =
    if requested % step == 0 then requested else requested + (step - requested % step)

unfoldable pub aligned_capacity : ℕ → ℕ → ℕ → ℕ
aligned_capacity page_size requested element_size =
    let step = alignment page_size element_size in
    if requested == 0 || element_size == 0 || step == 0
    then 0
    else if ltb max_size_t (padded requested step)
    then 0
    else if ltb (max_size_t / element_size) (padded requested step)
    then 0
    else padded requested step

-- The loop over the candidates, the largest first.
unfoldable pub halve : ℕ → ℕ → ℕ → ℕ → List ℕ
halve step min_elements zero count = []
halve step min_elements (suc i) count =
    let smaller = count / 2 / step * step in
    let rest = halve step min_elements i smaller in
    if leb min_elements count then count ∷ (if smaller == 0 then [] else rest) else []

unfoldable pub get_ring_configurations : ℕ → ℕ → ℕ → ℕ → ℕ → List ℕ
unfolding halve
get_ring_configurations page_size element_size min_elements max_size max_subdivisions =
    let step = aligned_capacity page_size 1 element_size in
    let max_elements = max_size / element_size in
    if step == 0 || ltb max_elements step
    then []
    else reverse (halve step min_elements max_subdivisions (max_elements / step * step))
