-- ===== src/Tests/Capacity.antt =====
-- Capacities for elements of 12 bytes and pages of 4096.
use sintra.Base.{◌≡◌, ◌/◌, refl, arith, [], ◌∷◌}
use mathlib.Core.List.{reverse}
use sintra.Base.Gcd.{gcd}
use sintra.Ring.Capacity.{
  padded, alignment, page_step, aligned_capacity, halve, get_ring_configurations,
}
use sintra.Ring.Capacity.Aligned.{
  IsCapacity, Descending, aligned_capacity_lem, get_ring_configurations_lem,
}

capacity_test : aligned_capacity 4096 1000 12 ≡ 1024
unfolding aligned_capacity alignment page_step padded gcd
capacity_test = refl

aligned_capacity_example : IsCapacity 4096 1000 12 (aligned_capacity 4096 1000 12)
aligned_capacity_example = aligned_capacity_lem 4096 1000 12 (λ e. omega (arith, e, capacity_test))

configurations_test : get_ring_configurations 4096 8 100 65536 4 ≡ 1024 ∷ 2048 ∷ 4096 ∷ 8192 ∷ []
unfolding get_ring_configurations halve aligned_capacity alignment page_step padded gcd
configurations_test = refl

get_ring_configurations_example :
    Descending
      (aligned_capacity 4096 1 8)
      100
      (65536 / 8)
      (reverse (get_ring_configurations 4096 8 100 65536 4))
get_ring_configurations_example = get_ring_configurations_lem 4096 8 100 65536 4
