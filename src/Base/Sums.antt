-- ===== src/Base/Sums.antt =====
-- Sums of a function over the first numbers.
use Prim.Native.Nat.{ℕ, zero, suc, ◌+◌, ◌≤◌, ◌<◌}
use mathlib.Core.Path.{◌≡◌, refl}
use mathlib.Core.Logic.{◌≢◌}
use native.Mathlib.Decide.{dec_lt, ℕ_discrete}
use native.Mathlib.Omega.{arith}

unfoldable pub sum_below : ℕ → (ℕ → ℕ) → ℕ
sum_below zero f = 0
sum_below (suc n) f = sum_below n f + f n

pub sum_below-congr :
    (n : ℕ) (f g : ℕ → ℕ) → ((i : ℕ) → i < n → f i ≡ g i) → sum_below n f ≡ sum_below n g
unfolding sum_below
sum_below-congr zero f g h = refl
sum_below-congr (suc n) f g h =
    omega (arith, h n (omega arith), sum_below-congr n f g (λ i p. h i (omega arith)))

-- Two functions that differ at `i` only.
pub sum_below-change :
    (n i : ℕ) (f g : ℕ → ℕ)
    → i < n
    → ((j : ℕ) → j ≢ i → f j ≡ g j)
    → sum_below n f + g i ≡ sum_below n g + f i
unfolding sum_below
sum_below-change zero i f g h k = absurd (omega arith)
sum_below-change (suc n) i f g h k = elim (ℕ_discrete i n) [
  | yes e ↦ ground (arith, sum_below-congr n f g (λ j p. k j (omega arith)))
  | no e ↦ ground (arith, sum_below-change n i f g (omega arith) k, k n)
]

pub sum_below-le : (n : ℕ) (f : ℕ → ℕ) → ((i : ℕ) → i < n → f i ≤ 1) → sum_below n f ≤ n
unfolding sum_below
sum_below-le zero f h = omega arith
sum_below-le (suc n) f h =
    omega (arith, h n (omega arith), sum_below-le n f (λ i p. h i (omega arith)))

-- Terms of at most 1, one of them 0.
pub sum_below-lt :
    (n v : ℕ) (f : ℕ → ℕ) → v < n → f v ≡ 0 → ((i : ℕ) → i < n → f i ≤ 1) → sum_below n f < n
unfolding sum_below
sum_below-lt zero v f hv z h = absurd (omega arith)
sum_below-lt (suc n) v f hv z h = elim (dec_lt v n) [
  | yes below ↦
      omega (arith, h n (omega arith), sum_below-lt n v f below z (λ i p. h i (omega arith)))
  | no last ↦ ground (arith, sum_below-le n f (λ i p. h i (omega arith)))
]

pub le-sum_below : (n i : ℕ) (f : ℕ → ℕ) → i < n → f i ≤ sum_below n f
unfolding sum_below
le-sum_below zero i f h = absurd (omega arith)
le-sum_below (suc n) i f h = elim (dec_lt i n) [
  | yes below ↦ omega (arith, le-sum_below n i f below)
  | no last ↦ ground arith
]

-- All terms but one are at most 2.
pub sum_below-le_two : (n : ℕ) (f : ℕ → ℕ) → ((i : ℕ) → f i ≤ 2) → sum_below n f ≤ n + n
unfolding sum_below
sum_below-le_two zero f h = omega arith
sum_below-le_two (suc n) f h = omega (arith, h n, sum_below-le_two n f h)

pub sum_below-le_rest :
    (n i : ℕ) (f : ℕ → ℕ) → i < n → ((j : ℕ) → f j ≤ 2) → sum_below n f + 2 ≤ n + n + f i
unfolding sum_below
sum_below-le_rest zero i f h k = absurd (omega arith)
sum_below-le_rest (suc n) i f h k = elim (dec_lt i n) [
  | yes below ↦ omega (arith, k n, sum_below-le_rest n i f below k)
  | no last ↦ ground (arith, sum_below-le_two n f k)
]
