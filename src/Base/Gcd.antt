-- ===== src/Base/Gcd.antt =====
-- `std::gcd` by Euclid's algorithm, and divisibility as a quotient that exists.
use Prim.Native.Nat.{ℕ, zero, suc, ◌+◌, ◌*◌, ◌/◌, ◌%◌, ◌<◌}
use mathlib.Core.Path.{◌≡◌, ap}
use native.Mathlib.Omega.{arith}
use sintra.Base.Tests.{◌==◌, if◌then◌else◌, Bool-cases}
use mathlib.Core.Logic.{inl, inr}

-- Fuel `b + 1` is enough: the second number falls at every round.
unfoldable euclid : ℕ → ℕ → ℕ → ℕ
euclid zero a b = a
euclid (suc fuel) a b = let rest = euclid fuel b (a % b) in if b == 0 then a else rest

unfoldable pub gcd : ℕ → ℕ → ℕ
unfolding euclid
gcd a b = euclid (suc b) a b

abbrev pub Divides : ℕ → ℕ → Type 0
Divides d n = (q : ℕ) × (n ≡ q * d)

euclid-Divides :
    (fuel a b : ℕ) → b < fuel → Divides (euclid fuel a b) a × Divides (euclid fuel a b) b
unfolding euclid
euclid-Divides zero a b h = absurd (omega arith)
euclid-Divides (suc fuel) a b h = elim (Bool-cases (b == 0)) [
  | inl e ↦ rw e ((1, omega arith), (0, ground (arith, e)))
  | inr e ↦
      let below : a % b < fuel = ground (arith, e) in
      let rest = euclid-Divides fuel b (a % b) below in
      rw e (
        (
          a / b * rest.0.0 + rest.1.0,
          divided (euclid fuel b (a % b)) a b rest.0.0 rest.1.0 rest.0.1 rest.1.1,
        ),
        rest.0,
      )
]
  where
    divided : (g a b q r : ℕ) → b ≡ q * g → a % b ≡ r * g → a ≡ (a / b * q + r) * g
    divided g a b q r hq hr = omega (arith, ap (λ (t : ℕ). a / b * t) hq, hr)

pub gcd-Divides : (a b : ℕ) → Divides (gcd a b) a × Divides (gcd a b) b
unfolding gcd
gcd-Divides a b = euclid-Divides (suc b) a b (omega arith)
