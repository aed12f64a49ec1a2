-- ===== src/Ring/Capacity/Aligned.antt =====
-- A capacity is a whole number of octiles and of pages, and a ring's candidate sizes ascend.
use sintra.Base.{
  ℕ, zero, suc, ◌+◌, ◌*◌, ◌/◌, ◌%◌, ◌^◌, ◌≤◌, ◌<◌, ◌≡◌, ◌≢◌, refl, ap, ◌||◌, ◌==◌, ltb, leb, List,
  [], ◌∷◌, if◌then◌else◌, arith, leb→le, Bool-cases, inl, inr,
}
use mathlib.Core.List.{reverse, reverse-reverse}
use native.Mathlib.Nat.{div-eq_of_eq-mul_left, le-div_iff_mul-le, div-mul-le_self}
use sintra.Base.Gcd.{gcd, gcd-Divides, Divides}
use sintra.Ring.Capacity.{
  max_size_t, page_step, alignment, padded, aligned_capacity, halve, get_ring_configurations,
}

-- What a capacity promises.
pub record IsCapacity (page_size requested element_size r : ℕ) : Type 0 where
  pub enough : requested ≤ r
  pub least : r < requested + alignment page_size element_size
  pub octiles : Divides 8 r
  pub pages : page_size ≢ 0 → Divides page_size (r * element_size)
  pub bytes : r * element_size < 2 ^ 64

scale : (a b c : ℕ) → a ≡ b → a * c ≡ b * c
scale a b c e = ap (λ (t : ℕ). t * c) e

-- `a / g * b` is the multiple `b / g` of `a`.
quotient_swap : (a b g p q : ℕ) → a ≡ p * g → b ≡ q * g → b ≢ 0 → a / g * b ≡ q * a
quotient_swap a b g p q ha hb h =
    let small : 0 < g = ground (arith, h, hb) in
    omega (
      arith,
      scale (a / g) p b (div-eq_of_eq-mul_left {n = g} {m = a} {k = p} small ha),
      scale a (p * g) q ha,
      scale b (q * g) p hb,
    )

-- The number of elements is a multiple of the step that makes whole pages.
alignment-step :
    (page_size element_size : ℕ)
    → page_size ≢ 0
    → alignment page_size element_size ≢ 0
    → Divides (page_step page_size element_size) (alignment page_size element_size)
unfolding alignment
alignment-step page_size element_size h k =
    let step = page_step page_size element_size in
    let d = gcd-Divides step 8 in
    (
      d.1.0,
      ground (arith, h, k, quotient_swap step 8 (gcd step 8) d.0.0 d.1.0 d.0.1 d.1.1 (omega arith)),
    )

-- The step is the page divided by what the page and the element share.
page_step-pages :
    (page_size element_size : ℕ)
    → element_size ≢ 0
    → Divides page_size (page_step page_size element_size * element_size)
unfolding page_step
page_step-pages page_size element_size h =
    let d = gcd-Divides page_size element_size in
    (
      d.1.0,
      quotient_swap page_size element_size (gcd page_size element_size) d.0.0 d.1.0 d.0.1 d.1.1 h,
    )

alignment-octiles : (page_size element_size : ℕ) → Divides 8 (alignment page_size element_size)
unfolding alignment
alignment-octiles page_size element_size = (alignment page_size element_size / 8, ground arith)

padded-multiple :
    (requested step : ℕ)
    → step ≢ 0
    → (requested ≤ padded requested step)
      × (padded requested step < requested + step)
      × Divides step (padded requested step)
unfolding padded
padded-multiple requested step h = elim (Bool-cases (requested % step == 0)) [
  | inl e ↦ rw e (omega arith, ground (arith, h), (requested / step, ground (arith, e)))
  | inr e ↦
      rw e (ground (arith, h), ground (arith, h, e), (requested / step + 1, ground (arith, h, e)))
]

-- The conditions under which there is a capacity.
capacity :
    (page_size requested element_size : ℕ)
    → aligned_capacity page_size requested element_size ≢ 0
    → (aligned_capacity page_size requested element_size
        ≡ padded requested (alignment page_size element_size))
      × (alignment page_size element_size ≢ 0)
      × (element_size ≢ 0)
      × (padded requested (alignment page_size element_size) ≤ max_size_t / element_size)
unfolding aligned_capacity
capacity page_size requested element_size h =
    (ground (arith, h), ground (arith, h), ground (arith, h), ground (arith, h))

-- A capacity other than 0 is the least multiple of the alignment that has room for the request;
-- it is a whole number of octiles and of pages, and its size in bytes fits 64 bits.
pub aligned_capacity_lem :
    (page_size requested element_size : ℕ)
    → aligned_capacity page_size requested element_size ≢ 0
    → IsCapacity page_size requested element_size
        (aligned_capacity page_size requested element_size)
aligned_capacity_lem page_size requested element_size h =
    let step = alignment page_size element_size in
    let c = capacity page_size requested element_size h in
    let some_size : 0 < element_size = ground (arith, c) in
    let m = padded-multiple requested step c.1 in
    let e8 = alignment-octiles page_size element_size in
    rw c.0 record {
      enough = m.0;
      least = m.1;
      octiles = (m.2.0 * e8.0, omega (arith, m.2.1, ap (λ (t : ℕ). m.2.0 * t) e8.1));
      pages = λ k.
          let a = alignment-step page_size element_size k c.1 in
          let b = page_step-pages page_size element_size c.2 in
          (
            m.2.0 * a.0 * b.0,
            omega (
              arith,
              ap (λ (t : ℕ). t * element_size) m.2.1,
              ap (λ (t : ℕ). m.2.0 * t * element_size) a.1,
              ap (λ (t : ℕ). m.2.0 * a.0 * t) b.1,
            ),
          );
      bytes =
          omega (
            arith,
            (le-div_iff_mul-le {x = padded requested step} {y = max_size_t} some_size).0 c.3,
          );
    }

-- The candidates, the largest first: each is a positive multiple of the step, at least the
-- minimum, and at most half the one before it.
pub data Descending (step least : ℕ) : ℕ → List ℕ → Type 0 where
  none_left : {most : ℕ} → Descending step least most []
  candidate :
      {most count : ℕ} {rest : List ℕ}
      → 0 < count
      → count ≤ most
      → least ≤ count
      → Divides step count
      → Descending step least (count / 2) rest
      → Descending step least most (count ∷ rest)

round_down : (step n : ℕ) → n / step * step ≤ n
round_down step n = omega (arith, div-mul-le_self n step)

weaker :
    (step least most more : ℕ) (xs : List ℕ)
    → most ≤ more
    → Descending step least most xs
    → Descending step least more xs
weaker step least most more xs h none_left = none_left
weaker step least most more xs h (candidate pos below above div rest) =
    candidate pos (omega (arith, h, below)) above div rest

descend :
    (step least count smaller : ℕ) (rest : List ℕ)
    → 0 < count
    → Divides step count
    → smaller ≤ count / 2
    → (0 < smaller → Descending step least smaller rest)
    → Descending step least count
        (if leb least count then count ∷ (if smaller == 0 then [] else rest) else [])
descend step least count smaller rest pos d small f = elim (Bool-cases (leb least count)) [
  | inr e ↦ rw e none_left
  | inl e ↦ elim (Bool-cases (smaller == 0)) [
    | inl z ↦ rw (e, z) (candidate pos (omega arith) (leb→le least count e) d none_left)
    | inr z ↦
        rw (e, z)
          (candidate pos (omega arith) (leb→le least count e) d
            (weaker step least smaller (count / 2) rest small (f (ground (arith, z)))))
  ]
]

halve-Descending :
    (step least i count : ℕ)
    → 0 < count
    → Divides step count
    → Descending step least count (halve step least i count)
unfolding halve
halve-Descending step least zero count pos d = none_left
halve-Descending step least (suc i) count pos d =
    descend step least count (count / 2 / step * step)
      (halve step least i (count / 2 / step * step)) pos d (round_down step (count / 2))
      (λ z. halve-Descending step least i (count / 2 / step * step) z (count / 2 / step, refl))

-- The candidates for a ring between a minimal number of elements and a maximal number of bytes,
-- read from the largest, are positive multiples of the aligned capacity, none below the minimum;
-- the largest fits the bytes, and each other one is at most half the one before it.
pub get_ring_configurations_lem :
    (page_size element_size min_elements max_size max_subdivisions : ℕ)
    → Descending
        (aligned_capacity page_size 1 element_size)
        min_elements
        (max_size / element_size)
        (reverse
          (get_ring_configurations page_size element_size min_elements max_size max_subdivisions))
unfolding get_ring_configurations
get_ring_configurations_lem page_size element_size min_elements max_size max_subdivisions =
    let step = aligned_capacity page_size 1 element_size in
    let most = max_size / element_size in
    elim (Bool-cases (step == 0 || ltb most step)) [
      | inl e ↦ rw e none_left
      | inr e ↦
          rw (e, reverse-reverse (halve step min_elements max_subdivisions (most / step * step)))
            (weaker step min_elements (most / step * step) most _ (round_down step most) (
              halve-Descending step min_elements max_subdivisions (most / step * step)
                (ground (arith, e)) (most / step, refl)))
    ]
