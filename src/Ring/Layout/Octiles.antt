-- ===== src/Ring/Layout/Octiles.antt =====
-- The octile of a sequence number is its quotient by the octile's size, counted modulo eight.
use sintra.Base.{
  ℕ, suc, ◌+◌, ◌-◌, ◌*◌, ◌/◌, ◌%◌, ◌^◌, ◌<◌, ◌≤◌, ◌≡◌, ◌≢◌, arith, Bool-cases, inl, inr, ap, ◌∙◌,
  leb, lt→ltb, sym, refl, dec_lt,
}
use native.Mathlib.Nat.{mod-eq_of_lt, mod_self}
use sintra.Base.Int.{to_i64, sub_nat, pos, negsuc}
use sintra.Ring.Access.{octile_of_index}
use sintra.Ring.Layout.{mod_pos_i64, trailing_octile_of}

-- A quotient from a quotient and a remainder.
pub div-of_parts : (a q r : ℕ) → r < q → (a * q + r) / q ≡ a
div-of_parts a q r h = grind arith

-- A quotient by a quotient.
pub octile-cancel : (y q : ℕ) → 0 < q → 8 * y / (8 * q) ≡ y / q
octile-cancel y q h = grind arith

pub lap-octile : (q x : ℕ) → 0 < q → x % (8 * q) / q ≡ x / q % 8
lap-octile q x h =
    let y : ℕ = x % (8 * q) in
    let m : ℕ = x / (8 * q) in
    let parts : x ≡ (y / q + 8 * m) * q + y % q = grind arith in
    let small : y / q < 8 = grind arith in
    let whole : x / q ≡ y / q + 8 * m =
      ap (λ z. z / q) parts ∙ div-of_parts (y / q + 8 * m) q (y % q) (grind arith) in
    omega (arith, whole, small)

-- The octiles of a ring whose octiles have `size` elements.
pub octile-mod :
    (size x : ℕ)
    → 0 < size
    → size < 2 ^ 58
    → octile_of_index (x % (8 * size)) (8 * size) ≡ x / size % 8
unfolding octile_of_index
octile-mod size x h k =
    let y : ℕ = x % (8 * size) in
    let small : 8 * y < 2 ^ 64 = grind arith in
    let fits : 8 * y % 2 ^ 64 ≡ 8 * y = omega arith in
    let cut : octile_of_index y (8 * size) ≡ y / size % 0x100 =
      rw fits (ap (λ z. z % 0x100) (octile-cancel y size h)) in
    omega (arith, cut, lap-octile size x h)

mod_pos-pos : (n num : ℕ) → mod_pos_i64 (pos n) num ≡ n % num
unfolding mod_pos_i64
mod_pos-pos n num = refl

lap_mod : (num a : ℕ) → 0 < num → (a + num) % num ≡ a % num
lap_mod num a h = grind arith

-- A window that reaches back before the first element.
mod_neg :
    (num d : ℕ) → 0 < num → 0 < d → d ≤ num → mod_pos_i64 (negsuc (d - 1)) num ≡ (num - d) % num
unfolding mod_pos_i64
mod_neg num d h hd k =
    let back : suc (d - 1) ≡ d = omega arith in
    rw back (elim (dec_lt d num) [
      | yes lt ↦
          let r : d % num ≡ d = mod-eq_of_lt lt in
          let l : (num - d) % num ≡ num - d = mod-eq_of_lt (omega arith) in ground (arith, r, l)
      | no ge ↦
          let e : d ≡ num = omega arith in
          let r : d % num ≡ 0 = rw e (mod_self num) in
          let z : num - d ≡ 0 = omega arith in ground (arith, r, z)
    ])

-- The index of the start of the trailing window.
trailing-index :
    (num trailing sequence : ℕ)
    → 0 < num
    → trailing ≤ num
    → sequence < 2 ^ 63
    → mod_pos_i64 (sub_nat (to_i64 sequence) trailing) num ≡ (sequence + num - trailing) % num
trailing-index num trailing sequence h ht hs =
    rw (lt→ltb sequence (2 ^ 63) hs) (elim (Bool-cases (leb trailing sequence)) [
      | inl e ↦
          let shift : sequence + num - trailing ≡ (sequence - trailing) + num = ground (arith, e) in
          rw (e, shift)
            (mod_pos-pos (sequence - trailing) num ∙ sym (lap_mod num (sequence - trailing) h))
      | inr e ↦
          let shift : sequence + num - trailing ≡ num - (trailing - sequence) = ground (arith, e) in
          rw (e, shift) (mod_neg num (trailing - sequence) h (ground (arith, e)) (omega arith))
    ])

-- The octile that a reader guards, for a trailing window within one lap.
pub trailing_octile_lem :
    (size trailing sequence : ℕ)
    → 0 < size
    → size < 2 ^ 58
    → trailing ≤ 8 * size
    → sequence < 2 ^ 63
    → trailing_octile_of (8 * size) trailing sequence ≡ (sequence + 8 * size - trailing) / size % 8
unfolding trailing_octile_of
trailing_octile_lem size trailing sequence h k ht hs =
    let at : mod_pos_i64 (sub_nat (to_i64 sequence) trailing) (8 * size)
        ≡ (sequence + 8 * size - trailing) % (8 * size) =
      trailing-index (8 * size) trailing sequence (omega arith) ht hs in
    ap (λ z. octile_of_index z (8 * size)) at ∙ octile-mod size (sequence + 8 * size - trailing) h k

-- A step of at most one octile enters at most the next one.
pub next_octile : (size p n : ℕ) → 0 < size → n ≤ size → (p + n) / size ≤ p / size + 1
next_octile size p n h k = grind arith

-- Two positions less than a lap apart have different indices.
pub apart_mod : (num s q : ℕ) → s < q → q < s + num → q % num ≢ s % num
apart_mod num s q h k = grind arith
