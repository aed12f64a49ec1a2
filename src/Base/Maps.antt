-- ===== src/Base/Maps.antt =====
-- Maps with numbers for keys, as lists of which the first entry of a key counts.
use Prim.Native.Nat.{ℕ, suc, ◌≤◌}
use mathlib.Core.Path.{◌≡◌, refl, sym, ap, ◌∙◌}
use mathlib.Core.Logic.{◌≢◌, ◌⊎◌, inl, inr}
use mathlib.Core.Bool.{Bool, true, false}
use mathlib.Core.List.{List, [], ◌∷◌}
use mathlib.Core.Option.{Option, none, some}
use native.Mathlib.Omega.{arith}
use native.Mathlib.Decide.{ℕ_discrete}
use sintra.Base.Tests.{◌==◌, if◌then◌else◌, Bool-cases}
use sintra.Base.Lists.{length}

module _ {ℓ} {A : Type ℓ} where
  abbrev pub get : List (ℕ × A) → ℕ → Option A
  get [] k = none
  get ((j, a) ∷ rest) k = if j == k then some a else get rest k

  abbrev pub remove : List (ℕ × A) → ℕ → List (ℕ × A)
  remove [] k = []
  remove ((j, a) ∷ rest) k = if j == k then remove rest k else (j, a) ∷ remove rest k

  abbrev pub put : List (ℕ × A) → ℕ → A → List (ℕ × A)
  put m k a = (k, a) ∷ remove m k

  abbrev pub is_some : Option A → Bool
  is_some none = false
  is_some (some a) = true

  abbrev pub or_else : Option A → A → A
  or_else none d = d
  or_else (some a) d = a

  abbrev pub has : List (ℕ × A) → ℕ → Bool
  has m k = is_some (get m k)

  -- Without the keys whose value passes the test.
  abbrev pub remove_where : (A → Bool) → List (ℕ × A) → List (ℕ × A)
  remove_where drops [] = []
  remove_where drops ((j, a) ∷ rest) =
      let kept = remove_where drops rest in if drops a then remove kept j else (j, a) ∷ kept

module _ {ℓ} {A : Type ℓ} where
  pub get-remove_same : (m : List (ℕ × A)) (k : ℕ) → get (remove m k) k ≡ none
  get-remove_same [] k = refl
  get-remove_same ((j, a) ∷ rest) k = ground (arith, get-remove_same rest k)

  pub get-remove_ne : (m : List (ℕ × A)) (k i : ℕ) → k ≢ i → get (remove m k) i ≡ get m i
  get-remove_ne [] k i h = refl
  get-remove_ne ((j, a) ∷ rest) k i h = ground (arith, get-remove_ne rest k i h)

  pub get-put_same : (m : List (ℕ × A)) (k : ℕ) (a : A) → get (put m k a) k ≡ some a
  get-put_same m k a = ground arith

  pub get-put_ne : (m : List (ℕ × A)) (k i : ℕ) (a : A) → k ≢ i → get (put m k a) i ≡ get m i
  get-put_ne m k i a h = ground (arith, get-remove_ne m k i h)

  pub length-remove : (m : List (ℕ × A)) (k : ℕ) → length (remove m k) ≤ length m
  length-remove [] k = omega arith
  length-remove ((j, a) ∷ rest) k = ground (arith, length-remove rest k)

  pub length-put : (m : List (ℕ × A)) (k : ℕ) (a : A) → length (put m k a) ≤ suc (length m)
  length-put m k a = omega (arith, length-remove m k)

module _ {A : Type 0} where
  -- An entry of the list, also one that an earlier entry of its key hides.
  abbrev pub Entry : ℕ → A → List (ℕ × A) → Type 0
  Entry k a [] = ⊥
  Entry k a ((j, b) ∷ rest) = ((j ≡ k) × (b ≡ a)) ⊎ Entry k a rest

  pub some_inj : (a b : A) → some a ≡ some b → a ≡ b
  some_inj a b h = cc

  pub none-some : (o : Option A) (a : A) → o ≡ none → o ≡ some a → ⊥
  none-some o a h k = ground (arith, h, k)

  pub get-remove_where_kept :
      (drops : A → Bool) (m : List (ℕ × A)) (k : ℕ) (a : A)
      → get m k ≡ some a
      → drops a ≡ false
      → get (remove_where drops m) k ≡ some a
  get-remove_where_kept drops [] k a h e = absurd (ground (arith, h))
  get-remove_where_kept drops ((j, b) ∷ rest) k a h e = ground (
    arith,
    h,
    e,
    get-remove_where_kept drops rest k a,
    get-remove_ne (remove_where drops rest) j k,
  )

  pub get-remove_where_old :
      (drops : A → Bool) (m : List (ℕ × A)) (k : ℕ) (a : A)
      → get (remove_where drops m) k ≡ some a
      → (get m k ≡ some a) × (drops a ≡ false)
  get-remove_where_old drops [] k a h = absurd (ground (arith, h))
  get-remove_where_old drops ((j, b) ∷ rest) k a h = ground (
    arith,
    h,
    get-remove_where_old drops rest k a,
    get-remove_ne (remove_where drops rest) j k,
    get-remove_same (remove_where drops rest) k,
  )

  -- Where an entry of a changed map is from.
  pub get-put_cases :
      (m : List (ℕ × A)) (k i : ℕ) (a v : A)
      → get (put m k a) i ≡ some v
      → ((k ≡ i) × (a ≡ v)) ⊎ ((k ≢ i) × (get m i ≡ some v))
  get-put_cases m k i a v h = elim (ℕ_discrete k i) [
    | yes same ↦ inl (same, some_inj a v (sym (get-put_same m k a) ∙ ap (get (put m k a)) same ∙ h))
    | no other ↦ inr (other, sym (get-put_ne m k i a other) ∙ h)
  ]

  pub get-remove_cases :
      (m : List (ℕ × A)) (k i : ℕ) (v : A)
      → get (remove m k) i ≡ some v
      → (k ≢ i) × (get m i ≡ some v)
  get-remove_cases m k i v h = elim (ℕ_discrete k i) [
    | yes same ↦ absurd (none-some _ v (sym (ap (get (remove m k)) same) ∙ get-remove_same m k) h)
    | no other ↦ (other, sym (get-remove_ne m k i other) ∙ h)
  ]

  pub get-cons_cases :
      (n k : ℕ) (a v : A) (rest : List (ℕ × A))
      → get ((n, a) ∷ rest) k ≡ some v
      → (a ≡ v) ⊎ (get rest k ≡ some v)
  get-cons_cases n k a v rest h = elim (Bool-cases (n == k)) [
    | inl e ↦ inl (some_inj a v (ground (arith, e, h)))
    | inr e ↦ inr (ground (arith, e, h))
  ]
