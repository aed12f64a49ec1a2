-- ===== src/Coordinator/Invitations/Tokens.antt =====
-- The comparison of tokens.
use sintra.Base.{
  ℕ, ◌≡◌, ◌↔◌, refl, ap₂, true, false, ◌==◌, List, [], ◌∷◌, length, arith, ==_iff, ==_refl,
  Bool-cases, inl, inr,
}
use sintra.Coordinator.Invitations.{differs, external_attach_tokens_equal}

differs-true : (xs ys : List ℕ) → differs true xs ys ≡ true
differs-true [] ys = refl
differs-true (x ∷ xs) [] = refl
differs-true (x ∷ xs) (y ∷ ys) = differs-true xs ys

differs-equal : (xs ys : List ℕ) → length xs ≡ length ys → differs false xs ys ≡ false → xs ≡ ys
differs-equal [] [] h e = refl
differs-equal [] (y ∷ ys) h e = absurd (omega (arith, h))
differs-equal (x ∷ xs) [] h e = absurd (omega (arith, h))
differs-equal (x ∷ xs) (y ∷ ys) h e = elim (Bool-cases (x == y)) [
  | inl k ↦
      ap₂ (λ a l. a ∷ l) ((==_iff x y).0 k)
        (differs-equal xs ys (omega (arith, h)) (ground (arith, e, k)))
  | inr k ↦ absurd (ground (arith, e, k, differs-true xs ys))
]

differs-same : (xs : List ℕ) → differs false xs xs ≡ false
differs-same [] = refl
differs-same (x ∷ xs) = rw (==_refl x) (differs-same xs)

-- The comparison of tokens, which looks at every byte, holds exactly for equal tokens.
pub external_attach_tokens_equal_iff :
    (lhs rhs : List ℕ) → (external_attach_tokens_equal lhs rhs ≡ true) ↔ (lhs ≡ rhs)
unfolding external_attach_tokens_equal
external_attach_tokens_equal_iff lhs rhs = (
  λ h. differs-equal lhs rhs (ground (arith, h)) (ground (arith, h)),
  λ h. rw (← h) (ground (arith, differs-same lhs, ==_refl (length lhs))),
)
