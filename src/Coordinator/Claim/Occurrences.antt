-- ===== src/Coordinator/Claim/Occurrences.antt =====
-- The occurrences of the invitations of a process, and its counter.
use sintra.Base.{
  ℕ, ◌+◌, ◌-◌, ◌^◌, ◌≡◌, ◌≤◌, refl, ap, sym, ◌∙◌, Bool, true, false, not, ◌&&◌, ◌||◌, ◌==◌, ltb,
  leb, Option, none, some, List, [], ◌∷◌, length, arith, ℕ_discrete, Bool-cases, inl, inr,
  if◌then◌else◌,
}
use sintra.Base.Maps.{get, put, remove, or_else, some_inj, get-remove_ne, has, none-some}
use sintra.Coordinator.{Coordinator}
use sintra.Coordinator.Invitations.{
  Invitation, Invitations, reject, reject_if, transition_all, erase_removed, clean_up, cancel,
  cancel_with, reserve,
}

-- Every invitation of the process is above `lo` and not above `hi`.
abbrev pub within : ℕ → ℕ → ℕ → List (ℕ × Invitation) → Bool
within p lo hi [] = true
within p lo hi ((q, i) ∷ rest) =
    (not (q == p) || (ltb lo i.occurrence && leb i.occurrence hi)) && within p lo hi rest

pub within-weaken :
    (p lo hi hi' : ℕ) (l : List (ℕ × Invitation))
    → hi ≤ hi'
    → within p lo hi l ≡ true
    → within p lo hi' l ≡ true
within-weaken p lo hi hi' [] b h = refl
within-weaken p lo hi hi' ((q, i) ∷ rest) b h = ground (arith, b, h, within-weaken p lo hi hi' rest)

pub within-remove :
    (p lo hi k : ℕ) (l : List (ℕ × Invitation))
    → within p lo hi l ≡ true
    → within p lo hi (remove l k) ≡ true
within-remove p lo hi k [] h = refl
within-remove p lo hi k ((q, i) ∷ rest) h = ground (arith, h, within-remove p lo hi k rest)

pub within-remove_same :
    (p lo hi : ℕ) (l : List (ℕ × Invitation)) → within p lo hi (remove l p) ≡ true
within-remove_same p lo hi [] = refl
within-remove_same p lo hi ((q, i) ∷ rest) = ground (arith, within-remove_same p lo hi rest)

pub within-get :
    (p lo hi : ℕ) (l : List (ℕ × Invitation)) (i : Invitation)
    → within p lo hi l ≡ true
    → get l p ≡ some i
    → (ltb lo i.occurrence && leb i.occurrence hi) ≡ true
within-get p lo hi [] i h e = absurd (none-some none i refl e)
within-get p lo hi ((q, j) ∷ rest) i h e = elim (Bool-cases (q == p)) [
  | inl k ↦ let same = some_inj j i (ground (arith, e, k)) in rw (← same) (ground (arith, h, k))
  | inr k ↦ within-get p lo hi rest i (ground (arith, h)) (ground (arith, e, k))
]

within-transition_all :
    (p lo hi now : ℕ) (l : List (ℕ × Invitation))
    → within p lo hi l ≡ true
    → within p lo hi (transition_all now l) ≡ true
unfolding transition_all
within-transition_all p lo hi now [] h = refl
within-transition_all p lo hi now ((q, i) ∷ rest) h =
    ground (arith, h, within-transition_all p lo hi now rest)

within-erase_removed :
    (p lo hi : ℕ) (readers : List ℕ) (l : List (ℕ × Invitation))
    → within p lo hi l ≡ true
    → within p lo hi (erase_removed readers l) ≡ true
unfolding erase_removed
within-erase_removed p lo hi readers [] h = refl
within-erase_removed p lo hi readers ((q, i) ∷ rest) h =
    ground (arith, h, within-erase_removed p lo hi readers rest)

-- An invitation is put back with another state.
within-put :
    (p lo hi k : ℕ) (i j : Invitation) (l : List (ℕ × Invitation))
    → within p lo hi l ≡ true
    → get l k ≡ some i
    → i.occurrence ≡ j.occurrence
    → within p lo hi (put l k j) ≡ true
within-put p lo hi k i j l h e same = elim (ℕ_discrete k p) [
  | yes this ↦ ground (
    arith,
    same,
    within-get p lo hi l i h (ap (get l) (sym this) ∙ e),
    within-remove p lo hi k l h,
  )
  | no other ↦ ground (arith, other, within-remove p lo hi k l h)
]

abbrev pub counter : ℕ → Invitations → ℕ
counter p s = or_else (get s.next_occurrence p) 0

-- A process that has claimed `last` has an invitation, if any, with a greater occurrence.
pub record Above (p last : ℕ) (s : Invitations) : Type 0 where
  pub above : within p last (counter p s) s.invitations ≡ true
  pub counted : last ≤ counter p s

pub put-Above :
    (p last process : ℕ) (i j : Invitation) (s : Invitations)
    → Above p last s
    → get s.invitations process ≡ some i
    → i.occurrence ≡ j.occurrence
    → Above p last (record s { invitations = put s.invitations process j })
put-Above p last process i j s h e same = record {
  above = within-put p last (counter p s) process i j s.invitations h.above e same;
  counted = h.counted;
}

reject_if-Above :
    (p last : ℕ) (test : Bool) (t process : ℕ) (i : Invitation) (s : Invitations)
    → Above p last s
    → get s.invitations process ≡ some i
    → Above p last (reject_if test t process i s).1
reject_if-Above p last true t process i s h e = put-Above p last process i (reject t i) s h e refl
reject_if-Above p last false t process i s h e = h

counter-put :
    (p process n : ℕ) (s : Invitations)
    → counter p (record s { next_occurrence = put s.next_occurrence process n })
      ≡ (if process == p then n else counter p s)
counter-put p process n s = ground (arith, get-remove_ne s.next_occurrence process p)

-- A counter does not fall.
counter-grows :
    (p process n : ℕ) (s : Invitations)
    → counter process s ≤ n
    → counter p s ≤ counter p (record s { next_occurrence = put s.next_occurrence process n })
counter-grows p process n s e = ground (arith, counter-put p process n s, e, counter-at)
  where
    counter-at : process ≡ p → counter process s ≡ counter p s
    counter-at this = ap (λ q. counter q s) this

count-Above :
    (p last process n : ℕ) (s : Invitations)
    → Above p last s
    → counter process s ≤ n
    → Above p last (record s { next_occurrence = put s.next_occurrence process n })
count-Above p last process n s h e = record {
  above =
      within-weaken p last (counter p s) _ s.invitations (counter-grows p process n s e) h.above;
  counted = omega (arith, counter-grows p process n s e, h.counted);
}

invite-Above :
    (p last process : ℕ) (i : Invitation) (s : Invitations)
    → Above p last s
    → i.occurrence ≡ counter process s + 1
    → Above p last (record {
      invitations = put s.invitations process i;
      next_occurrence = put s.next_occurrence process (counter process s + 1);
    })
invite-Above p last process i s h e =
    let counted = count-Above p last process (counter process s + 1) s h (omega arith) in
    let rest = within-remove p last _ process s.invitations counted.above in
    let now = counter-put p process (counter process s + 1) s in
    record {
      above = elim (ℕ_discrete process p) [
        | yes this ↦ ground (arith, rest, now, e, h.counted, this, ap (λ q. counter q s) this)
        | no other ↦ ground (arith, rest, other)
      ];
      counted = counted.counted;
    }

pub reserve-Above :
    (p last : ℕ) (known prepared : Bool) (now process : ℕ) (token : List ℕ) (expires_at : ℕ)
    (s : Invitations)
    → Above p last s
    → Above p last (reserve known prepared now process token expires_at s).1
unfolding reserve
reserve-Above p last known prepared now process token expires_at s h = go _ _ _ refl refl refl
  where
    go :
        (refused full unprepared : Bool)
        → (length token == 0 || leb expires_at now || has s.invitations process || known) ≡ refused
        → (counter process s == 2 ^ 32 - 1) ≡ full
        → not prepared ≡ unprepared
        → Above p last (reserve known prepared now process token expires_at s).1
    go true f u a b d = rw (reserve, a) h
    go false true u a b d =
        rw (reserve, a, b) (count-Above p last process (counter process s) s h (omega arith))
    go false false true a b d =
        rw (reserve, a, b, d) (count-Above p last process (counter process s + 1) s h (omega arith))
    go false false false a b d = rw (reserve, a, b, d) (invite-Above p last process _ s h refl)

pub cancel-Above :
    (p last now process : ℕ) (s : Invitations)
    → Above p last s
    → Above p last (cancel now process s).1
unfolding cancel
cancel-Above p last now process s h = go (get s.invitations process) refl
  where
    go :
        (o : Option Invitation)
        → get s.invitations process ≡ o
        → Above p last (cancel now process s).1
    go none e = rw (cancel, e) h
    go (some i) e = rw (cancel, e) (reject_if-Above p last _ _ process i s h e)

pub cancel_with-Above :
    (p last : ℕ) (token : List ℕ) (now process : ℕ) (s : Invitations)
    → Above p last s
    → Above p last (cancel_with token now process s).1
unfolding cancel_with
cancel_with-Above p last token now process s h = go (get s.invitations process) refl
  where
    go :
        (o : Option Invitation)
        → get s.invitations process ≡ o
        → Above p last (cancel_with token now process s).1
    go none e = rw (cancel_with, e) h
    go (some i) e = rw (cancel_with, e) (reject_if-Above p last _ _ process i s h e)

pub clean_up-Above :
    (p last now : ℕ) (s : Invitations) (c : Coordinator)
    → Above p last s
    → Above p last (clean_up now s c).0
unfolding clean_up
clean_up-Above p last now s c h = record {
  above =
      within-erase_removed p last (counter p s) _ _
        (within-transition_all p last (counter p s) now s.invitations h.above);
  counted = h.counted;
}
