-- ===== src/Coordinator/Invitations/Deadlines.antt =====
-- Invitations expire, and the cleanup loop wakes in time.
use sintra.Base.{
  ℕ, ◌+◌, ◌≡◌, ◌≤◌, ◌<◌, refl, sym, ap, ◌∙◌, Bool, true, false, not, ◌&&◌, ◌||◌, ltb, leb, Option,
  none, some, List, [], ◌∷◌, mem, arith, Bool-cases, inl, inr, ◌⊎◌, ==_refl, if◌then◌else◌,
}
use sintra.Base.Maps.{Entry, get, get-cons_cases, none-some}
use sintra.Coordinator.{Coordinator}
use sintra.Coordinator.Invitations.{
  Invitation, InvitationState, Invitations, is_pending, is_removing, rejection_grace, transition,
  is_due, transition_all, readers_to_remove, earlier, next_deadline, erase_removed, clean_up,
}

abbrev covers : List ℕ → ℕ → List (ℕ × Invitation) → Bool
covers readers now [] = true
covers readers now ((process, i) ∷ rest) =
    (not (is_due now i) || mem process readers) && covers readers now rest

covers_more :
    (p : ℕ) (readers : List ℕ) (now : ℕ) (l : List (ℕ × Invitation))
    → covers readers now l ≡ true
    → covers (p ∷ readers) now l ≡ true
covers_more p readers now [] h = refl
covers_more p readers now ((q, i) ∷ rest) h = ground (arith, h, covers_more p readers now rest)

covers_self : (now : ℕ) (l : List (ℕ × Invitation)) → covers (readers_to_remove now l) now l ≡ true
unfolding readers_to_remove
covers_self now [] = refl
covers_self now ((q, i) ∷ rest) =
    ground
      (arith, ==_refl q, covers_self now rest, covers_more q (readers_to_remove now rest) now rest)

-- An entry that is left is the first one or among the others.
left_of_cons :
    (erased : Bool) (q p : ℕ) (k i : Invitation) (kept : List (ℕ × Invitation))
    → Entry p i (if erased then kept else (q, k) ∷ kept)
    → ((erased ≡ false) × (q ≡ p) × (k ≡ i)) ⊎ Entry p i kept
left_of_cons true q p k i kept h = inr h
left_of_cons false q p k i kept (inl (a, b)) = inl (refl, a, b)
left_of_cons false q p k i kept (inr h) = inr h

-- What a pass leaves is an invitation that was not due, after its transition.
left_by_pass :
    (readers : List ℕ) (now p : ℕ) (i : Invitation) (l : List (ℕ × Invitation))
    → covers readers now l ≡ true
    → Entry p i (erase_removed readers (transition_all now l))
    → (j : Invitation) × Entry p j l × (transition now j ≡ i) × (is_due now j ≡ false)
unfolding erase_removed transition_all
left_by_pass readers now p i [] c h = absurd h
left_by_pass readers now p i ((q, k) ∷ rest) c h =
    elim (left_of_cons (mem q readers && is_removing (transition now k).state) q p
      (transition now k) i (erase_removed readers (transition_all now rest)) h) [
        | inl same ↦ (k, inl (same.1, refl), same.2, ground (arith, c, same.0))
        | inr m ↦
            let found = left_by_pass readers now p i rest (ground (arith, c)) m in
            (found.0, inr found.1, found.2, found.3)
      ]

kept_of_cons :
    (erased : Bool) (q p : ℕ) (k i : Invitation) (kept : List (ℕ × Invitation))
    → ((erased ≡ false) × (q ≡ p) × (k ≡ i)) ⊎ Entry p i kept
    → Entry p i (if erased then kept else (q, k) ∷ kept)
kept_of_cons true q p k i kept (inl h) = absurd (ground (arith, h.0))
kept_of_cons true q p k i kept (inr h) = h
kept_of_cons false q p k i kept (inl h) = inl (h.1, h.2)
kept_of_cons false q p k i kept (inr h) = inr h

unmoved : (now : ℕ) (i : Invitation) → now < i.expires_at → transition now i ≡ i
unmoved now i h = ground (arith, h)

-- An invitation that is pending and has not expired stays as it is.
kept_by_pass :
    (readers : List ℕ) (now p : ℕ) (i : Invitation) (l : List (ℕ × Invitation))
    → is_pending i.state ≡ true
    → now < i.expires_at
    → Entry p i l
    → Entry p i (erase_removed readers (transition_all now l))
unfolding erase_removed transition_all
kept_by_pass readers now p i [] v h m = m
kept_by_pass readers now p i ((q, k) ∷ rest) v h (inl m) =
    let same : transition now k ≡ i = ap (transition now) m.1 ∙ unmoved now i h in
    kept_of_cons (mem q readers && is_removing (transition now k).state) q p (transition now k) i
      (erase_removed readers (transition_all now rest)) (inl (rw same (stays i.state v), m.0, same))
  where
    stays : (x : InvitationState) → is_pending x ≡ true → (mem q readers && is_removing x) ≡ false
    stays x e = ground (arith, e)
kept_by_pass readers now p i ((q, k) ∷ rest) v h (inr m) =
    kept_of_cons (mem q readers && is_removing (transition now k).state) q p (transition now k) i
      (erase_removed readers (transition_all now rest))
      (inr (kept_by_pass readers now p i rest v h m))

-- An invitation that a pass did not find due, and the next pass, after the grace, does not either.
was_not_expired :
    (now later : ℕ) (i : Invitation)
    → now + rejection_grace ≤ later
    → is_due now i ≡ false
    → is_due later (transition now i) ≡ false
    → now < i.expires_at
was_not_expired now later i t d e = ground (arith, t, d, e)

-- A pass of the cleanup loop and the next pass, 2 seconds later or more: every invitation that is
-- left is one that was there before and had not expired at the first pass, as the second pass leaves
-- it. So each one that had expired at the first pass, whatever its state was, is gone.
pub clean_up-clears :
    (now later process : ℕ) (i : Invitation) (s : Invitations) (c c' : Coordinator)
    → now + rejection_grace ≤ later
    → Entry process i (clean_up later (clean_up now s c).0 c').0.invitations
    → (j : Invitation) × Entry process j s.invitations
      × (now < j.expires_at)
      × (transition later j ≡ i)
unfolding clean_up
clean_up-clears now later process i s c c' t m =
    let once : List (ℕ × Invitation) =
      erase_removed (readers_to_remove now s.invitations) (transition_all now s.invitations) in
    let second =
      left_by_pass (readers_to_remove later once) later process i once (covers_self later once) m in
    let first =
      left_by_pass (readers_to_remove now s.invitations) now process second.0 s.invitations
        (covers_self now s.invitations) second.1 in
    let unexpired : now < first.0.expires_at =
      was_not_expired now later first.0 t first.3 (ap (is_due later) first.2 ∙ second.3) in
    (
      first.0,
      first.1,
      unexpired,
      ap (transition later) (sym (unmoved now first.0 unexpired) ∙ first.2) ∙ second.2,
    )

-- A pass of the cleanup loop keeps every pending invitation that has not expired as it is.
pub clean_up-keeps :
    (now process : ℕ) (i : Invitation) (s : Invitations) (c : Coordinator)
    → is_pending i.state ≡ true
    → now < i.expires_at
    → Entry process i s.invitations
    → Entry process i (clean_up now s c).0.invitations
unfolding clean_up
clean_up-keeps now process i s c v h m =
    kept_by_pass (readers_to_remove now s.invitations) now process i s.invitations v h m

-- A deadline after `now` and not after `t`.
abbrev pub is_between : ℕ → ℕ → Option ℕ → Bool
is_between now t none = false
is_between now t (some d) = ltb now d && leb d t

is_between-earlier :
    (now t u : ℕ) (o : Option ℕ)
    → now < u
    → is_between now t o ≡ true
    → is_between now t (earlier u o) ≡ true
is_between-earlier now t u none h e = absurd (ground (arith, e))
is_between-earlier now t u (some d) h e = ground (arith, h, e)

abbrev is_after : ℕ → Option ℕ → Bool
is_after now none = true
is_after now (some d) = ltb now d

next_deadline-after :
    (now : ℕ) (l : List (ℕ × Invitation)) → is_after now (next_deadline now l) ≡ true
unfolding next_deadline
next_deadline-after now [] = refl
next_deadline-after now ((q, i) ∷ rest) = go (next_deadline now rest) (next_deadline-after now rest)
  where
    go :
        (o : Option ℕ)
        → is_after now o ≡ true
        → is_after now (if is_due now i then o else earlier (transition now i).expires_at o) ≡ true
    go none h = ground (arith, h)
    go (some d) h = ground (arith, h)

earlier-is_between :
    (now t : ℕ) (o : Option ℕ)
    → now < t
    → is_after now o ≡ true
    → is_between now t (earlier t o) ≡ true
earlier-is_between now t none h e = ground (arith, h)
earlier-is_between now t (some d) h e = ground (arith, h, e)

-- An invitation that is left is the first one or among the others.
left_over :
    (now process : ℕ) (i : Invitation) (q : ℕ) (j : Invitation) (readers : List ℕ)
    (kept : List (ℕ × Invitation))
    → get
        (if mem q readers && is_removing (transition now j).state
          then kept
          else (q, transition now j) ∷ kept)
        process
      ≡ some i
    → (transition now j ≡ i) ⊎ (get kept process ≡ some i)
left_over now process i q j readers kept h =
    elim (Bool-cases (mem q readers && is_removing (transition now j).state)) [
      | inl e ↦ inr (ground (arith, e, h))
      | inr e ↦ get-cons_cases q process (transition now j) i kept (ground (arith, e, h))
    ]

next_deadline-kept :
    (now process : ℕ) (i : Invitation) (readers : List ℕ) (l : List (ℕ × Invitation))
    → covers readers now l ≡ true
    → get (erase_removed readers (transition_all now l)) process ≡ some i
    → is_between now i.expires_at (next_deadline now l) ≡ true
unfolding erase_removed transition_all next_deadline
next_deadline-kept now process i readers [] c h = absurd (none-some none i refl h)
next_deadline-kept now process i readers ((q, j) ∷ rest) c h =
    let later = next_deadline-kept now process i readers rest (ground (arith, c)) in
    elim (Bool-cases (is_due now j)) [
      | inl e ↦ rw (e) (later (ground (arith, e, c, h)))
      | inr e ↦
          rw (e)
            (elim (left_over now process i q j readers
              (erase_removed readers (transition_all now rest)) h) [
                | inl k ↦ rw (← k) (
                    earlier-is_between now (transition now j).expires_at (next_deadline now rest)
                      (ground (arith, e)) (next_deadline-after now rest))
                | inr k ↦
                    is_between-earlier now i.expires_at (transition now j).expires_at
                      (next_deadline now rest) (ground (arith, e)) (later k)
              ])
    ]

-- The cleanup loop does not oversleep: after a pass at `now`, while an invitation is left, the loop
-- waits for a time point after `now` that is not later than the deadline of that invitation.
pub clean_up-wakes :
    (now process : ℕ) (i : Invitation) (s : Invitations) (c : Coordinator)
    → get (clean_up now s c).0.invitations process ≡ some i
    → is_between now i.expires_at (next_deadline now s.invitations) ≡ true
unfolding clean_up
clean_up-wakes now process i s c h =
    next_deadline-kept now process i (readers_to_remove now s.invitations) s.invitations
      (covers_self now s.invitations) h
