-- ===== src/Coordinator/Claim/Once.antt =====
-- An invitation is claimed at most once, with its token, in time.
use sintra.Base.{
  ℕ, ◌+◌, ◌≡◌, ◌<◌, refl, ap, sym, ◌∙◌, Bool, true, false, not, ◌&&◌, ◌||◌, ◌==◌, ltb, leb, Option,
  none, some, List, [], ◌∷◌, ◌++◌, length, arith, ℕ_discrete, if◌then◌else◌,
}
use mathlib.Core.Path.{subst}
use sintra.Base.Maps.{get, remove}
use sintra.Ids.{is_valid_process_instance_id}
use sintra.Coordinator.{Coordinator}
use sintra.Coordinator.Invitations.{
  Invitation, Invitations, is_pending, reject, rejection_grace, cancel_all,
  external_attach_tokens_equal,
}
use sintra.Coordinator.Invitations.Tokens.{external_attach_tokens_equal_iff}
use sintra.Coordinator.Claim.Events.{
  InvitationEvent, reserves, cancels, cancels_with, cleans_up, cancels_all, claims, record_claim,
  occurrence_of, handle_event, claims_of,
}
use sintra.Coordinator.Claim.Occurrences.{
  within, within-get, within-remove_same, within-remove, Above, counter, reserve-Above,
  cancel-Above, cancel_with-Above, clean_up-Above, put-Above,
}
use sintra.Coordinator.Claim.{
  Surroundings, is_sent_by, is_for_occurrence, admit, present, rejected_at, claim,
}

-- How a claim ends: it is refused and the invitations are as they were, or the one of the process
-- is rejected, or it succeeds, for an invitation that is pending, has not expired, and has the
-- token and the occurrence of the call, which is gone then.
pub data ClaimResult (e : Surroundings) (now process : ℕ) (token : List ℕ) (s : Invitations)
    (c : Coordinator) : Bool × Invitations × Coordinator → Type 0 where
  as_it_was : (c' : Coordinator) → ClaimResult e now process token s c (false, s, c')
  now_rejected :
      (i : Invitation) (t : ℕ)
      → get s.invitations process ≡ some i
      → is_pending i.state ≡ true
      → ClaimResult e now process token s c (false, rejected_at t process i s, c)
  admitted :
      (i : Invitation) (c' : Coordinator)
      → get s.invitations process ≡ some i
      → is_pending i.state ≡ true
      → now < i.expires_at
      → i.token ≡ token
      → is_for_occurrence i.occurrence e.message ≡ true
      → ClaimResult e now process token s c
          (true, record s { invitations = remove s.invitations process }, c')

present-ClaimResult :
    (e : Surroundings) (now process : ℕ) (token : List ℕ) (i : Invitation) (s : Invitations)
    (c : Coordinator)
    → get s.invitations process ≡ some i
    → ClaimResult e now process token s c (present e now process token i s c)
unfolding present
present-ClaimResult e now process token i s c h = go _ _ _ _ refl refl refl refl
  where
    go :
        (stale late wrong admits : Bool)
        → (not (is_for_occurrence i.occurrence e.message) || not (is_pending i.state)) ≡ stale
        → leb i.expires_at now ≡ late
        → external_attach_tokens_equal i.token token ≡ wrong
        → (admit e process i.occurrence c).0 ≡ admits
        → ClaimResult e now process token s c (present e now process token i s c)
    go true l w a x y z k = rw (present, x) (as_it_was c)
    go false true w a x y z k =
        rw (present, x, y) (now_rejected i (now + rejection_grace) h (ground (arith, x)))
    go false false false a x y z k =
        rw (present, x, y, z) (now_rejected i now h (ground (arith, x)))
    go false false true false x y z k =
        rw (present, x, y, z, k) (as_it_was (admit e process i.occurrence c).1)
    go false false true true x y z k =
        rw (present, x, y, z, k)
          (admitted i (admit e process i.occurrence c).1 h (ground (arith, x)) (ground (arith, y))
            ((external_attach_tokens_equal_iff i.token token).0 z) (ground (arith, x)))

-- A claim is refused, and the invitations are as they were or the one of the process, which was
-- pending, is rejected; or it succeeds, and then the invitation was pending and had not expired,
-- its token and its occurrence are those of the call, and it is gone.
pub claim-ClaimResult :
    (e : Surroundings) (now process : ℕ) (token : List ℕ) (s : Invitations) (c : Coordinator)
    → ClaimResult e now process token s c (claim e now process token s c)
unfolding claim
claim-ClaimResult e now process token s c = go _ _ refl refl
  where
    go :
        (refused : Bool) (o : Option Invitation)
        → (not (is_valid_process_instance_id process)
            || length token == 0
            || e.shutdown
            || not (is_sent_by process e.message))
          ≡ refused
        → get s.invitations process ≡ o
        → ClaimResult e now process token s c (claim e now process token s c)
    go true o x h = rw (claim, x) (as_it_was c)
    go false none x h = rw (claim, x, h) (as_it_was c)
    go false (some i) x h = rw (claim, x, h) (present-ClaimResult e now process token i s c h)

-- The occurrences that one process claims grow from claim to claim, from `last` on.
abbrev pub rises : ℕ → ℕ → List (ℕ × ℕ) → Bool
rises p last [] = true
rises p last ((q, o) ∷ rest) = if q == p then ltb last o && rises p o rest else rises p last rest

remove-Above :
    (p last process : ℕ) (s : Invitations)
    → Above p last s
    → Above p last (record s { invitations = remove s.invitations process })
remove-Above p last process s h = record {
  above = within-remove p last (counter p s) process s.invitations h.above;
  counted = h.counted;
}

-- A claim that succeeds is above the last one, and the next one will be above it.
claimed-rises :
    (p last process : ℕ) (i : Invitation) (s : Invitations) (rest : List (ℕ × ℕ))
    → Above p last s
    → get s.invitations process ≡ some i
    → ((last' : ℕ)
        → Above p last' (record s { invitations = remove s.invitations process })
        → rises p last' rest ≡ true)
    → rises p last ((process, i.occurrence) ∷ rest) ≡ true
claimed-rises p last process i s rest h e ih = elim (ℕ_discrete process p) [
  | yes this ↦
      let bounds =
        within-get p last (counter p s) s.invitations i h.above
          (ap (get s.invitations) (sym this) ∙ e) in
      ground (
        arith,
        this,
        bounds,
        ih i.occurrence (record {
          above =
              subst (λ q. within p i.occurrence (counter p s) (remove s.invitations q) ≡ true)
                (sym this) (within-remove_same p i.occurrence (counter p s) s.invitations);
          counted = ground (arith, bounds);
        }),
      )
  | no other ↦ ground (arith, other, ih last (remove-Above p last process s h))
]

step-rises :
    (p last : ℕ) (e : Surroundings) (now process : ℕ) (token : List ℕ) (s : Invitations)
    (c : Coordinator) (t : Bool × Invitations × Coordinator)
    (rest : Invitations → Coordinator → List (ℕ × ℕ))
    → Above p last s
    → ClaimResult e now process token s c t
    → ((last' : ℕ) (s' : Invitations) (c' : Coordinator)
        → Above p last' s'
        → rises p last' (rest s' c') ≡ true)
    → rises p last
        (record_claim t.0 process (occurrence_of (get s.invitations process)) ++ rest t.1 t.2)
      ≡ true
step-rises p last e now process token s c _ rest h (as_it_was c') ih = ih last s c' h
step-rises p last e now process token s c _ rest h (now_rejected i t k x) ih =
    ih last (rejected_at t process i s) c (put-Above p last process i (reject t i) s h k refl)
step-rises p last e now process token s c _ rest h (admitted i c' k x y z w) ih = rw (k) (
    claimed-rises p last process i s
      (rest (record s { invitations = remove s.invitations process }) c') h k
      (λ last' a. ih last' (record s { invitations = remove s.invitations process }) c' a))

-- The occurrences that claims of one process succeed with grow from claim to claim, in every
-- sequence of reservations, cancellations, cleanups and claims: an invitation is claimed once at
-- most, and no invitation from before a successful claim can be claimed after it.
pub claims_of-rises :
    (p last : ℕ) (events : List InvitationEvent) (s : Invitations) (c : Coordinator)
    → Above p last s
    → rises p last (claims_of events s c) ≡ true
unfolding claims_of handle_event cancel_all
claims_of-rises p last [] s c h = refl
claims_of-rises p last (reserves known prepared now process token expires_at ∷ rest) s c h =
    claims_of-rises p last rest _ c
      (reserve-Above p last known prepared now process token expires_at s h)
claims_of-rises p last (cancels now process ∷ rest) s c h =
    claims_of-rises p last rest _ c (cancel-Above p last now process s h)
claims_of-rises p last (cancels_with token now process ∷ rest) s c h =
    claims_of-rises p last rest _ c (cancel_with-Above p last token now process s h)
claims_of-rises p last (cleans_up now ∷ rest) s c h =
    claims_of-rises p last rest _ _ (clean_up-Above p last now s c h)
claims_of-rises p last (cancels_all ∷ rest) s c h =
    claims_of-rises p last rest _ _ (record { above = refl; counted = h.counted })
claims_of-rises p last (claims e now process token ∷ rest) s c h =
    step-rises p last e now process token s c (claim e now process token s c) (claims_of rest) h
      (claim-ClaimResult e now process token s c)
      (λ last' s' c' a. claims_of-rises p last' rest s' c' a)
