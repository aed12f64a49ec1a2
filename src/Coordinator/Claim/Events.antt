-- ===== src/Coordinator/Claim/Events.antt =====
-- Sequences of what happens to invitations.
use sintra.Base.{ℕ, Bool, true, false, Option, none, some, List, [], ◌∷◌, ◌++◌}
use sintra.Base.Maps.{get}
use sintra.Coordinator.{Coordinator}
use sintra.Coordinator.Invitations.{
  Invitation, Invitations, clean_up, cancel, cancel_with, cancel_all, reserve,
}
use sintra.Coordinator.Claim.{Surroundings, claim}

-- What happens to invitations.
pub data InvitationEvent : Type 0 where
  reserves :
      (known prepared : Bool) (now process : ℕ) (token : List ℕ) (expires_at : ℕ) → InvitationEvent
  cancels : (now process : ℕ) → InvitationEvent
  cancels_with : (token : List ℕ) (now process : ℕ) → InvitationEvent
  cleans_up : (now : ℕ) → InvitationEvent
  cancels_all : InvitationEvent
  claims : (e : Surroundings) (now process : ℕ) (token : List ℕ) → InvitationEvent

-- The occurrence of the invitation of a process.
abbrev pub occurrence_of : Option Invitation → ℕ
occurrence_of none = 0
occurrence_of (some i) = i.occurrence

abbrev pub record_claim : Bool → ℕ → ℕ → List (ℕ × ℕ)
record_claim true process occurrence = (process, occurrence) ∷ []
record_claim false process occurrence = []

-- One event: the claim that succeeds, with the occurrence of its invitation, and the state.
unfoldable pub handle_event :
    InvitationEvent → Invitations → Coordinator → List (ℕ × ℕ) × Invitations × Coordinator
unfolding reserve cancel cancel_with clean_up cancel_all claim
handle_event (reserves known prepared now process token expires_at) s c =
    ([], (reserve known prepared now process token expires_at s).1, c)
handle_event (cancels now process) s c = ([], (cancel now process s).1, c)
handle_event (cancels_with token now process) s c = ([], (cancel_with token now process s).1, c)
handle_event (cleans_up now) s c = ([], (clean_up now s c).0, (clean_up now s c).1)
handle_event cancels_all s c = ([], (cancel_all s c).0, (cancel_all s c).1)
handle_event (claims e now process token) s c =
    let result = claim e now process token s c in
    (record_claim result.0 process (occurrence_of (get s.invitations process)), result.1, result.2)

-- The claims that succeed in a sequence of events.
unfoldable pub claims_of : List InvitationEvent → Invitations → Coordinator → List (ℕ × ℕ)
unfolding handle_event
claims_of [] s c = []
claims_of (e ∷ rest) s c =
    (handle_event e s c).0 ++ claims_of rest (handle_event e s c).1 (handle_event e s c).2
