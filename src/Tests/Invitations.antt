-- ===== src/Tests/Invitations.antt =====
-- Process 3 is invited, with the token 5 6, and claims the invitation.
use sintra.Base.{ℕ, ◌+◌, ◌*◌, ◌^◌, ◌≡◌, ◌<◌, inl, refl, true, false, some, List, [], ◌∷◌, arith}
use sintra.Base.Maps.{Entry}
use sintra.Ids.{
  process_of, decompose_instance, compose_instance, get_process_index, is_valid_process_instance_id,
}
use sintra.Coordinator.{
  Coordinator, set_draining_state, set_collective_shutdown_state, draining_slot_of_index,
  resolve_instance,
}
use sintra.Coordinator.Invitations.{
  Invitation, Invitations, pending, transition, reserve, clean_up, external_attach_tokens_equal,
  readers_to_remove, next_deadline, transition_all, erase_removed,
}
use sintra.Coordinator.Invitations.Deadlines.{
  clean_up-clears, clean_up-keeps, clean_up-wakes, is_between,
}
use sintra.Coordinator.Claim.{Surroundings, claim, present, admit}
use sintra.Coordinator.StandardGroups.{
  add_to_standard_groups, ensure_group, join_or_make, publish_process_group,
}
use sintra.Coordinator.Publish.{
  publish_transceiver, may_publish, enter, start_occurrence, true_sequence,
}
use sintra.Coordinator.Claim.Events.{InvitationEvent, reserves, claims, handle_event, claims_of}
use sintra.Coordinator.Claim.Occurrences.{Above}
use sintra.Coordinator.Claim.Once.{ClaimResult, claim-ClaimResult, claims_of-rises, rises}
use sintra.Coordinator.Operations.{publishes, run}
use sintra.Tests.Coordinator.{empty, nobody}

abbrev guest : ℕ
guest = 3 * 2 ^ 56 + 1

abbrev none_yet : Invitations
none_yet = record { invitations = []; next_occurrence = [] }

abbrev around : Surroundings
around = record {
  shutdown = false;
  message = some (record {
    sender_instance_id = guest;
    managed_child_custody_identity = 0;
    managed_child_occurrence = 1;
  });
  admission_closed = false;
  reader =
      some (some (record { process_instance_id = guest; occurrence = 1; custody_identity = 0 }));
  cached_spawns = [];
  mproc_id = 2 ^ 56 + 1;
  group_type = 40;
  fresh_group = 2 ^ 56 + 5001;
  fresh_external_group = 2 ^ 56 + 5002;
}

abbrev token : List ℕ
token = 5 ∷ 6 ∷ []

abbrev events : List InvitationEvent
events =
    reserves false true 100 guest token 900
    ∷ claims around 200 guest token
    ∷ claims around 300 guest token
    ∷ []

none_yet-Above : Above guest 0 none_yet
none_yet-Above = record { above = refl; counted = omega arith }

claims_of-rises_example : rises guest 0 (claims_of events none_yet empty) ≡ true
claims_of-rises_example = claims_of-rises guest 0 events none_yet empty none_yet-Above

abbrev invited : Invitations
invited = record {
  invitations =
      (guest, record { token = token; expires_at = 900; occurrence = 1; state = pending }) ∷ [];
  next_occurrence = (guest, 1) ∷ [];
}

reserve_test : reserve false true 100 guest token 900 none_yet ≡ (some 1, invited)
unfolding reserve
reserve_test = refl

claim-ClaimResult_example :
    ClaimResult around 200 guest token invited empty (claim around 200 guest token invited empty)
claim-ClaimResult_example = claim-ClaimResult around 200 guest token invited empty

-- One invitation has expired, another one has not.
abbrev lasting : Invitation
lasting = record { token = token; expires_at = 5000000000; occurrence = 1; state = pending }

abbrev two_invited : Invitations
two_invited = record {
  invitations = (guest + 2 ^ 56, lasting) ∷ invited.invitations;
  next_occurrence = (guest, 1) ∷ (guest + 2 ^ 56, 1) ∷ [];
}

clean_up-clears_example :
    (j : Invitation) × Entry (guest + 2 ^ 56) j two_invited.invitations
    × (900 < j.expires_at)
    × (transition 3000000000 j ≡ lasting)
unfolding clean_up readers_to_remove transition_all erase_removed
clean_up-clears_example =
    clean_up-clears 900 3000000000 (guest + 2 ^ 56) lasting two_invited empty empty (omega arith)
      (inl (refl, refl))

clean_up-keeps_example :
    Entry (guest + 2 ^ 56) lasting (clean_up 900 two_invited empty).0.invitations
clean_up-keeps_example =
    clean_up-keeps 900 (guest + 2 ^ 56) lasting two_invited empty refl (omega arith)
      (inl (refl, refl))

clean_up-wakes_example : is_between 800 900 (next_deadline 800 invited.invitations) ≡ true
unfolding clean_up readers_to_remove transition_all erase_removed
clean_up-wakes_example =
    clean_up-wakes 800 guest
      (record { token = token; expires_at = 900; occurrence = 1; state = pending }) invited empty
      refl

-- The coordinator's own process, which is to publish the groups, is published.
abbrev coordinating : Coordinator
coordinating = run (publishes 7 (2 ^ 56 + 1) 11 nobody ∷ []) empty

-- The first claim succeeds, the second one finds no invitation.
claims_of_test : claims_of events none_yet coordinating ≡ (guest, 1) ∷ []
unfolding claims_of handle_event claim present admit reserve external_attach_tokens_equal
    add_to_standard_groups ensure_group join_or_make publish_process_group publish_transceiver
    may_publish enter start_occurrence true_sequence resolve_instance set_draining_state
    set_collective_shutdown_state draining_slot_of_index get_process_index process_of
    decompose_instance compose_instance is_valid_process_instance_id
claims_of_test = refl
