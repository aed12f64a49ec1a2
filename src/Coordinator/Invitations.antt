-- ===== src/Coordinator/Invitations.antt =====
-- Invitations of external processes, include/sintra/detail/process/coordinator_impl.h. A token is the
-- list of its bytes, a time point counts the nanoseconds of the steady clock, and `now` is what the
-- clock gives. The coordinator runs in a managed process, so `s_mproc` is there.
pub mod Deadlines
pub mod Tokens
use sintra.Base.{
  ℕ, ◌+◌, ◌-◌, ◌^◌, Bool, true, false, not, ◌&&◌, ◌||◌, ◌==◌, leb, Option, none, some, List, [],
  ◌∷◌, length, mem, min, if◌then◌else◌,
}
use sintra.Base.Maps.{get, put, remove, has, or_else}
use sintra.Ids.{is_valid_process_instance_id, process_of}
use sintra.Coordinator.{Coordinator, set_draining_state}
use sintra.Coordinator.Lifecycle.{values}

-- `k_external_process_invitation_rejection_grace`, 2 seconds
abbrev pub rejection_grace : ℕ
rejection_grace = 2000000000

-- The loop of `external_attach_tokens_equal`: whether `diff` is not 0.
abbrev pub differs : Bool → List ℕ → List ℕ → Bool
differs diff [] rhs = diff
differs diff (x ∷ xs) [] = diff
differs diff (x ∷ xs) (y ∷ ys) = differs (diff || not (x == y)) xs ys

unfoldable pub external_attach_tokens_equal : List ℕ → List ℕ → Bool
external_attach_tokens_equal lhs rhs =
    if not (length lhs == length rhs) then false else not (differs false lhs rhs)

-- `External_process_invitation_state`
pub data InvitationState : Type 0 where
  pending rejecting removing : InvitationState

abbrev pub is_pending : InvitationState → Bool
is_pending pending = true
is_pending _ = false

abbrev pub is_removing : InvitationState → Bool
is_removing removing = true
is_removing _ = false

-- `External_process_invitation_record`
pub record Invitation : Type 0 where
  pub token : List ℕ
  pub expires_at : ℕ
  pub occurrence : ℕ
  pub state : InvitationState

pub record Invitations : Type 0 where
  pub invitations : List (ℕ × Invitation)
  pub next_occurrence : List (ℕ × ℕ)

-- `process_id_is_known_for_external_invitation`: the ids of the own process and of the coordinator,
-- the cached spawns and the processes that are read.
unfoldable pub is_known_process : ℕ → ℕ → List ℕ → List ℕ → ℕ → Coordinator → Bool
is_known_process mproc_id coord_id cached_spawns readers process c =
    not (is_valid_process_instance_id process)
    || process == mproc_id
    || process == process_of coord_id
    || has c.transceiver_registry process
    || has c.joined_process_branch process
    || mem process (values c.inflight_joins)
    || mem process cached_spawns
    || mem process c.processes_in_initialization
    || has c.groups_of_process process
    || mem process readers

-- `reserve_external_process_invitation`: the occurrence, where it succeeds. `known` is the answer of
-- `is_known_process` and `prepared` that of `prepare_process_reader`.
unfoldable pub reserve : Bool → Bool → ℕ → ℕ → List ℕ → ℕ → Invitations → Option ℕ × Invitations
reserve known prepared now process token expires_at s =
    let next = or_else (get s.next_occurrence process) 0 in
    let counted = put s.next_occurrence process (next + 1) in
    if length token == 0 || leb expires_at now || has s.invitations process || known
    then (none, s)
    else if next == 2 ^ 32 - 1
    then (none, record s { next_occurrence = put s.next_occurrence process next })
    else if not prepared
    then (none, record s { next_occurrence = counted })
    else (
      some (next + 1),
      record {
        invitations = put s.invitations process (record {
          token = token;
          expires_at = expires_at;
          occurrence = next + 1;
          state = pending;
        });
        next_occurrence = counted;
      },
    )

abbrev pub reject : ℕ → Invitation → Invitation
reject expires_at i = record i { state = rejecting; expires_at = expires_at }

abbrev pub reject_if : Bool → ℕ → ℕ → Invitation → Invitations → Bool × Invitations
reject_if test expires_at process i s =
    if test
    then (true, record s { invitations = put s.invitations process (reject expires_at i) })
    else (false, s)

-- `cancel_external_process_invitation`, without a token and with one
unfoldable pub cancel : ℕ → ℕ → Invitations → Bool × Invitations
cancel now process s =
    let invitation = get s.invitations process in
    elim invitation [
      | none ↦ (false, s)
      | some i ↦ reject_if (is_pending i.state) (now + rejection_grace) process i s
    ]

unfoldable pub cancel_with : List ℕ → ℕ → ℕ → Invitations → Bool × Invitations
unfolding external_attach_tokens_equal
cancel_with token now process s =
    let invitation = get s.invitations process in
    elim invitation [
      | none ↦ (false, s)
      | some i ↦
          reject_if
            (is_pending i.state
              && not (length token == 0)
              && external_attach_tokens_equal i.token token)
            (now + rejection_grace) process i s
    ]

-- One invitation in the loop of `transition_expired_external_process_invitations`
abbrev pub transition : ℕ → Invitation → Invitation
transition now i =
    if not (leb i.expires_at now)
    then i
    else if is_pending i.state
    then reject (now + rejection_grace) i
    else record i { state = removing }

-- Whether its reader is to be removed.
abbrev pub is_due : ℕ → Invitation → Bool
is_due now i = leb i.expires_at now && not (is_pending i.state)

unfoldable pub transition_all : ℕ → List (ℕ × Invitation) → List (ℕ × Invitation)
transition_all now [] = []
transition_all now ((process, i) ∷ rest) = (process, transition now i) ∷ transition_all now rest

unfoldable pub readers_to_remove : ℕ → List (ℕ × Invitation) → List ℕ
readers_to_remove now [] = []
readers_to_remove now ((process, i) ∷ rest) =
    let others = readers_to_remove now rest in if is_due now i then process ∷ others else others

-- `none` is the latest time point there is.
abbrev pub earlier : ℕ → Option ℕ → Option ℕ
earlier t none = some t
earlier t (some u) = some (min t u)

unfoldable pub next_deadline : ℕ → List (ℕ × Invitation) → Option ℕ
next_deadline now [] = none
next_deadline now ((process, i) ∷ rest) =
    let others = next_deadline now rest in
    if is_due now i then others else earlier (transition now i).expires_at others

-- `set_draining_state` for each reader that is to be removed
unfoldable pub drain_all : List ℕ → Coordinator → Coordinator
unfolding set_draining_state
drain_all [] c = c
drain_all (process ∷ rest) c = drain_all rest (set_draining_state process 1 c)

-- The erasure after the readers are removed.
unfoldable pub erase_removed : List ℕ → List (ℕ × Invitation) → List (ℕ × Invitation)
erase_removed readers [] = []
erase_removed readers ((process, i) ∷ rest) =
    let kept = erase_removed readers rest in
    if mem process readers && is_removing i.state then kept else (process, i) ∷ kept

-- A pass of `external_process_invitation_cleanup_loop`, between two waits. The lock is released and
-- taken again round the removal of the readers in the source; nothing comes in between here.
unfoldable pub clean_up : ℕ → Invitations → Coordinator → Invitations × Coordinator
unfolding transition_all readers_to_remove drain_all erase_removed
clean_up now s c =
    let readers = readers_to_remove now s.invitations in
    (
      record s { invitations = erase_removed readers (transition_all now s.invitations) },
      drain_all readers c,
    )

-- `cancel_all_external_process_invitations`
abbrev pub invited : List (ℕ × Invitation) → List ℕ
invited [] = []
invited ((process, i) ∷ rest) = process ∷ invited rest

unfoldable pub cancel_all : Invitations → Coordinator → Invitations × Coordinator
unfolding drain_all
cancel_all s c = (record s { invitations = [] }, drain_all (invited s.invitations) c)
