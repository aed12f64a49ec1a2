-- ===== src/Ring/Reader/Recovery/Resumed.antt =====
-- Where the recovery from an eviction leaves the sequence of a reader.
use sintra.Base.{
  ℕ, ◌≤◌, ◌≡◌, refl, Bool, true, false, not, ◌||◌, ◌==◌, Option, none, some, List, [], ◌∷◌, arith,
  if◌then◌else◌,
}
use sintra.Ring.State.{evicted, inactive}
use sintra.Ring.Reader.{
  Reader, GuardAdmission, acquired, evicted_admission, stopped_admission, retrying,
}
use sintra.Ring.Reader.Recovery.{
  Resumption, aim_at, resume_at_leading_sequence, Recovering, Awaited, resolved, given_up,
  turned_evicted, pending, await_request, Eviction, after_resume, reattach, handle_eviction,
}

-- The heads that the recovery reads lie between two heads.
abbrev pub HeadsIn : ℕ → ℕ → List Resumption → Type 0
HeadsIn low high [] = Unit {0}
HeadsIn low high (o ∷ rest) =
    (low ≤ o.leading)
    × (o.leading ≤ high)
    × (low ≤ o.confirmed)
    × (o.confirmed ≤ high)
    × HeadsIn low high rest

abbrev pub EvictionsIn : ℕ → ℕ → List Eviction → Type 0
EvictionsIn low high [] = Unit {0}
EvictionsIn low high (o ∷ rest) = HeadsIn low high o.resumptions × EvictionsIn low high rest

-- The recovery finds that the slot was evicted.
abbrev pub finds_eviction : List Eviction → Bool
finds_eviction [] = false
finds_eviction (o ∷ rest) = o.state.status == evicted || finds_eviction rest

abbrev pub Between : ℕ → ℕ → ℕ → Reader → Type 0
Between low high num r = (low ≤ r.sequence) × (r.sequence ≤ high) × (r.num ≡ num)

resume-Between :
    (low high : ℕ) (observed : List Resumption) (r : Reader)
    → HeadsIn low high observed
    → low ≤ r.sequence
    → r.sequence ≤ high
    → Between low high r.num (resume_at_leading_sequence observed r).1
unfolding resume_at_leading_sequence
resume-Between low high [] r h a b = (a, b, refl)
resume-Between low high (o ∷ rest) r h a b = ground (
  arith,
  h,
  resume-Between low high rest r h.4 a b,
  resume-Between low high rest (aim_at o.leading r) h.4 h.0 h.1,
)

-- What an answer of `handle_eviction` says: a call that found no eviction keeps the sequence; one
-- that recovered from an eviction found it, and leaves the reader between the two heads, as one
-- does that still waits.
abbrev pub Handled : ℕ → ℕ → List Eviction → Recovering → Option Bool × Recovering → Type 0
Handled low high observed s (none, s') = Between low high s.reader.num s'.reader
Handled low high observed s (some false, s') =
    (s'.reader.sequence ≡ s.reader.sequence) × (s'.reader.num ≡ s.reader.num)
Handled low high observed s (some true, s') =
    (finds_eviction observed ≡ true) × Between low high s.reader.num s'.reader

after_resume-Handled :
    (low high : ℕ) (observed : List Eviction) (s : Recovering) (x : Option Bool × Reader)
    → finds_eviction observed ≡ true
    → Between low high s.reader.num x.1
    → Handled low high observed s (after_resume x s)
unfolding after_resume
after_resume-Handled low high observed s (none, r) f b = b
after_resume-Handled low high observed s (some ok, r) f b = (f, b)

reattach-Handled :
    (low high : ℕ) (observed : List Eviction) (s : Recovering) (admission : GuardAdmission)
    → low ≤ s.reader.sequence
    → s.reader.sequence ≤ high
    → Handled low high observed s (reattach admission s)
unfolding reattach
reattach-Handled low high observed s (acquired previous) a b = (refl, refl)
reattach-Handled low high observed s evicted_admission a b = (refl, refl)
reattach-Handled low high observed s stopped_admission a b = (refl, refl)
reattach-Handled low high observed s retrying a b = (a, b, refl)

found_later :
    (low high : ℕ) (o : Eviction) (rest : List Eviction) (s : Recovering)
    (x : Option Bool × Recovering)
    → Handled low high rest s x
    → Handled low high (o ∷ rest) s x
found_later low high o rest s (none, s') h = h
found_later low high o rest s (some false, s') h = h
found_later low high o rest s (some true, s') h = (ground (arith, h.0), h.1)

pub handle_eviction-Handled :
    (low high : ℕ) (observed : List Eviction) (s : Recovering)
    → EvictionsIn low high observed
    → low ≤ s.reader.sequence
    → s.reader.sequence ≤ high
    → Handled low high observed s (handle_eviction observed s)
unfolding handle_eviction
handle_eviction-Handled low high [] s h a b = (a, b, refl)
handle_eviction-Handled low high (o ∷ rest) s h a b =
    go (o.state.present || not o.can_continue) (o.state.status == evicted)
      (o.state.status == inactive) (await_request o.requests o.state) refl
      (found_later low high o rest s (handle_eviction rest s)
        (handle_eviction-Handled low high rest s h.1 a b))
  where
    go :
        (stays gone idle : Bool) (answer : Awaited)
        → (o.state.status == evicted) ≡ gone
        → Handled low high (o ∷ rest) s (handle_eviction rest s)
        → let x : Option Bool × Recovering =
            if stays
            then (some false, s)
            else if gone
            then after_resume (resume_at_leading_sequence o.resumptions s.reader) s
            else if idle
            then (some false, s)
            else elim answer [
              | resolved ↦ reattach o.admission s
              | given_up ↦ (some false, s)
              | turned_evicted ↦ handle_eviction rest s
              | pending ↦ (none, s)
            ] in
          Handled low high (o ∷ rest) s x
    go true gone idle answer e later = (refl, refl)
    go false true idle answer e later =
        after_resume-Handled low high (o ∷ rest) s
          (resume_at_leading_sequence o.resumptions s.reader) (ground (arith, e))
          (resume-Between low high o.resumptions s.reader h.0 a b)
    go false false true answer e later = (refl, refl)
    go false false false resolved e later = reattach-Handled low high (o ∷ rest) s o.admission a b
    go false false false given_up e later = (refl, refl)
    go false false false turned_evicted e later = later
    go false false false pending e later = (a, b, refl)
