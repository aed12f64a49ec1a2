-- ===== src/Ring/Reader/Recovery/Aligned.antt =====
-- The octile that a recovered reader guards is the one of its sequence.
use sintra.Base.{
  refl, sym, ℕ, ◌≡◌, Bool, true, false, not, ◌==◌, Option, none, some, List, [], ◌∷◌, arith,
  if◌then◌else◌,
}
use sintra.Ring.State.{transition_allowed}
use sintra.Ring.Reader.{
  Reader, GuardAdmission, acquired, evicted_admission, stopped_admission, retrying,
}
use sintra.Ring.Reader.Recovery.{
  Resumption, octile_at, move_to, aim_at, resume_at_leading_sequence, Recovering, Renewal, Renewed,
  settled, stopped, waiting, renew_guard, handle_eviction, after_handling, done_reading_new_data,
}

-- The guard is where the reader's sequence wants it.
abbrev pub IsAligned : Reader → Type 0
IsAligned r = r.trailing_octile ≡ octile_at r.sequence r

-- A reader that has resumed kept its ring, guards the octile of its sequence and has nothing that
-- it did not consume.
abbrev pub IsResumed : ℕ → ℕ → Option Bool × Reader → Type 0
IsResumed num max_trailing (some true, r) =
    IsAligned r × (r.last_consumed ≡ r.sequence) × (r.num ≡ num) × (r.max_trailing ≡ max_trailing)
IsResumed num max_trailing (some false, r) = (r.num ≡ num) × (r.max_trailing ≡ max_trailing)
IsResumed num max_trailing (none, r) = (r.num ≡ num) × (r.max_trailing ≡ max_trailing)

admitted-IsResumed :
    (o : Resumption) (r : Reader) (again : Option Bool × Reader)
    → IsResumed r.num r.max_trailing again
    → let x : Option Bool × Reader =
        if octile_at o.confirmed r == octile_at o.leading r
        then (some true, move_to o.confirmed (aim_at o.leading r))
        else elim o.released [ none ↦ (none, aim_at o.leading r) | some _ ↦ again ] in
      IsResumed r.num r.max_trailing x
admitted-IsResumed o r again k =
    go (octile_at o.confirmed r == octile_at o.leading r) o.released refl
  where
    go :
        (same : Bool) (released : Option Bool)
        → (octile_at o.confirmed r == octile_at o.leading r) ≡ same
        → let x : Option Bool × Reader =
            if same
            then (some true, move_to o.confirmed (aim_at o.leading r))
            else elim released [ none ↦ (none, aim_at o.leading r) | some _ ↦ again ] in
          IsResumed r.num r.max_trailing x
    go true released e = (sym (ground arith), refl, refl, refl)
    go false none e = (refl, refl)
    go false (some _) e = k

resumed :
    (o : Resumption) (r : Reader) (denied again : Option Bool × Reader)
    (can_continue allowed : Bool) (admission : GuardAdmission)
    → IsResumed r.num r.max_trailing denied
    → IsResumed r.num r.max_trailing again
    → let x : Option Bool × Reader =
        if not can_continue
        then (some false, r)
        else if not allowed
        then denied
        else elim admission [
          | acquired _ ↦
              if octile_at o.confirmed r == octile_at o.leading r
              then (some true, move_to o.confirmed (aim_at o.leading r))
              else elim o.released [ none ↦ (none, aim_at o.leading r) | some _ ↦ again ]
          | evicted_admission ↦ (some false, aim_at o.leading r)
          | stopped_admission ↦ (some false, aim_at o.leading r)
          | retrying ↦ (none, aim_at o.leading r)
        ] in
      IsResumed r.num r.max_trailing x
resumed o r denied again false allowed admission k l = (refl, refl)
resumed o r denied again true false admission k l = k
resumed o r denied again true true (acquired _) k l = admitted-IsResumed o r again l
resumed o r denied again true true evicted_admission k l = (refl, refl)
resumed o r denied again true true stopped_admission k l = (refl, refl)
resumed o r denied again true true retrying k l = (refl, refl)

-- However `resume_at_leading_sequence` ends, it keeps the ring of the reader; when it succeeds, the
-- reader guards the octile of its sequence and has consumed up to there.
resume_at_leading_sequence-IsResumed :
    (observed : List Resumption) (r : Reader)
    → IsResumed r.num r.max_trailing (resume_at_leading_sequence observed r)
unfolding resume_at_leading_sequence
resume_at_leading_sequence-IsResumed [] r = (refl, refl)
resume_at_leading_sequence-IsResumed (o ∷ rest) r =
    resumed o r (resume_at_leading_sequence rest r)
      (resume_at_leading_sequence rest (aim_at o.leading r)) o.can_continue
      (transition_allowed o.state) o.admission (resume_at_leading_sequence-IsResumed rest r)
      (resume_at_leading_sequence-IsResumed rest (aim_at o.leading r))

-- A reader that `done_reading_new_data` has settled guards the octile of its sequence.
abbrev pub IsSettled : Renewed × Recovering → Type 0
IsSettled (settled, s) = IsAligned s.reader
IsSettled (stopped, s) = Unit {0}
IsSettled (waiting, s) = Unit {0}

renew_guard-IsSettled :
    (admission : GuardAdmission) (s : Recovering) (later : Renewed × Recovering)
    → IsSettled later
    → IsSettled (renew_guard admission s later)
unfolding renew_guard
renew_guard-IsSettled admission s later k =
    go (octile_at s.reader.sequence s.reader == s.reader.trailing_octile) admission refl
  where
    go :
        (same : Bool) (answer : GuardAdmission)
        → (octile_at s.reader.sequence s.reader == s.reader.trailing_octile) ≡ same
        → let x : Renewed × Recovering = if same then (settled, s) else elim answer [
          | acquired _ ↦ (
            settled,
            record s {
              reader = record (s.reader) { trailing_octile = octile_at s.reader.sequence s.reader };
            },
          )
          | evicted_admission ↦ later
          | stopped_admission ↦ (stopped, s)
          | retrying ↦ (waiting, s)
        ] in
          IsSettled x
    go true answer e = sym (ground arith)
    go false (acquired _) e = refl
    go false evicted_admission e = k
    go false stopped_admission e = tt
    go false retrying e = tt

after_handling-IsSettled :
    (admission : GuardAdmission) (handled : Option Bool × Recovering) (later : Renewed × Recovering)
    → IsSettled later
    → IsSettled (after_handling admission handled later)
unfolding after_handling
after_handling-IsSettled admission (none, s) later k = tt
after_handling-IsSettled admission (some true, s) later k = k
after_handling-IsSettled admission (some false, s) later k =
    renew_guard-IsSettled admission s later k

-- When `done_reading_new_data` ends because the guard stands where it belongs, the reader guards the
-- octile of its sequence, whatever evictions it went through.
done_reading_new_data-IsSettled :
    (observed : List Renewal) (s : Recovering) → IsSettled (done_reading_new_data observed s)
unfolding done_reading_new_data
done_reading_new_data-IsSettled [] s = tt
done_reading_new_data-IsSettled (o ∷ rest) s =
    go o.can_continue (done_reading_new_data-IsSettled rest (handle_eviction o.evictions s).1)
  where
    go :
        (can_continue : Bool)
        → IsSettled (done_reading_new_data rest (handle_eviction o.evictions s).1)
        → let x : Renewed × Recovering =
            if not can_continue
            then (stopped, s)
            else after_handling o.admission
                (handle_eviction o.evictions s)
                (done_reading_new_data rest (handle_eviction o.evictions s).1) in
          IsSettled x
    go false k = tt
    go true k =
        after_handling-IsSettled o.admission (handle_eviction o.evictions s)
          (done_reading_new_data rest (handle_eviction o.evictions s).1) k
