-- ===== src/Ring/Reader/Snapshot.antt =====
-- What `start_reading` returns on every path, and which of its rounds decides it.
use sintra.Base.{ℕ, ◌-◌, ◌%◌, ◌^◌, ◌<◌, ◌≡◌, ◌≢◌, ◌⊎◌, min, Bool, true, false, List, [], ◌∷◌}
use sintra.Ring.State.{evicted}
use sintra.Ring.Layout.{trailing_octile_of}
use sintra.Ring.Reader.{
  Reader, GuardAdmission, acquired, evicted_admission, stopped_admission, retrying, Attempt,
  ReadResult, range, empty_range, logic_error, ring_reader_evicted, still_waiting,
}

abbrev octile_of : Reader → ℕ → ℕ
octile_of r sequence = trailing_octile_of r.num r.max_trailing sequence

abbrev pub is_acquired : GuardAdmission → Bool
is_acquired (acquired previous) = true
is_acquired _ = false

-- A round whose guard was acquired at the octile of the first head, and the head confirmed after it
-- needs that octile, too.
abbrev pub Confirms : Reader → Attempt → Type 0
Confirms r a =
    (is_acquired a.admission ≡ true)
    × (trailing_octile_of r.num r.max_trailing a.confirmed
        ≡ trailing_octile_of r.num r.max_trailing a.leading)

-- A round whose guard was acquired where the confirmed head does not need it any longer.
abbrev pub Outruns : Reader → Attempt → Type 0
Outruns r a =
    (is_acquired a.admission ≡ true)
    × (trailing_octile_of r.num r.max_trailing a.confirmed
        ≢ trailing_octile_of r.num r.max_trailing a.leading)

-- A round of the kind `P` that comes after rounds which were outrun and gave their guard back.
abbrev pub Ends : (Attempt → Type 0) → Reader → List Attempt → Type 0
Ends P r [] = ⊥
Ends P r (a ∷ rest) = P a ⊎ (Outruns r a × (a.released ≡ true) × Ends P r rest)

-- No round has decided yet.
abbrev pub Undecided : Reader → List Attempt → Type 0
Undecided r [] = Unit {0}
Undecided r (a ∷ rest) =
    (a.admission ≡ retrying) ⊎ (Outruns r a × (a.released ≡ true) × Undecided r rest)

-- What a result says of the rounds, the reader that `start_reading` was called on and the one that it
-- leaves.
abbrev pub Answered : Bool → ℕ → Reader → List Attempt → ReadResult → Reader → Type 0
Answered stopping n r observed (range first count) r' =
    (r.reading ≡ false)
    × (stopping ≡ false)
    × (r'.reading ≡ true)
    × (r'.last_consumed ≡ r'.sequence)
    × (count ≡ min n r'.sequence)
    × (first ≡ (r'.sequence - count) % r.num)
    × (r'.trailing_octile ≡ trailing_octile_of r.num r.max_trailing r'.sequence)
    × Ends (λ a. Confirms r a × (a.status ≢ evicted) × (r'.sequence ≡ a.confirmed)) r observed
Answered stopping n r observed empty_range r' =
    (r.reading ≡ false)
    × (r'.reading ≡ false)
    × ((stopping ≡ true)
        ⊎ Ends
            (λ a.
              (a.admission ≡ stopped_admission)
              ⊎ (Outruns r a × (a.released ≡ false) × (a.status ≢ evicted)))
            r observed)
Answered stopping n r observed logic_error r' = (r.reading ≡ true) × (r' ≡ r)
Answered stopping n r observed ring_reader_evicted r' =
    (r.reading ≡ false)
    × (stopping ≡ false)
    × (r'.reading ≡ false)
    × Ends
        (λ a.
          (a.admission ≡ evicted_admission)
          ⊎ ((a.status ≡ evicted) × (Confirms r a ⊎ (Outruns r a × (a.released ≡ false)))))
        r observed
Answered stopping n r observed still_waiting r' =
    (r.reading ≡ false) × (stopping ≡ false) × Undecided r observed

-- Heads that fit a signed 64-bit number.
abbrev pub AllSmall : List Attempt → Type 0
AllSmall [] = Unit {0}
AllSmall (a ∷ rest) = (a.confirmed < 2 ^ 63) × AllSmall rest
