-- ===== src/Ring/Reader/Complete.antt =====
-- A reader that keeps its guard and its pace is handed everything.
use sintra.Base.{ℕ, ◌+◌, ◌≤◌, ◌≡◌, Bool, true, false, List, [], ◌∷◌}
use sintra.Ring.Reader.{Reader}
use sintra.Ring.Reader.Recovery.{Eviction}
use sintra.Ring.Reader.Delivery.{Call, Delivery, handed, nothing, recovered, unfinished}

-- The guard of the reader is in place when a call looks at its slot.
abbrev pub HasGuard : List Eviction → Type 0
HasGuard [] = ⊥
HasGuard (e ∷ rest) = e.state.present ≡ true

abbrev pub Undisturbed : List Call → Type 0
Undisturbed [] = Unit {0}
Undisturbed (o ∷ rest) = HasGuard o.evictions × (o.can_continue ≡ true) × Undisturbed rest

-- Heads of which none is more than the ring's length past the one before.
abbrev pub Close : ℕ → ℕ → List Call → Type 0
Close num low [] = Unit {0}
Close num low (o ∷ rest) = (o.leading ≤ low + num) × Close num o.leading rest

abbrev pub last_head : ℕ → List Call → ℕ
last_head low [] = low
last_head low (o ∷ rest) = last_head o.leading rest

-- Every call hands out a range, or nothing because nothing is new.
abbrev pub all_handed : List Delivery → Bool
all_handed [] = true
all_handed (handed first count ∷ rest) = all_handed rest
all_handed (nothing ∷ rest) = all_handed rest
all_handed (recovered sequence ∷ rest) = false
all_handed (unfinished ∷ rest) = false
