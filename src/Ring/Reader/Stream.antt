-- ===== src/Ring/Reader/Stream.antt =====
-- The ranges of `wait_for_new_data` follow one another, and evictions are the only gaps.
use sintra.Base.{
  ℕ, ◌+◌, ◌%◌, ◌^◌, ◌<◌, ◌≤◌, ◌≡◌, ◌⊎◌, refl, true, false, ◌==◌, Option, none, some, List, [], ◌∷◌,
  arith, if◌then◌else◌, Bool-cases, inl, inr, ap,
}
use sintra.Ring.Control.{Diagnostics}
use sintra.Ring.Reader.{Reader, take_range, delivered}
use sintra.Ring.Reader.Recovery.{Resumption, Recovering, Eviction}
use sintra.Ring.Reader.Recovery.Resumed.{HeadsIn, EvictionsIn, finds_eviction}
use sintra.Ring.Reader.Delivery.{
  Call, Delivery, handed, nothing, recovered, unfinished, delivery_of, deliver,
}

abbrev pub range_of : ℕ → Reader → Option (ℕ × ℕ)
range_of n r = if n == 0 then none else some (r.sequence % r.num, n)

take_range_lem :
    (n : ℕ) (r : Reader) (d : Diagnostics)
    → r.sequence + n < 2 ^ 64
    → ((take_range n r d).0 ≡ range_of n r)
      × ((take_range n r d).1.sequence ≡ r.sequence + n)
      × ((take_range n r d).1.num ≡ r.num)
unfolding take_range
take_range_lem n r d h = elim (Bool-cases (n == 0)) [
  | inl e ↦ let z : n ≡ 0 = ground (arith, e) in rw e (refl, omega (arith, z), refl)
  | inr e ↦ rw e (refl, omega (arith, h), refl)
]

-- What is handed out is new, at most the ring, and all that is new if that fits the ring.
delivered_bounds :
    (leading : ℕ) (r : Reader)
    → r.sequence ≤ leading
    → (delivered leading r ≤ r.num)
      × (r.sequence + delivered leading r ≤ leading)
      × ((delivered leading r ≡ r.num) ⊎ (r.sequence + delivered leading r ≡ leading))
delivered_bounds leading r h = (ground (arith, h), ground (arith, h), ground (arith, h))

pub deliver_parts :
    (leading : ℕ) (s : Recovering) (d : Diagnostics)
    → s.reader.sequence ≤ leading
    → leading < 2 ^ 64
    → ((deliver leading s d).0 ≡ delivery_of (range_of (delivered leading s.reader) s.reader))
      × ((deliver leading s d).1.reader.sequence ≡ s.reader.sequence + delivered leading s.reader)
      × ((deliver leading s d).1.reader.num ≡ s.reader.num)
unfolding deliver
deliver_parts leading s d h k =
    let q =
      take_range_lem (delivered leading s.reader) s.reader _
        (omega (arith, (delivered_bounds leading s.reader h).1, k)) in
    (ap delivery_of q.0, q.1, q.2)

-- Heads that a reader at `low` can find: they do not fall, neither from call to call nor between
-- those that a recovery reads within a call.
abbrev pub Rising : ℕ → List Call → Type 0
Rising low [] = Unit {0}
Rising low (o ∷ rest) =
    EvictionsIn low o.leading o.evictions
    × (low ≤ o.leading)
    × (o.leading < 2 ^ 64)
    × Rising o.leading rest

HeadsIn-from :
    (low mid high : ℕ) (l : List Resumption) → low ≤ mid → HeadsIn mid high l → HeadsIn low high l
HeadsIn-from low mid high [] h k = tt
HeadsIn-from low mid high (o ∷ rest) h k =
    (omega (arith, h, k.0), k.1, omega (arith, h, k.2), k.3, HeadsIn-from low mid high rest h k.4)

EvictionsIn-from :
    (low mid high : ℕ) (l : List Eviction)
    → low ≤ mid
    → EvictionsIn mid high l
    → EvictionsIn low high l
EvictionsIn-from low mid high [] h k = tt
EvictionsIn-from low mid high (o ∷ rest) h k =
    (HeadsIn-from low mid high o.resumptions h k.0, EvictionsIn-from low mid high rest h k.1)

pub Rising-from :
    (low mid : ℕ) (calls : List Call) → low ≤ mid → Rising mid calls → Rising low calls
Rising-from low mid [] h k = tt
Rising-from low mid (o ∷ rest) h k =
    (EvictionsIn-from low mid o.leading o.evictions h k.0, omega (arith, h, k.1), k.2, k.3)

-- What a reader at the sequence `start` gets from the calls, to stand at `stop` in the end: a range
-- begins at the index of its sequence and has all that is new, or the whole ring; nothing is
-- handed out only where the reader may not go on or has everything; and only a call that found
-- the reader evicted moves it, forward and not past the head.
abbrev pub Follows : ℕ → ℕ → List Call → List Delivery → ℕ → Type 0
Follows num start [] [] stop = start ≡ stop
Follows num start [] (d ∷ ds) stop = ⊥
Follows num start (o ∷ calls) [] stop = ⊥
Follows num start (o ∷ calls) (handed i n ∷ ds) stop =
    (i ≡ start % num)
    × (0 < n)
    × (n ≤ num)
    × ((n ≡ num) ⊎ (start + n ≡ o.leading))
    × Follows num (start + n) calls ds stop
Follows num start (o ∷ calls) (nothing ∷ ds) stop =
    ((o.can_continue ≡ false) ⊎ (start ≡ o.leading)) × Follows num start calls ds stop
Follows num start (o ∷ calls) (recovered q ∷ ds) stop =
    (finds_eviction o.evictions ≡ true)
    × (start ≤ q)
    × (q ≤ o.leading)
    × Follows num q calls ds stop
Follows num start (o ∷ calls) (unfinished ∷ ds) stop = ds ≡ []
