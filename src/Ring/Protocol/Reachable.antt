-- ===== src/Ring/Protocol/Reachable.antt =====
-- What holds in every state that the readers and the writer of a ring can reach.
use sintra.Base.{Bool, ◌^◌, zero, suc, ℕ, ◌+◌, ◌<◌, ◌≤◌, ◌≡◌, ◌≢◌, refl, true, ==_refl, arith}
use sintra.Base.Sums.{sum_below, sum_below-congr, le-sum_below}
use sintra.Ring.Control.{num_slots}
use sintra.Ring.State.{ReaderState, active}
use sintra.Ring.Access.{count, sub_count}
use sintra.Ring.Access.Counters.{count-sub_count}
use sintra.Ring.Protocol.{
  ReaderPc, idle, releasing, copying, free, evicting, give_back, System, initial, Reach, here, next,
}
use sintra.Ring.Protocol.Invariant.{Inv, IsSlot, total, owes, guards}
use sintra.Ring.Protocol.Steps.{Step-Inv}

sum_below-zero : (n : ℕ) → sum_below n (λ i. 0) ≡ 0
unfolding sum_below
sum_below-zero zero = refl
sum_below-zero (suc n) = omega (arith, sum_below-zero n)

initial-Inv : (n : ℕ) → Inv n initial
unfolding count
initial-Inv n = record {
  word = ground arith;
  slot = λ i. record {
    local = refl;
    octile_small = λ q. ground arith;
    guard_active = λ q. ground arith;
  };
  writer = tt;
  exact = λ o h. ground (arith, sum_below-zero n);
}

Reach-Inv : {n : ℕ} {s : System} → n ≤ num_slots → Reach n initial s → Inv n s
Reach-Inv {n} few here = initial-Inv n
Reach-Inv few (next r m) = Step-Inv few (Reach-Inv few r) m

-- In every reachable state of a ring with at most 127 readers, the counter of an octile is the
-- number of guards on it, plus one for each reader between taking a count and publishing the
-- guard, each reader between taking a guard back and giving its count back, and the writer
-- between an eviction and giving that count back.
pub counts_exact :
    (n o : ℕ) (s : System)
    → n ≤ num_slots
    → o < 8
    → Reach n initial s
    → count s.access o ≡ total n o s
counts_exact n o s few h r = (Reach-Inv few r).exact o h

copying-local :
    {s : ReaderState} (p : ReaderPc)
    → IsSlot s p
    → p ≡ copying
    → (s.present ≡ true) × (s.status ≡ active)
copying-local copying v e = (v.local.2, v.local.3)
copying-local p v e = absurd (ground (arith, e))

releasing-local :
    {s : ReaderState} (p : ReaderPc) (o : ℕ) (last : Bool)
    → IsSlot s p
    → p ≡ releasing o last
    → o < 8
releasing-local (releasing octile b) o last v e = ground (arith, v.local, e)
releasing-local p o last v e = absurd (ground (arith, e))

gives_back :
    (a o : ℕ)
    → a < 2 ^ 64
    → o < 8
    → count a o ≢ 0
    → (give_back a o ≡ sub_count a o) × (count (give_back a o) o + 1 ≡ count a o)
gives_back a o ha h there =
    (ground (arith, there), ground (arith, there, ==_refl o, count-sub_count o o a h h ha))

-- Where a reachable state of at most 127 readers publishes a guard, the counter of the guarded
-- octile is not zero.
pub guard-counted :
    (n i : ℕ) (s : System)
    → n ≤ num_slots
    → i < n
    → Reach n initial s
    → (s.state i).present ≡ true
    → count s.access (s.state i).octile ≢ 0
guard-counted n i s few h r e =
    let v = Reach-Inv few r in
    let o = (s.state i).octile in
    ground (
      arith,
      e,
      (v.slot i).octile_small,
      v.exact o,
      ==_refl o,
      le-sum_below n i (λ j. owes o (s.state j) (s.pc j)) h,
    )

-- A reader that copies in a reachable state of at most 127 readers publishes a guard and is
-- active, and the counter of the guarded octile is not zero.
pub copying-guarded :
    (n i : ℕ) (s : System)
    → n ≤ num_slots
    → i < n
    → Reach n initial s
    → s.pc i ≡ copying
    → ((s.state i).present ≡ true)
      × ((s.state i).status ≡ active)
      × (count s.access (s.state i).octile ≢ 0)
copying-guarded n i s few h r e =
    let v = Reach-Inv few r in
    let k = copying-local (s.pc i) (v.slot i) e in (k.0, k.1, guard-counted n i s few h r k.0)

-- A count that a reader is about to give back in a reachable state is there: the branch of
-- `release_read_access_count` that finds a zero is not taken, and the count that is left is one less.
pub reader-gives_back :
    (n i o : ℕ) (last : Bool) (s : System)
    → n ≤ num_slots
    → i < n
    → Reach n initial s
    → s.pc i ≡ releasing o last
    → (give_back s.access o ≡ sub_count s.access o)
      × (count (give_back s.access o) o + 1 ≡ count s.access o)
reader-gives_back n i o last s few h r e =
    let v = Reach-Inv few r in
    let small = releasing-local (s.pc i) o last (v.slot i) e in
    let there : count s.access o ≢ 0 = ground (
      arith,
      e,
      ==_refl o,
      v.exact o small,
      le-sum_below n i (λ j. owes o (s.state j) (s.pc j)) h,
    ) in
    gives_back s.access o v.word small there

-- A count that the writer is about to give back after an eviction in a reachable state is there:
-- the branch of `release_read_access_count` that finds a zero is not taken, and the count that is
-- left is one less.
pub writer-gives_back :
    (n i o : ℕ) (s : System)
    → n ≤ num_slots
    → Reach n initial s
    → s.writer ≡ evicting o i
    → (give_back s.access o ≡ sub_count s.access o)
      × (count (give_back s.access o) o + 1 ≡ count s.access o)
writer-gives_back n i o s few r e =
    let v = Reach-Inv few r in
    let small : o < 8 = ground (arith, e, v.writer) in
    gives_back s.access o v.word small (ground (arith, e, ==_refl o, v.exact o small))

-- When every reader of a reachable state is between two operations and the writer evicts nobody,
-- the counter of an octile is the number of readers that guard it.
pub quiet-counts :
    (n o : ℕ) (s : System)
    → n ≤ num_slots
    → o < 8
    → Reach n initial s
    → ((i : ℕ) → s.pc i ≡ idle)
    → s.writer ≡ free
    → count s.access o ≡ sum_below n (λ i. guards o (s.state i))
quiet-counts n o s few h r quiet e = ground (
  arith,
  e,
  (Reach-Inv few r).exact o h,
  sum_below-congr n (λ i. owes o (s.state i) (s.pc i)) (λ i. guards o (s.state i))
      (λ i hi. rw (quiet i) (omega arith)),
)
