-- ===== src/Spinlock/Moves.antt =====
-- What one atomic operation of a thread makes of the words of the spinlock.
use sintra.Base.{
  ◌⊎◌, ℕ, ◌%◌, ◌≡◌, ◌≢◌, refl, Bool, true, false, ◌==◌, arith, if◌then◌else◌, inl, inr,
}
use sintra.Spinlock.{
  Pc, outside, marking, critical, unlocking, suspecting, bumped, taking, set_pc, set_exited,
  advance, take_over_mark, Move, acquire, odd_mark, even_mark, zero_store, suspect, bump, take,
  lose, mark,
}

-- The thread is the lock's owner: it has swapped itself in, and not yet cleared the word.
abbrev pub holds : Pc → Bool
holds marking = true
holds critical = true
holds unlocking = true
holds taking = true
holds _ = false

-- What the generation of a held lock is, by the place of the holder.
abbrev pub Parity : ℕ → Pc → Type 0
Parity g marking = g % 2 ≡ 0
Parity g critical = g % 2 ≡ 1
Parity g unlocking = g % 2 ≡ 0
Parity g _ = Unit {0}

-- What a thread has seen exited has exited.
abbrev pub Seen : (ℕ → Bool) → Pc → Type 0
Seen exited (suspecting o) = (exited o ≡ true) × (o ≢ 0)
Seen exited (bumped o) = (exited o ≡ true) × (o ≢ 0)
Seen exited _ = Unit {0}

-- What the words of the lock say of a thread of the process `self`.
pub record Place (exited : ℕ → Bool) (self o g : ℕ) (p : Pc) : Type 0 where
  pub seen_exited : Seen exited p
  pub owner : holds p ≡ true → o ≡ self
  pub marked : Parity g p

-- No live thread but one that stands at `p` can hold the lock.
abbrev pub Vacant : (ℕ → Bool) → ℕ → Pc → Type 0
Vacant exited o p = (holds p ≡ true) ⊎ ((o ≡ 0) ⊎ (exited o ≡ true))

pub record Moved (exited : ℕ → Bool) (self o g : ℕ) (p : Pc) (o' g' : ℕ) (p' : Pc) : Type 0 where
  pub free_even : o' ≡ 0 → g' % 2 ≡ 0
  pub place : Place exited self o' g' p'
  -- The words change for the others only if none of them holds the lock.
  pub kept : ((o' ≡ o) × (g' % 2 ≡ g % 2)) ⊎ Vacant exited o p
  pub entered : holds p' ≡ true → Vacant exited o p

pub Move-Moved :
    {exited : ℕ → Bool} {self o g o' g' : ℕ} {p p' : Pc}
    → self ≢ 0
    → (o ≡ 0 → g % 2 ≡ 0)
    → Place exited self o g p
    → Move exited self o g p o' g' p'
    → Moved exited self o g p o' g' p'
unfolding advance take_over_mark
Move-Moved h f v (acquire e) = record {
  free_even = λ q. ground (arith, h, q);
  place = record { seen_exited = tt; owner = λ q. refl; marked = f e };
  kept = inr (inr (inl e));
  entered = λ q. inr (inl e);
}
Move-Moved h f v odd_mark = record {
  free_even = λ q. ground (arith, h, q, v.owner);
  place = record { seen_exited = tt; owner = λ q. v.owner refl; marked = omega (arith, v.marked) };
  kept = inr (inl refl);
  entered = λ q. inl refl;
}
Move-Moved h f v even_mark = record {
  free_even = λ q. ground (arith, h, q, v.owner);
  place = record { seen_exited = tt; owner = λ q. v.owner refl; marked = omega (arith, v.marked) };
  kept = inr (inl refl);
  entered = λ q. inl refl;
}
Move-Moved h f v zero_store = record {
  free_even = λ q. v.marked;
  place = record { seen_exited = tt; owner = λ q. absurd (ground (arith, q)); marked = tt };
  kept = inr (inl refl);
  entered = λ q. inl refl;
}
Move-Moved h f v (suspect some e) = record {
  free_even = f;
  place = record { seen_exited = (e, some); owner = λ q. absurd (ground (arith, q)); marked = tt };
  kept = inl (refl, refl);
  entered = λ q. absurd (ground (arith, q));
}
Move-Moved h f v bump = record {
  free_even = λ q. omega (arith, f q);
  place = record {
    seen_exited = v.seen_exited;
    owner = λ q. absurd (ground (arith, q));
    marked = tt;
  };
  kept = inl (refl, omega arith);
  entered = λ q. absurd (ground (arith, q));
}
Move-Moved {exited = ex} h f v (take {dead} e) = record {
  free_even = λ q. ground (arith, h, q);
  place = record { seen_exited = tt; owner = λ q. refl; marked = tt };
  kept = inr (inr (inr (rw e (v.seen_exited.0))));
  entered = λ q. inr (inr (rw e (v.seen_exited.0)));
}
Move-Moved h f v (lose e) = record {
  free_even = f;
  place = record { seen_exited = tt; owner = λ q. absurd (ground (arith, q)); marked = tt };
  kept = inl (refl, refl);
  entered = λ q. absurd (ground (arith, q));
}
Move-Moved h f v mark = record {
  free_even = λ q. ground (arith, h, q, v.owner);
  place = record { seen_exited = tt; owner = λ q. v.owner refl; marked = ground arith };
  kept = inr (inl refl);
  entered = λ q. inl refl;
}

pub moved_holds :
    (t u : ℕ) (p : Pc) (f : ℕ → Pc)
    → holds (set_pc f t p u) ≡ true
    → (t ≡ u × holds p ≡ true) ⊎ (holds (f u) ≡ true)
moved_holds t u p f h = go (t == u) refl h
  where
    go :
        (b : Bool)
        → (t == u) ≡ b
        → holds (if b then p else f u) ≡ true
        → (t ≡ u × holds p ≡ true) ⊎ (holds (f u) ≡ true)
    go true e k = inl (ground (arith, e), k)
    go false e k = inr k

pub Seen-later :
    (exited : ℕ → Bool) (process : ℕ) (p : Pc) → Seen exited p → Seen (set_exited exited process) p
Seen-later exited process (suspecting x) k = (ground (arith, k), k.1)
Seen-later exited process (bumped x) k = (ground (arith, k), k.1)
Seen-later exited process outside k = tt
Seen-later exited process marking k = tt
Seen-later exited process critical k = tt
Seen-later exited process unlocking k = tt
Seen-later exited process taking k = tt

pub critical-marked : (g : ℕ) (p : Pc) → p ≡ critical → Parity g p → g % 2 ≡ 1
critical-marked g critical e k = k
critical-marked g p e k = absurd (ground (arith, e))

pub bumped-Seen :
    (exited : ℕ → Bool) (p : Pc) (dead : ℕ) → p ≡ bumped dead → Seen exited p → exited dead ≡ true
bumped-Seen exited (bumped x) dead e k = ground (arith, e, k)
bumped-Seen exited p dead e k = absurd (ground (arith, e))
