-- ===== src/Ring/Protocol/Invariant.antt =====
-- The counters of `read_access` are exactly what the readers and the writer owe, in every
-- reachable state.
use sintra.Base.{
  ℕ, ◌+◌, ◌^◌, ◌<◌, ◌≤◌, ◌≡◌, refl, true, false, ◌&&◌, ◌==◌, bit, none, some, arith, ==_refl,
}
use sintra.Base.Sums.{sum_below}
use sintra.Ring.State.{ReaderState, active, is_pending}
use sintra.Ring.Access.{count}
use sintra.Ring.Access.Counters.{count-add_count, count-sub_count, add_count-lt, sub_count-lt}
use sintra.Ring.Transitions.{
  guard_of, begin_acquire, attach_guard, begin_release, begin_done, admit_copy,
}
use sintra.Ring.Protocol.{
  ReaderPc, idle, pended, counted, releasing, clearing, finishing, copying, WriterPc, evicting,
  Move, pend, take_count, attach, release, finish, finish_unguarded, give, clear, drop, copy_enter,
  copy_exit, admit, retire, System,
}

-- The units of an octile's counter that a reader still has to give back.
abbrev pub in_transit : ℕ → ReaderPc → ℕ
in_transit o (counted octile previous) = bit (octile == o)
in_transit o (releasing octile last) = bit (octile == o)
in_transit o _ = 0

abbrev pub guards : ℕ → ReaderState → ℕ
guards o s = bit (s.present && s.octile == o)

abbrev pub owes : ℕ → ReaderState → ReaderPc → ℕ
owes o s p = guards o s + in_transit o p

abbrev pub writer_owes : ℕ → WriterPc → ℕ
writer_owes o (evicting octile i) = bit (octile == o)
writer_owes o _ = 0

-- What a reader's place says about its own state word.
abbrev pub Local : ReaderState → ReaderPc → Type 0
Local s idle = is_pending s ≡ false
Local s (pended octile previous) =
    (octile < 8)
    × (s.pending ≡ octile)
    × (guard_of s ≡ previous)
    × (s.status ≡ active)
    × (s.copying ≡ false)
Local s (counted octile previous) =
    (octile < 8)
    × (s.pending ≡ octile)
    × (guard_of s ≡ previous)
    × (s.status ≡ active)
    × (s.copying ≡ false)
Local s (releasing octile last) = (octile < 8) × (s.pending ≡ octile)
Local s (clearing last) = Unit {0}
Local s finishing = is_pending s ≡ false
Local s copying =
    (is_pending s ≡ false) × (s.copying ≡ true) × (s.present ≡ true) × (s.status ≡ active)

pub record IsSlot (s : ReaderState) (p : ReaderPc) : Type 0 where
  pub local : Local s p
  pub octile_small : s.present ≡ true → s.octile < 8
  pub guard_active : s.present ≡ true → s.status ≡ active

abbrev pub WriterLocal : WriterPc → Type 0
WriterLocal (evicting octile i) = octile < 8
WriterLocal _ = Unit {0}

abbrev pub total : ℕ → ℕ → System → ℕ
total n o s = sum_below n (λ i. owes o (s.state i) (s.pc i)) + writer_owes o s.writer

pub record Inv (n : ℕ) (s : System) : Type 0 where
  pub word : s.access < 2 ^ 64
  pub slot : (i : ℕ) → IsSlot (s.state i) (s.pc i)
  pub writer : WriterLocal s.writer
  pub exact : (o : ℕ) → o < 8 → count s.access o ≡ total n o s

-- A move of one reader changes a counter by what it changes of the reader's debt.
pub record Paid (a : ℕ) (s : ReaderState) (p : ReaderPc) (a' : ℕ) (s' : ReaderState) (p' : ReaderPc)
    : Type 0 where
  pub word : a' < 2 ^ 64
  pub slot : IsSlot s' p'
  pub paid : (o : ℕ) → o < 8 → count a' o + owes o s p ≡ count a o + owes o s' p'

-- Before a count is taken there is room for it; before one is given back it is there.
pub record Room (a : ℕ) (s : ReaderState) (p : ReaderPc) : Type 0 where
  pub above : (o : ℕ) → o < 8 → owes o s p ≤ count a o
  pub below : (o : ℕ) → o < 8 → count a o ≤ 0xfd + owes o s p

-- A move that leaves the counters alone, and the debt too.
still :
    {a : ℕ} {s s' : ReaderState} {p p' : ReaderPc}
    → a < 2 ^ 64
    → IsSlot s' p'
    → ((o : ℕ) → owes o s p ≡ owes o s' p')
    → Paid a s p a s' p'
still hw v e = record { word = hw; slot = v; paid = λ o h. omega (arith, e o) }

pub Move-Paid :
    {a a' : ℕ} {s s' : ReaderState} {p p' : ReaderPc}
    → a < 2 ^ 64
    → IsSlot s p
    → Room a s p
    → Move a s p a' s' p'
    → Paid a s p a' s' p'
unfolding begin_acquire attach_guard begin_release begin_done admit_copy
Move-Paid {a} {s = s} hw v r (pend allow octile h e) =
    still hw
      (record {
        local = ground (arith, v.local);
        octile_small = λ q. ground (arith, v.octile_small);
        guard_active = λ q. ground arith;
      })
      (λ o. ground arith)
Move-Paid {a} {s = s} hw v r (take_count {octile} {previous}) = record {
  word = add_count-lt a octile;
  slot = record { local = v.local; octile_small = v.octile_small; guard_active = v.guard_active };
  paid = λ o h. ground (arith, v.local, r.below octile, count-add_count octile o a v.local.0 h hw);
}
Move-Paid {a} {s = s} hw v r (attach {octile} {previous = none}) =
    still hw (record { local = refl; octile_small = λ q. v.local.0; guard_active = λ q. v.local.3 })
      (λ o. ground (arith, v.local))
Move-Paid {a} {s = s} hw v r (attach {octile} {previous = some previous}) =
    still hw
      (record {
        local = ground (arith, v.local, v.octile_small);
        octile_small = λ q. v.local.0;
        guard_active = λ q. v.local.3;
      })
      (λ o. ground (arith, v.local))
Move-Paid {a} {s = s} hw v r (release e) =
    still hw
      (record {
        local = ground (arith, v.octile_small);
        octile_small = λ q. ground arith;
        guard_active = λ q. ground arith;
      })
      (λ o. ground arith)
Move-Paid {a} {s = s} hw v r (finish e) =
    still hw
      (record {
        local = ground (arith, v.octile_small);
        octile_small = λ q. ground arith;
        guard_active = λ q. ground arith;
      })
      (λ o. ground arith)
Move-Paid {a} {s = s} hw v r (finish_unguarded e) =
    still hw (record { local = tt; octile_small = v.octile_small; guard_active = v.guard_active })
      (λ o. refl)
Move-Paid {a} {s = s} hw v r (give {octile}) = record {
  word = ground (arith, sub_count-lt a octile);
  slot = record { local = tt; octile_small = v.octile_small; guard_active = v.guard_active };
  paid = λ o h.
      ground
        (arith, v.local, r.above octile, ==_refl octile, count-sub_count octile o a v.local.0 h hw);
}
Move-Paid {a} {s = s} hw v r (clear {last = true}) =
    still hw (record { local = refl; octile_small = v.octile_small; guard_active = v.guard_active })
      (λ o. refl)
Move-Paid {a} {s = s} hw v r (clear {last = false}) =
    still hw (record { local = refl; octile_small = v.octile_small; guard_active = v.guard_active })
      (λ o. refl)
Move-Paid {a} {s = s} hw v r drop =
    still hw
      (record { local = v.local; octile_small = v.octile_small; guard_active = v.guard_active })
      (λ o. refl)
Move-Paid {a} {s = s} hw v r (copy_enter e) =
    still hw
      (record {
        local = ground (arith, v.local);
        octile_small = v.octile_small;
        guard_active = v.guard_active;
      })
      (λ o. refl)
Move-Paid {a} {s = s} hw v r copy_exit =
    still hw
      (record { local = v.local.0; octile_small = v.octile_small; guard_active = v.guard_active })
      (λ o. refl)
Move-Paid {a} {s = s} hw v r (admit e) =
    still hw (record { local = v.local; octile_small = v.octile_small; guard_active = λ q. refl })
      (λ o. refl)
Move-Paid {a} {s = s} hw v r (retire e) =
    still hw
      (record {
        local = v.local;
        octile_small = v.octile_small;
        guard_active = λ q. ground (arith, e, q);
      })
      (λ o. refl)
