-- ===== src/Barrier/Completion.antt =====
-- A barrier completes with the last process that it waits for.
use sintra.Base.{
  ℕ, ◌≡◌, refl, Bool, true, false, not, ◌&&◌, ◌||◌, ◌==◌, none, some, List, [], ◌∷◌, mem, arith,
  if◌then◌else◌, ==_refl,
}
use sintra.Barrier.{
  Barrier, erase, insert, is_empty, deferred, completed, record_arrival, join, drop, Event, arrives,
  leaves, run_barrier,
}

pub mem-erase : (p x : ℕ) (xs : List ℕ) → mem x (erase p xs) ≡ (mem x xs && not (x == p))
mem-erase p x [] = refl
mem-erase p x (y ∷ ys) = ground (arith, mem-erase p x ys)

pub mem-insert : (p x : ℕ) (xs : List ℕ) → mem x (insert p xs) ≡ (x == p || mem x xs)
mem-insert p x xs = ground arith

-- A list is empty if nothing is in it.
is_empty_of : (xs : List ℕ) → ((x : ℕ) → mem x xs ≡ false) → is_empty xs ≡ true
is_empty_of [] h = refl
is_empty_of (x ∷ xs) h = absurd (ground (arith, h x, ==_refl x))

mem-is_empty : (x : ℕ) (xs : List ℕ) → mem x xs ≡ true → is_empty xs ≡ false
mem-is_empty x [] h = absurd (ground (arith, h))
mem-is_empty x (y ∷ ys) h = refl

abbrev pub who : Event → ℕ
who (arrives p) = p
who (leaves p) = p

abbrev pub among : ℕ → List Event → Bool
among x [] = false
among x (e ∷ rest) = x == who e || among x rest

-- Whether a process arrives in the events.
abbrev pub arrives_in : ℕ → List Event → Bool
arrives_in x [] = false
arrives_in x (arrives p ∷ rest) = x == p || arrives_in x rest
arrives_in x (leaves p ∷ rest) = arrives_in x rest

-- No process has two events.
abbrev pub EachOnce : List Event → Type 0
EachOnce [] = Unit {0}
EachOnce (e ∷ rest) = (among (who e) rest ≡ false) × EachOnce rest

-- A barrier in progress that waits for exactly the processes of the events; nobody has both
-- arrived and not arrived.
pub record Awaits (mode : ℕ) (events : List Event) (b : Barrier) : Type 0 where
  pub same_mode : b.mode_tag ≡ mode
  pub waits : (x : ℕ) → mem x b.processes_pending ≡ among x events
  pub apart : (x : ℕ) → mem x b.processes_pending ≡ true → mem x b.processes_arrived ≡ false

abbrev arrived_at : ℕ → Barrier → Barrier
arrived_at p b = record b {
  processes_pending = erase p b.processes_pending;
  processes_arrived = insert p b.processes_arrived;
}

abbrev left_by : ℕ → Barrier → Barrier
left_by p b = record b {
  processes_pending = erase p b.processes_pending;
  processes_arrived = erase p b.processes_arrived;
}

join-arrived :
    (present : List ℕ) (fresh mode p : ℕ) (b : Barrier)
    → b.mode_tag ≡ mode
    → mem p b.processes_pending ≡ true
    → join present fresh mode p b ≡ (
        if is_empty (erase p b.processes_pending)
        then (
          completed b.common_function_iid (erase p (insert p b.processes_arrived)),
          some (arrived_at p b),
        )
        else (deferred b.common_function_iid, some (arrived_at p b)))
unfolding join record_arrival
join-arrived present fresh mode p b e h =
    let busy = mem-is_empty p b.processes_pending h in
    let same : (b.mode_tag == mode) ≡ true = ground (arith, e) in rw (busy, same) refl

drop-left :
    (p : ℕ) (b : Barrier)
    → mem p b.processes_pending ≡ true
    → mem p b.processes_arrived ≡ false
    → drop p b ≡ (
        if not (is_empty (erase p b.processes_pending)) then (none, some (left_by p b)) else (
          some (record {
            common_function_iid = b.common_function_iid;
            recipients = erase p b.processes_arrived;
          }),
          none,
        ))
unfolding drop
drop-left p b h k = rw (h, k) refl

Awaits-arrived :
    (mode p : ℕ) (rest : List Event) (b : Barrier)
    → among p rest ≡ false
    → Awaits mode (arrives p ∷ rest) b
    → Awaits mode rest (arrived_at p b)
Awaits-arrived mode p rest b once v = record {
  same_mode = v.same_mode;
  waits = λ x. ground (arith, once, v.waits x, mem-erase p x b.processes_pending, ==_refl p);
  apart = λ x h.
      ground (
        arith,
        h,
        v.apart x,
        mem-erase p x b.processes_pending,
        mem-insert p x b.processes_arrived,
      );
}

Awaits-left :
    (mode p : ℕ) (rest : List Event) (b : Barrier)
    → among p rest ≡ false
    → Awaits mode (leaves p ∷ rest) b
    → Awaits mode rest (left_by p b)
Awaits-left mode p rest b once v = record {
  same_mode = v.same_mode;
  waits = λ x. ground (arith, once, v.waits x, mem-erase p x b.processes_pending, ==_refl p);
  apart = λ x h.
      ground
        (arith, h, v.apart x, mem-erase p x b.processes_pending, mem-erase p x b.processes_arrived);
}

-- A barrier in progress to which each process that it waits for either comes, in its mode, or is
-- dropped, once and in any order, completes with the last of these events and not before; then
-- exactly the processes that arrived, before or in the events, are answered.
pub run_barrier_completes :
    (present : List ℕ) (fresh mode : ℕ) (e : Event) (rest : List Event) (b : Barrier)
    → EachOnce (e ∷ rest)
    → Awaits mode (e ∷ rest) b
    → (answered : List ℕ) × (run_barrier present fresh mode (e ∷ rest) b ≡ some (answered, []))
      × ((x : ℕ) → mem x answered ≡ (mem x b.processes_arrived || arrives_in x (e ∷ rest)))
unfolding run_barrier
run_barrier_completes present fresh mode (arrives p) [] b once v =
    let k = Awaits-arrived mode p [] b once.0 v in
    let here : mem p b.processes_pending ≡ true = ground (arith, v.waits p, ==_refl p) in
    let over = is_empty_of (erase p b.processes_pending) k.waits in
    (
      p ∷ erase p (insert p b.processes_arrived),
      rw (join-arrived present fresh mode p b v.same_mode here, over) refl,
      λ x.
          ground (
            arith,
            mem-erase p x (insert p b.processes_arrived),
            mem-insert p x b.processes_arrived,
          ),
    )
run_barrier_completes present fresh mode (leaves p) [] b once v =
    let k = Awaits-left mode p [] b once.0 v in
    let here : mem p b.processes_pending ≡ true = ground (arith, v.waits p, ==_refl p) in
    let over = is_empty_of (erase p b.processes_pending) k.waits in
    (
      erase p b.processes_arrived,
      rw (drop-left p b here (v.apart p here), over) refl,
      λ x. ground (arith, mem-erase p x b.processes_arrived, v.apart p here),
    )
run_barrier_completes present fresh mode (arrives p) (e ∷ rest) b once v =
    let k = Awaits-arrived mode p (e ∷ rest) b once.0 v in
    let here : mem p b.processes_pending ≡ true = ground (arith, v.waits p, ==_refl p) in
    let busy =
      mem-is_empty (who e) (erase p b.processes_pending)
        (ground (arith, k.waits (who e), ==_refl (who e))) in
    let (answered, q, m) =
      run_barrier_completes present fresh mode e rest (arrived_at p b) once.1 k in
    (
      answered,
      rw (join-arrived present fresh mode p b v.same_mode here, busy) q,
      λ x. ground (arith, m x, mem-insert p x b.processes_arrived),
    )
run_barrier_completes present fresh mode (leaves p) (e ∷ rest) b once v =
    let k = Awaits-left mode p (e ∷ rest) b once.0 v in
    let here : mem p b.processes_pending ≡ true = ground (arith, v.waits p, ==_refl p) in
    let busy =
      mem-is_empty (who e) (erase p b.processes_pending)
        (ground (arith, k.waits (who e), ==_refl (who e))) in
    let (answered, q, m) = run_barrier_completes present fresh mode e rest (left_by p b) once.1 k in
    (
      answered,
      rw (drop-left p b here (v.apart p here), busy) q,
      λ x. ground (arith, m x, mem-erase p x b.processes_arrived, v.apart p here),
    )
