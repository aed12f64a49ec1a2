-- ===== src/Ring/Stack/Free.antt =====
-- A stack as a set of slot numbers: each stands in it at most once, and nothing else does. Such a
-- stack never overflows.
use sintra.Base.{ℕ, ◌<◌, ◌≤◌, ◌≡◌, true, false, some, ◌==◌, arith, if◌then◌else◌, ==_refl}
use sintra.Base.Sums.{sum_below, sum_below-change, sum_below-lt}
use sintra.Ring.Stack.{IndexStack, push, contains, remove_value}
use sintra.Ring.Stack.Bag.{occurrences, Fits, push_lem, remove_value_lem, contains-occurrences}

pub record IsFree (n : ℕ) (s : IndexStack) : Type 0 where
  pub fits : Fits n s
  pub once : (u : ℕ) → occurrences s u ≤ 1
  pub all : sum_below n (occurrences s) ≡ s.size

-- A slot that is not on the stack finds room, and is on it afterwards.
pub push-IsFree :
    (n v : ℕ) {s : IndexStack}
    → IsFree n s
    → v < n
    → contains s v ≡ false
    → (t : IndexStack) × (push n v s ≡ some t)
      × IsFree n t
      × ((u : ℕ) → contains t u ≡ (if v == u then true else contains s u))
push-IsFree n v {s} f h e =
    let absent : occurrences s v ≡ 0 = ground (arith, contains-occurrences s v) in
    let room : s.size < n =
      omega (arith, f.all, sum_below-lt n v (occurrences s) h absent (λ u _. f.once u)) in
    let (t, pushed, fits, grown, count) = push_lem n v f.fits room in
    (
      t,
      pushed,
      record {
        fits = fits;
        once = λ u. ground (arith, count u, f.once u, absent);
        all = ground (
          arith,
          f.all,
          grown,
          count v,
          ==_refl v,
          sum_below-change n v (occurrences s) (occurrences t) h (λ u ne. ground (arith, count u)),
        );
      },
      λ u. ground (arith, count u, contains-occurrences s u, contains-occurrences t u),
    )

-- Taking a slot off keeps the set.
pub remove_value-IsFree :
    (n v : ℕ) {s : IndexStack}
    → IsFree n s
    → v < n
    → IsFree n (remove_value v s).1 × (contains (remove_value v s).1 v ≡ false)
remove_value-IsFree n v {s} f h =
    let t = (remove_value v s).1 in
    let (found, took) = remove_value_lem n v f.fits in
    (
      record {
        fits = took.fits;
        once = λ u. ground (arith, took.counted u, f.once u);
        all = ground (
          arith,
          f.all,
          took.shrunk,
          took.counted v,
          ==_refl v,
          sum_below-change n v (occurrences s) (occurrences t) h
              (λ u ne. ground (arith, took.counted u)),
        );
      },
      ground (
        arith,
        found,
        took.counted v,
        f.once v,
        contains-occurrences s v,
        contains-occurrences t v,
      ),
    )
