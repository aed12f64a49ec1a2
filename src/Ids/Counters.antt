-- ===== src/Ids/Counters.antt =====
-- The counters hand out ids that differ and are of the right kind.
use sintra.Base.{
  ℕ, ◌+◌, ◌<◌, ◌≤◌, ◌^◌, ◌≡◌, ◌≢◌, refl, true, false, Option, none, some, arith, List, [], ◌∷◌,
  zero, suc,
}
use sintra.Ids.{
  decompose_instance, compose_instance, get_process_index, make_instance_id,
  make_service_instance_id, make_process_instance_id, is_service_instance,
  is_valid_process_instance_id, num_reserved_service_instances,
}

-- The results of `n` calls that pass one counter on.
unfoldable pub calls : (ℕ → Option ℕ × ℕ) → ℕ → ℕ → List (Option ℕ)
calls make zero counter = []
calls make (suc n) counter = (make counter).0 ∷ calls make n (make counter).1

-- An id is not among the results.
abbrev pub Absent : ℕ → List (Option ℕ) → Type 0
Absent x [] = Unit {0}
Absent x (none ∷ rest) = Absent x rest
Absent x (some y ∷ rest) = (x ≢ y) × Absent x rest

-- No id is handed out twice.
abbrev pub AllDifferent : List (Option ℕ) → Type 0
AllDifferent [] = Unit {0}
AllDifferent (none ∷ rest) = AllDifferent rest
AllDifferent (some x ∷ rest) = Absent x rest × AllDifferent rest

-- An id stands for the counter that it was made from.
record Numbered (make : ℕ → Option ℕ × ℕ) : Type 0 where
  counts : (k : ℕ) → k + 1 < 2 ^ 64 → (make k).1 ≡ k + 1
  apart : (j k x y : ℕ) → j < k → (make j).0 ≡ some x → (make k).0 ≡ some y → x ≢ y

calls-Absent :
    (make : ℕ → Option ℕ × ℕ) (n j k x : ℕ)
    → Numbered make
    → k + n < 2 ^ 64
    → j < k
    → (make j).0 ≡ some x
    → Absent x (calls make n k)
unfolding calls
calls-Absent make zero j k x v b h e = tt
calls-Absent make (suc n) j k x v b h e =
    let counted = v.counts k (omega (arith, b)) in
    go (make k).0 refl (
      calls-Absent make n j (make k).1 x v (omega (arith, b, counted)) (omega (arith, h, counted))
        e)
  where
    go :
        (o : Option ℕ)
        → (make k).0 ≡ o
        → Absent x (calls make n (make k).1)
        → Absent x (o ∷ calls make n (make k).1)
    go none q r = r
    go (some y) q r = (v.apart j k x y h e q, r)

calls-AllDifferent :
    (make : ℕ → Option ℕ × ℕ) (n k : ℕ)
    → Numbered make
    → k + n < 2 ^ 64
    → AllDifferent (calls make n k)
unfolding calls
calls-AllDifferent make zero k v b = tt
calls-AllDifferent make (suc n) k v b =
    go (make k).0 refl (calls-AllDifferent make n (make k).1 v (omega (arith, b, counted)))
  where
    counted : (make k).1 ≡ k + 1
    counted = v.counts k (omega (arith, b))

    go :
        (o : Option ℕ)
        → (make k).0 ≡ o
        → AllDifferent (calls make n (make k).1)
        → AllDifferent (o ∷ calls make n (make k).1)
    go none q r = r
    go (some y) q r = (
      calls-Absent make n k (make k).1 y v (omega (arith, b, counted)) (omega (arith, counted)) q,
      r,
    )

instance-Numbered : (mproc_id : ℕ) → Numbered (make_instance_id mproc_id)
unfolding make_instance_id compose_instance
instance-Numbered mproc_id = record {
  counts = λ k b. ground arith;
  apart = λ j k x y h e q. ground arith;
}

service-Numbered : (mproc_id : ℕ) → Numbered (make_service_instance_id mproc_id)
unfolding make_service_instance_id compose_instance
service-Numbered mproc_id = record {
  counts = λ k b. ground arith;
  apart = λ j k x y h e q. ground arith;
}

process-Numbered : Numbered make_process_instance_id
unfolding make_process_instance_id compose_instance
process-Numbered = record { counts = λ k b. ground arith; apart = λ j k x y h e q. ground arith }

-- As long as its 64-bit counter does not wrap, that is with the counter's start and the number of
-- calls below 2 ^ 64 together, each of the three makers never hands out an id twice, also past its
-- limit.
pub makers-AllDifferent :
    (mproc_id n i s p : ℕ)
    → i + n < 2 ^ 64
    → s + n < 2 ^ 64
    → p + n < 2 ^ 64
    → AllDifferent (calls (make_instance_id mproc_id) n i)
      × AllDifferent (calls (make_service_instance_id mproc_id) n s)
      × AllDifferent (calls make_process_instance_id n p)
makers-AllDifferent mproc_id n i s p hi hs hp = (
  calls-AllDifferent (make_instance_id mproc_id) n i (instance-Numbered mproc_id) hi,
  calls-AllDifferent (make_service_instance_id mproc_id) n s (service-Numbered mproc_id) hs,
  calls-AllDifferent make_process_instance_id n p process-Numbered hp,
)

-- From counters at or past their starts, an id made for a 64-bit process id belongs to that
-- process; an instance id is not a service id and a service id is one; a process id is valid.
pub makers-kinds :
    (mproc_id i s p x y z : ℕ)
    → mproc_id < 2 ^ 64
    → 2 + num_reserved_service_instances ≤ i
    → 2 ≤ s
    → 2 ≤ p
    → (make_instance_id mproc_id i).0 ≡ some x
    → (make_service_instance_id mproc_id s).0 ≡ some y
    → (make_process_instance_id p).0 ≡ some z
    → (get_process_index x ≡ get_process_index mproc_id)
      × (is_service_instance x ≡ false)
      × (get_process_index y ≡ get_process_index mproc_id)
      × (is_service_instance y ≡ true)
      × (is_valid_process_instance_id z ≡ true)
unfolding make_instance_id make_service_instance_id make_process_instance_id compose_instance
    decompose_instance get_process_index is_service_instance is_valid_process_instance_id
makers-kinds mproc_id i s p x y z h hi hs hp ei es ep =
    (ground arith, ground arith, ground arith, ground arith, ground arith)
