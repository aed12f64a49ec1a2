-- ===== src/Ids/Locality.antt =====
-- `is_local` against the table of wildcards that id_types.h gives.
use sintra.Base.{ℕ, ◌-◌, ◌<◌, ◌≤◌, ◌^◌, ◌≡◌, ◌≢◌, ◌↔◌, true, arith, refl, ℕ_discrete}
use mathlib.Core.Path.{subst}
use sintra.Ids.Parts.{compose-decompose}
use sintra.Ids.{
  decompose_instance, get_process_index, is_local, is_local_instance, excluded_process,
  max_process_index, all_processes_wildcard,
}

-- The processes that a process part of 8 bits addresses, read from the table: a process by its
-- index, the local one by 1, every one by ~0, and by ~a every one but `a`, where 1 stands for the
-- local process.
pub data Addresses (here : ℕ) : ℕ → ℕ → Type 0 where
  one : {a : ℕ} → 1 < a → a ≤ max_process_index → Addresses here a a
  local_process : Addresses here 1 here
  all : {q : ℕ} → Addresses here all_processes_wildcard q
  all_remote : {q : ℕ} → q ≢ here → Addresses here 254 q
  all_but : {a q : ℕ} → 1 < a → a ≤ max_process_index → q ≢ a → Addresses here (255 - a) q

Addresses-is_local :
    {here p q : ℕ} (mproc_id iid : ℕ)
    → Addresses here p q
    → get_process_index mproc_id ≡ here
    → q ≡ here
    → (decompose_instance iid).process ≡ p
    → is_local mproc_id iid ≡ true
unfolding is_local is_local_instance excluded_process
Addresses-is_local mproc_id iid (one lo hi) h e k = ground arith
Addresses-is_local mproc_id iid local_process h e k = ground arith
Addresses-is_local mproc_id iid all h e k = ground arith
Addresses-is_local mproc_id iid (all_remote ne) h e k = absurd (ne e)
Addresses-is_local mproc_id iid (all_but lo hi ne) h e k = ground arith

is_local-Addresses :
    (here mproc_id iid p : ℕ)
    → 1 < here
    → here ≤ max_process_index
    → get_process_index mproc_id ≡ here
    → (decompose_instance iid).process ≡ p
    → p < 2 ^ 8
    → is_local mproc_id iid ≡ true
    → Addresses here p here
unfolding is_local is_local_instance excluded_process
is_local-Addresses here mproc_id iid p lo hi e k small t = elim (ℕ_discrete p 1) [
  | yes q ↦ rw q local_process
  | no n1 ↦ elim (ℕ_discrete p here) [
    | yes q ↦ rw q (one lo hi)
    | no n2 ↦ elim (ℕ_discrete p 255) [
      | yes q ↦ rw q all
      | no n3 ↦
          let a = 255 - p in
          let low : 1 < a = ground arith in
          let high : a ≤ max_process_index = ground arith in
          let other : here ≢ a = ground arith in
          let back : 255 - a ≡ p = omega arith in
          subst (λ (x : ℕ). Addresses here x here) back (all_but low high other)
    ]
  ]
]

-- For a process whose own index is from 2 to 127, and an id of 64 bits, `is_local` is true exactly
-- if the table of wildcards lets the id's process part address the own process.
pub is_local_lem :
    (here mproc_id iid : ℕ)
    → 1 < here
    → here ≤ max_process_index
    → iid < 2 ^ 64
    → get_process_index mproc_id ≡ here
    → (is_local mproc_id iid ≡ true) ↔ Addresses here (decompose_instance iid).process here
is_local_lem here mproc_id iid lo hi h e = (
  λ t.
      is_local-Addresses here mproc_id iid (decompose_instance iid).process lo hi e refl
        (compose-decompose iid h).1 t,
  λ a. Addresses-is_local mproc_id iid a e refl refl,
)
