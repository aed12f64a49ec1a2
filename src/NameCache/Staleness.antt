-- ===== src/NameCache/Staleness.antt =====
-- An answer that an invalidation overtook is not cached, and an invalidated name is not found.
use sintra.Base.{
  ℕ, ◌+◌, ◌%◌, ◌^◌, ◌<◌, ◌≡◌, refl, ◌≢◌, ==_refl, false, ◌==◌, none, some, List, [], ◌∷◌, length,
  arith,
}
use sintra.NameCache.{
  NameCache, find, erase_name, miss, hit, look_up, store, next_revision, invalidate_name,
  invalidate_instance, clear_names, Invalidation, of_name, of_instance, of_all, invalidate,
  invalidate_all,
}

invalidate-revision :
    (x : Invalidation) (c : NameCache) → (invalidate x c).revision ≡ (c.revision + 1) % 2 ^ 64
unfolding invalidate_name invalidate_instance clear_names next_revision
invalidate-revision (of_name name) c = refl
invalidate-revision (of_instance name iid) c = refl
invalidate-revision of_all c = refl

invalidate_all-revision :
    (xs : List Invalidation) (c : NameCache)
    → c.revision < 2 ^ 64
    → (invalidate_all xs c).revision ≡ (c.revision + length xs) % 2 ^ 64
unfolding invalidate_all
invalidate_all-revision [] c h = omega (arith, h)
invalidate_all-revision (x ∷ xs) c h =
    let e = invalidate-revision x c in
    omega (arith, invalidate_all-revision xs (invalidate x c) (omega (arith, e)), e)

-- A resolver's answer that at least one invalidation overtook, and fewer than 2 ^ 64, is not stored:
-- the cache stays as the invalidations left it, and the answer is asked for again.
pub store-invalidate_all :
    (name resolved revision : ℕ) (x : Invalidation) (xs : List Invalidation) (c : NameCache)
    → c.revision < 2 ^ 64
    → length (x ∷ xs) < 2 ^ 64
    → look_up name c ≡ miss revision
    → store name revision resolved (invalidate_all (x ∷ xs) c) ≡ (none, invalidate_all (x ∷ xs) c)
unfolding store look_up
store-invalidate_all name resolved revision x xs c h few e =
    let k = invalidate_all-revision (x ∷ xs) c h in
    let r : revision ≡ c.revision = ground (arith, e) in
    let f : (revision == (invalidate_all (x ∷ xs) c).revision) ≡ false =
      ground (arith, k, r, h, few) in
    rw f refl

-- Without an invalidation in between, the answer is returned, and one other than the invalid id is
-- what the next lookup finds.
pub look_up-store :
    (name resolved revision : ℕ) (c : NameCache)
    → resolved ≢ 0
    → look_up name c ≡ miss revision
    → ((store name revision resolved c).0 ≡ some resolved)
      × (look_up name (store name revision resolved c).1 ≡ hit resolved)
unfolding store look_up
look_up-store name resolved revision c h e = ground (arith, h, e, ==_refl name)

find-erase_name : (name : ℕ) (xs : List (ℕ × ℕ)) → find name (erase_name name xs) ≡ none
find-erase_name name [] = refl
find-erase_name name ((n, iid) ∷ xs) = ground (arith, find-erase_name name xs)

-- After `invalidate_name` the name is not found.
pub look_up-invalidate_name :
    (name : ℕ) (c : NameCache)
    → look_up name (invalidate_name name c) ≡ miss (invalidate_name name c).revision
unfolding look_up invalidate_name
look_up-invalidate_name name c = rw (find-erase_name name c.names) refl
