-- ===== src/Tests/NameCache.antt =====
-- A cache that knows the name 8 and is asked for the name 7.
use sintra.Base.{◌≡◌, refl, none, some, [], ◌∷◌, arith}
use sintra.NameCache.{NameCache, look_up, store, hit, of_name, invalidate_all}
use sintra.NameCache.Staleness.{store-invalidate_all, look_up-store}

abbrev knows_eight : NameCache
knows_eight = record { names = (8, 90) ∷ []; revision = 3 }

store-invalidate_all_example :
    store 7 3 91 (invalidate_all (of_name 7 ∷ []) knows_eight)
    ≡ (none, invalidate_all (of_name 7 ∷ []) knows_eight)
unfolding look_up
store-invalidate_all_example =
    store-invalidate_all 7 91 3 (of_name 7) [] knows_eight (omega arith) (omega arith) refl

look_up-store_example :
    ((store 7 3 91 knows_eight).0 ≡ some 91) × (look_up 7 (store 7 3 91 knows_eight).1 ≡ hit 91)
unfolding look_up
look_up-store_example = look_up-store 7 91 3 knows_eight (λ e. omega (arith, e)) refl
