-- ===== src/Mutex/Kept.antt =====
-- What a thread knows of the words stays true when others act.
use sintra.Base.{ℕ, ◌≡◌, ◌⊎◌, inl, inr, refl, ◌∙◌, true}
use sintra.Mutex.{
  Words, Pc, idle, publishing, checked, stamped, tupled, owning, critical, recovering_from,
  condemned, leaving,
}
use sintra.Mutex.Invariant.{holds, owns, Identities, Tuple, Stamped}
use sintra.Mutex.Moves.{PlaceOf}

module _ (pid_of nonce_of stamp_of process_of tid_of : ℕ → ℕ)
    (ids : Identities pid_of nonce_of stamp_of process_of tid_of) where
  abbrev Stands : ℕ → Words → Pc → Type 0
  Stands t w p = PlaceOf pid_of nonce_of stamp_of process_of tid_of ids t w p

  abbrev pub OwnTuple : ℕ → Words → Type 0
  OwnTuple t w = Tuple pid_of nonce_of stamp_of process_of tid_of t w

  abbrev pub OwnStamp : ℕ → Words → Type 0
  OwnStamp t w = Stamped pid_of nonce_of stamp_of process_of tid_of t w

  -- The words of the owner are as they were, but that the owner may be gone.
  abbrev pub Same : Words → Words → Type 0
  Same w w' =
      (w'.owner ≡ w.owner)
      × (w'.owner_start_stamp ≡ w.owner_start_stamp)
      × (w'.owner_instance ≡ w.owner_instance)

  abbrev pub SameOrGone : Words → Words → Type 0
  SameOrGone w w' =
      ((w'.owner ≡ w.owner) ⊎ (w'.owner ≡ 0))
      × (w'.owner_start_stamp ≡ w.owner_start_stamp)
      × (w'.owner_instance ≡ w.owner_instance)

  gone : (w w' : Words) → w.owner ≡ 0 → SameOrGone w w' → w'.owner ≡ 0
  gone w w' z g = elim g.0 [ inl e ↦ e ∙ z | inr e ↦ e ]

  stamp_kept :
      (u : ℕ) (w w' : Words)
      → w'.owner_start_stamp ≡ w.owner_start_stamp
      → (w.owner_start_stamp ≡ 0) ⊎ (w.owner_start_stamp ≡ stamp_of (process_of u))
      → (w'.owner_start_stamp ≡ 0) ⊎ (w'.owner_start_stamp ≡ stamp_of (process_of u))
  stamp_kept u w w' e (inl z) = inl (e ∙ z)
  stamp_kept u w w' e (inr z) = inr (e ∙ z)

  Stamped-kept : (u : ℕ) (w w' : Words) → OwnStamp u w → SameOrGone w w' → OwnStamp u w'
  Stamped-kept u w w' v g = record {
    no_owner = gone w w' v.no_owner g;
    own_stamp = stamp_kept u w w' g.1 v.own_stamp;
  }

  Tuple-kept : (u : ℕ) (w w' : Words) → OwnTuple u w → Same w w' → OwnTuple u w'
  Tuple-kept u w w' v g = record {
    is_owner = g.0 ∙ v.is_owner;
    is_instance = g.2 ∙ v.is_instance;
    is_stamp = stamp_kept u w w' g.1 v.is_stamp;
  }

  -- What a thread knows stays true.
  pub Stands-kept :
      (u : ℕ) (w w' : Words) (q : Pc)
      → Stands u w q
      → (owns q ≡ true → Same w w')
      → (holds q ≡ true → SameOrGone w w')
      → Stands u w' q
  Stands-kept u w w' idle v o g = tt
  Stands-kept u w w' publishing v o g = tt
  Stands-kept u w w' checked v o g = gone w w' v (g refl)
  Stands-kept u w w' stamped v o g = Stamped-kept u w w' v (g refl)
  Stands-kept u w w' tupled v o g = record {
    stamp = Stamped-kept u w w' v.stamp (g refl);
    own_instance = (g refl).2 ∙ v.own_instance;
  }
  Stands-kept u w w' owning v o g = Tuple-kept u w w' v (o refl)
  Stands-kept u w w' critical v o g = Tuple-kept u w w' v (o refl)
  Stands-kept u w w' (recovering_from b) v o g = tt
  Stands-kept u w w' (condemned b) v o g = tt
  Stands-kept u w w' leaving v o g = tt
