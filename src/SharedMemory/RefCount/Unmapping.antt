-- ===== src/SharedMemory/RefCount/Unmapping.antt =====
-- unmapSharedMemory keeps the counters and the pointers of its callers right.
use text.Mathlib.TextPositions.{eq_refl}
use shared_object.Prelude.{
  ℕ, ◌<◌, String, ◌≡◌, some, pos, arith, Option-cases, inl, inr, ◌⊎◌, eq_iff,
}
use shared_object.Dict.{lookup}
use shared_object.Os.{Os}
use shared_object.SharedObjectClass.{SharedObjectClass}
use shared_object.SharedObjectClass.Validity.{IsValid}
use shared_object.SharedMemory.{Process, counter_at, unmap_shared_memory_internal}
use shared_object.SharedMemory.RefCount.Objects.{Holds}
use shared_object.SharedMemory.RefCount.Mappings.{
  Mappings, count, remove_one, AllHeld, Tracks, count-absent, AllHeld-change, AllHeld-drop,
  AllHeld-remove_one, count-remove_one,
}
use shared_object.SharedMemory.RefCount.Steps.{unmap_same, unmap_counter, unmap_lookup}

module _ (os : Os) where
  -- A caller that holds a mapping has its object in the list.
  held_lookup :
      (p : Process os) (key : String) (live : Mappings os)
      → AllHeld os p live
      → 0 < count os key live
      → (o : SharedObjectClass os) × (lookup key p.shared_object_list ≡ some o)
  held_lookup p key live h pos_count = elim (Option-cases (lookup key p.shared_object_list)) [
    | inl e ↦ absurd (omega (arith, count-absent os p key live h e))
    | inr (o, e) ↦ (o, e)
  ]

  unmap-counted :
      (key : String) (p : Process os) (live : Mappings os) (j : String)
      → Tracks os p live
      → 0 < count os key live
      → counter_at os j (unmap_shared_memory_internal os key p)
        ≡ pos (count os j (remove_one os key live))
  unmap-counted key p live j t h =
      let (o, e) = held_lookup p key live t.held h in
      ground (
        arith,
        unmap_counter os key p j o e,
        t.counted key,
        t.counted j,
        count-remove_one os key j live,
        eq_iff key j,
      )

  unmap-held :
      (key : String) (p : Process os) (live : Mappings os)
      → Tracks os p live
      → 0 < count os key live
      → AllHeld os (unmap_shared_memory_internal os key p) (remove_one os key live)
  unmap-held key p live t h = elim (one_or_more (count os key live) h) [
    | inl one ↦
        AllHeld-drop os p q key (remove_one os key live) (unmap_same os key p)
          (ground (arith, count-remove_one os key key live, eq_refl key)) rest
    | inr more ↦
        AllHeld-change os p q key (remove_one os key live) (unmap_same os key p) (stays more) rest
  ]
    where
      q : Process os
      q = unmap_shared_memory_internal os key p

      rest : AllHeld os p (remove_one os key live)
      rest = AllHeld-remove_one os p key live t.held

      one_or_more : (n : ℕ) → 0 < n → (n ≡ 1) ⊎ (1 < n)
      one_or_more n h = omega arith

      found : (o : SharedObjectClass os) × (lookup key p.shared_object_list ≡ some o)
      found = held_lookup p key live t.held h

      stays :
          1 < count os key live
          → (a : os.Address) → Holds os (lookup key p.shared_object_list) a
          → Holds os (lookup key q.shared_object_list) a
      stays more a held =
          ground (arith, unmap_lookup os key p found.0 found.1, t.counted key, found.1)

  unmapped-IsValid :
      (key : String) (p : Process os) (live : Mappings os)
      → Tracks os p live
      → 0 < count os key live
      → (j : String) (o : SharedObjectClass os)
      → lookup j (unmap_shared_memory_internal os key p).shared_object_list ≡ some o
      → IsValid os o
  unmapped-IsValid key p live t h j o e =
      let (o', e') = held_lookup p key live t.held h in
      ground (
        arith,
        unmap_lookup os key p o' e',
        unmap_same os key p j,
        t.valid j o,
        t.valid key o',
        eq_iff key j,
      )

  pub unmap-Tracks :
      (key : String) (p : Process os) (live : Mappings os)
      → Tracks os p live
      → 0 < count os key live
      → Tracks os (unmap_shared_memory_internal os key p) (remove_one os key live)
  unmap-Tracks key p live t h = record {
    counted = λ j. unmap-counted key p live j t h;
    held = unmap-held key p live t h;
    valid = unmapped-IsValid key p live t h;
  }
