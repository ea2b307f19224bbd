-- ===== src/SharedMemory/RefCount/Mapping.antt =====
-- mapSharedMemory keeps the counters and the pointers of its callers right.
use text.Mathlib.TextPositions.{eq_refl}
use shared_object.Prelude.{
  ℕ, String, ◌≡◌, refl, false, some, ◌∷◌, pos, arith, Option-cases, inl, inr, str_eq, eq_iff,
  Result, ok, threw, aborted,
}
use shared_object.Dict.{lookup}
use shared_object.Os.{Os}
use shared_object.SharedObjectClass.{SharedObjectClass}
use shared_object.SharedObjectClass.Validity.{IsValid, construct-IsValid, map-IsValid}
use shared_object.SharedMemory.{Process, counter_at, map_shared_memory_internal}
use shared_object.SharedMemory.RefCount.Objects.{Holds, map-Holds, map_ok-Holds}
use shared_object.SharedMemory.RefCount.Mappings.{
  Mappings, count, AllHeld, Tracks, count-absent, AllHeld-change,
}
use shared_object.SharedMemory.RefCount.Steps.{
  target, map_result, map_lookup, map_counter_ne, map_counter_self,
}

module _ (os : Os) where
  -- The object that an operation works on is valid.
  pub target-IsValid :
      (key : String) (size : ℕ) (p : Process os) (live : Mappings os)
      → Tracks os p live
      → IsValid os (target os key size p).this
  target-IsValid key size p live t = elim (Option-cases (lookup key p.shared_object_list)) [
    | inl e ↦ rw e (construct-IsValid os key size)
    | inr (o, e) ↦ rw e (t.valid key o e)
  ]

  -- The mappings of the callers after a call of mapSharedMemory.
  abbrev pub after_map : String → Result os.Address → Mappings os → Mappings os
  after_map key (ok a) live = (key, a) ∷ live
  after_map key _ live = live

  map-counted :
      (key : String) (p : Process os) (live : Mappings os) (j : String)
      → Tracks os p live
      → counter_at os j (map_shared_memory_internal os key p).1
        ≡ pos (count os j (after_map key (map_shared_memory_internal os key p).0 live))
  map-counted key p live j t = ground (
    arith,
    map_result os key p,
    map_counter_ne os key p j,
    eq_iff key j,
    t.counted j,
    t.counted key,
    map_counter_self os key p,
    count-absent os p key live t.held,
  )

  map_keeps_held :
      (key : String) (p : Process os) (a : os.Address)
      → Holds os (lookup key p.shared_object_list) a
      → Holds os (lookup key (map_shared_memory_internal os key p).1.shared_object_list) a
  map_keeps_held key p a h =
      ground (arith, map_lookup os key p key, eq_refl key, map-Holds os (target os key 0 p) a)

  map_same :
      (key : String) (p : Process os) (j : String)
      → str_eq key j ≡ false
      → lookup j (map_shared_memory_internal os key p).1.shared_object_list
        ≡ lookup j p.shared_object_list
  map_same key p j h = ground (arith, map_lookup os key p j)

  map-held :
      (key : String) (p : Process os) (live : Mappings os)
      → Tracks os p live
      → AllHeld os
          (map_shared_memory_internal os key p).1
          (after_map key (map_shared_memory_internal os key p).0 live)
  map-held key p live t = go (map_shared_memory_internal os key p).0 refl
    where
      q : Process os
      q = (map_shared_memory_internal os key p).1

      go :
          (r : Result os.Address)
          → (map_shared_memory_internal os key p).0 ≡ r
          → AllHeld os q (after_map key r live)
      go (ok a) e = (
        ground (
          arith,
          map_lookup os key p key,
          eq_refl key,
          map_result os key p,
          map_ok-Holds os (target os key 0 p) a (target-IsValid key 0 p live t),
        ),
        AllHeld-change os p q key live (map_same key p) (map_keeps_held key p) t.held,
      )
      go (threw x) e = AllHeld-change os p q key live (map_same key p) (map_keeps_held key p) t.held
      go (aborted x) e =
          AllHeld-change os p q key live (map_same key p) (map_keeps_held key p) t.held

  mapped-IsValid :
      (key : String) (p : Process os) (live : Mappings os)
      → Tracks os p live
      → (j : String) (o : SharedObjectClass os)
      → lookup j (map_shared_memory_internal os key p).1.shared_object_list ≡ some o
      → IsValid os o
  mapped-IsValid key p live t j o e = ground (
    arith,
    map_lookup os key p j,
    t.valid j o,
    map-IsValid os (target os key 0 p) (target-IsValid key 0 p live t),
  )

  pub map-Tracks :
      (key : String) (p : Process os) (live : Mappings os)
      → Tracks os p live
      → Tracks os
          (map_shared_memory_internal os key p).1
          (after_map key (map_shared_memory_internal os key p).0 live)
  map-Tracks key p live t = record {
    counted = λ j. map-counted key p live j t;
    held = map-held key p live t;
    valid = mapped-IsValid key p live t;
  }
