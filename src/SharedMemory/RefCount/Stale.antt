-- ===== src/SharedMemory/RefCount/Stale.antt =====
-- A counter that outlives its object: unmapSharedMemoryInternal counts down also where nothing was
-- mapped, and neither it nor freeSharedMemoryInternal then forgets the counter.
use text.Mathlib.TextPositions.{eq_refl}
use shared_object.Prelude.{ℕ, String, ◌≡◌, ◌≢◌, increment, none, some, pos, negsuc, arith, ok}
use shared_object.Dict.{lookup, dict_laws}
use shared_object.Os.{Os}
use shared_object.SharedObjectClass.{SharedObjectClass}
use shared_object.SharedMemory.{
  Process, counter_at, map_shared_memory_internal, allocate_shared_memory_internal,
  unmap_shared_memory_internal, free_shared_memory_internal, run_at,
}
use shared_object.SharedMemory.RefCount.Steps.{
  mapping, map_result, map_lookup, map_counter_self, allocate_counters, unmap_counter, unmap_lookup,
}

module _ (os : Os) (key : String) where
  free_keeps_counter :
      (p : Process os)
      → lookup key p.shared_object_list ≡ none
      → counter_at os key (free_shared_memory_internal os key p) ≡ counter_at os key p
  unfolding free_shared_memory_internal
  free_keeps_counter p e = ground arith

  -- The state after unmapping an object that was allocated and never mapped, and freeing its memory.
  abbrev poisoned : Process os → Process os
  poisoned p = free_shared_memory_internal os key (unmap_shared_memory_internal os key p)

  poisoned-counter :
      (p : Process os) (o : SharedObjectClass os)
      → lookup key p.shared_object_list ≡ some o
      → counter_at os key p ≡ pos 0
      → counter_at os key (poisoned p) ≡ negsuc 0
  poisoned-counter p o e c = ground (
    arith,
    free_keeps_counter (unmap_shared_memory_internal os key p),
    unmap_lookup os key p o e,
    unmap_counter os key p key o e,
    eq_refl key,
  )

  allocated_in_list :
      (size : ℕ) (p : Process os)
      → lookup key (allocate_shared_memory_internal os key size p).1.shared_object_list ≢ none
  unfolding allocate_shared_memory_internal run_at
  allocated_in_list size p = grind (arith, dict_laws, eq_refl)

  -- one map from a known counter
  map_counts :
      (p : Process os) (a : os.Address)
      → lookup key p.shared_object_list ≢ none
      → (map_shared_memory_internal os key p).0 ≡ ok a
      → (counter_at os key (map_shared_memory_internal os key p).1
          ≡ increment (counter_at os key p))
        × (lookup key (map_shared_memory_internal os key p).1.shared_object_list
            ≡ some (mapping os key p).1.this)
  map_counts p a present e =
      ground (
        arith,
        map_result os key p,
        map_counter_self os key p,
        map_lookup os key p key,
        eq_refl key,
      )

  stale_unmap :
      (p : Process os) (a b : os.Address)
      → lookup key p.shared_object_list ≢ none
      → counter_at os key p ≡ negsuc 0
      → (map_shared_memory_internal os key p).0 ≡ ok a
      → (map_shared_memory_internal os key (map_shared_memory_internal os key p).1).0 ≡ ok b
      → lookup key
          (unmap_shared_memory_internal os key
            (map_shared_memory_internal os key
              (map_shared_memory_internal os key p).1).1).shared_object_list
        ≡ none
  stale_unmap p a b present c ra rb = ground (
    arith,
    map_counts p a present ra,
    map_counts p₁ b,
    unmap_lookup os key p₂ (mapping os key p₁).1.this,
  )
    where
      p₁ : Process os
      p₁ = (map_shared_memory_internal os key p).1

      p₂ : Process os
      p₂ = (map_shared_memory_internal os key p₁).1

  -- The process in which the key is allocated anew, after it was allocated, unmapped and freed.
  abbrev pub reallocated : ℕ → Process os → Process os
  reallocated size p = (allocate_shared_memory_internal os key size (poisoned p)).1

  -- An object on the list whose counter is 0 is unmapped, its memory is freed, and the key is
  -- allocated anew. Where the next two mappings succeed, the first unmap after them takes the
  -- object off the list.
  pub first_unmap_drops_object :
      (p : Process os) (o : SharedObjectClass os) (size : ℕ) (a b : os.Address)
      → lookup key p.shared_object_list ≡ some o
      → counter_at os key p ≡ pos 0
      → (map_shared_memory_internal os key (reallocated size p)).0 ≡ ok a
      → (map_shared_memory_internal os key
          (map_shared_memory_internal os key (reallocated size p)).1).0
        ≡ ok b
      → lookup key
          (unmap_shared_memory_internal os key
            (map_shared_memory_internal os key
              (map_shared_memory_internal os key (reallocated size p)).1).1).shared_object_list
        ≡ none
  first_unmap_drops_object p o size a b e c =
      stale_unmap (reallocated size p) a b (allocated_in_list size (poisoned p))
        (ground (arith, allocate_counters os key size (poisoned p), poisoned-counter p o e c))
