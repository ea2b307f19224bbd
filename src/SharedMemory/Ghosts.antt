-- ===== src/SharedMemory/Ghosts.antt =====
-- allocateSharedMemoryInternal puts the object on the list before it allocates, and a failure leaves
-- it there.
use text.Mathlib.TextPositions.{eq_refl}
use shared_object.Prelude.{ℕ, ◌<◌, String, ◌≡◌, none, some, arith, Error, threw, size_too_small}
use shared_object.Dict.{lookup, dict_laws}
use shared_object.Os.{Os}
use shared_object.SharedObjectClass.{
  SharedObjectClass, Frame, construct, store_handle, refresh_size,
}
use shared_object.SharedObjectClass.Methods.{
  allocate_shared_memory, truncate_and_validate, undo_allocation,
}
use shared_object.SharedMemory.{Process, frame, run_at, allocate_shared_memory_internal}

module _ (os : Os) where
  throw-size :
      (f : Frame os) (e : Error)
      → (allocate_shared_memory os f).0 ≡ threw e
      → (allocate_shared_memory os f).1.this.size ≡ f.this.size
  unfolding allocate_shared_memory truncate_and_validate undo_allocation store_handle refresh_size
  throw-size f e h = ground arith

  -- The object as the failed call leaves it.
  abbrev pub attempt : String → ℕ → Process os → Frame os
  attempt key size p = (allocate_shared_memory os (frame os (construct os key size) p.world)).1

  pub ghost_lookup :
      (key : String) (size : ℕ) (p : Process os)
      → lookup key p.shared_object_list ≡ none
      → lookup key (allocate_shared_memory_internal os key size p).1.shared_object_list
        ≡ some (attempt key size p).this
  unfolding allocate_shared_memory_internal run_at
  ghost_lookup key size p e = grind (arith, dict_laws, eq_refl)

  pub ghost_result :
      (key : String) (size : ℕ) (p : Process os)
      → lookup key p.shared_object_list ≡ none
      → (allocate_shared_memory_internal os key size p).0
        ≡ (allocate_shared_memory os (frame os (construct os key size) p.world)).0
  unfolding allocate_shared_memory_internal run_at
  ghost_result key size p e = grind (arith, dict_laws, eq_refl)

  pub ghost_world :
      (key : String) (size : ℕ) (p : Process os)
      → lookup key p.shared_object_list ≡ none
      → (allocate_shared_memory_internal os key size p).1.world ≡ (attempt key size p).world
  unfolding allocate_shared_memory_internal run_at
  ghost_world key size p e = grind (arith, dict_laws, eq_refl)

  refused :
      (key : String) (size : ℕ) (p : Process os) (o : SharedObjectClass os)
      → lookup key p.shared_object_list ≡ some o
      → o.size < size
      → allocate_shared_memory_internal os key size p ≡ (threw (size_too_small size o.size), p)
  unfolding allocate_shared_memory_internal
  refused key size p o e h = ground arith

  -- Where the allocation of a key that is not on the list throws, a larger one of the same key is
  -- then refused for the size of the first request.
  pub failed_allocation_blocks :
      (key : String) (size larger : ℕ) (p : Process os) (e : Error)
      → lookup key p.shared_object_list ≡ none
      → (allocate_shared_memory_internal os key size p).0 ≡ threw e
      → size < larger
      → (allocate_shared_memory_internal os key larger
          (allocate_shared_memory_internal os key size p).1).0
        ≡ threw (size_too_small larger size)
  unfolding construct
  failed_allocation_blocks key size larger p e absent failed lt = ground (
    arith,
    ghost_lookup key size p absent,
    ghost_result key size p absent,
    throw-size (frame os (construct os key size) p.world) e,
    refused key larger (allocate_shared_memory_internal os key size p).1 (attempt key size p).this,
  )
