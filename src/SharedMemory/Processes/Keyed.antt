-- ===== src/SharedMemory/Processes/Keyed.antt =====
-- Each object on the list of a process is the one of its key, whatever the process calls.
use shared_object.Prelude.{
  ℕ, String, ◌≡◌, refl, some, arith, eq_iff, Bool, Option-cases, inl, inr, Result, ok, threw,
  aborted,
}
use shared_object.Dict.{lookup, lookup-insert, lookup-erase}
use shared_object.Os.{Os}
use shared_object.SharedObjectClass.{
  SharedObjectClass, Frame, construct, store_handle, refresh_size, open_shared_memory_handle,
}
use shared_object.SharedObjectClass.Methods.{
  allocate_shared_memory, map_shared_memory, truncate_and_validate, undo_allocation, open_if_needed,
  create_region, undo_mapping,
}
use shared_object.SharedMemory.{
  Process, allocate_shared_memory_internal, map_shared_memory_internal,
  unmap_shared_memory_internal, free_shared_memory_internal, drop_object,
  get_shared_memory_size_internal,
}
use shared_object.SharedMemory.Keys.{get_key}
use shared_object.SharedMemory.NextId.{get_next_id}
use shared_object.SharedMemory.Public as Public
use shared_object.SharedMemory.RefCount.Steps.{target, map_lookup, allocate_same, allocate_lookup}
use shared_object.SharedMemory.Processes.{PublicCall, perform}
use shared_object.SharedMemory.Processes as Processes
use shared_object.SharedMemory.RefCount.Invariant.{chosen, after_choice, allocated_as}

module _ (os : Os) where
  abbrev pub Keyed : Process os → Type 0
  Keyed p =
      (key : String) (o : SharedObjectClass os)
      → lookup key p.shared_object_list ≡ some o
      → o.key ≡ key

  map-key : (f : Frame os) → (map_shared_memory os f).1.this.key ≡ f.this.key
  unfolding map_shared_memory open_if_needed create_region undo_mapping open_shared_memory_handle
  map-key f = ground arith

  allocate-key : (f : Frame os) → (allocate_shared_memory os f).1.this.key ≡ f.this.key
  unfolding allocate_shared_memory truncate_and_validate undo_allocation store_handle refresh_size
  allocate-key f = ground arith

  target-key :
      (key : String) (size : ℕ) (p : Process os) → Keyed p → (target os key size p).this.key ≡ key
  unfolding construct
  target-key key size p h = elim (Option-cases (lookup key p.shared_object_list)) [
    | inl e ↦ rw e refl
    | inr (o, e) ↦ rw e (h key o e)
  ]

  map-Keyed :
      (key : String) (p : Process os) → Keyed p → Keyed (map_shared_memory_internal os key p).1
  map-Keyed key p h k o e = ground (
    arith,
    map_lookup os key p k,
    map-key (target os key 0 p),
    target-key key 0 p h,
    h k o,
    eq_iff key k,
  )

  allocate-Keyed :
      (key : String) (size : ℕ) (p : Process os)
      → Keyed p
      → Keyed (allocate_shared_memory_internal os key size p).1
  allocate-Keyed key size p h k o e = ground (
    arith,
    allocate_same os key size p k,
    allocate_lookup os key size p,
    allocate-key (target os key size p),
    target-key key size p h,
    h k o,
    eq_iff key k,
  )

  unmap-Keyed :
      (key : String) (p : Process os) → Keyed p → Keyed (unmap_shared_memory_internal os key p)
  unfolding unmap_shared_memory_internal drop_object
  unmap-Keyed key p h k o e = grind (arith, lookup-erase, eq_iff, h k o)

  free-Keyed :
      (key : String) (p : Process os) → Keyed p → Keyed (free_shared_memory_internal os key p)
  unfolding free_shared_memory_internal
  free-Keyed key p h k o e = grind (arith, lookup-erase, h k o)

  owning-Keyed :
      (id : String) (own : Bool) (p : Process os)
      → Keyed p
      → Keyed (Public.set_auto_release_after_use os id own p).1
  unfolding Public.set_auto_release_after_use
  owning-Keyed id own p h k o e = grind (arith, lookup-insert, eq_iff, h k o, h (get_key os id))

  -- Calls that leave the list alone
  same_list : (p q : Process os) → q.shared_object_list ≡ p.shared_object_list → Keyed p → Keyed q
  same_list p q e h k o at = h k o (rw (← e) at)

  next_id_keeps : (p : Process os) → (get_next_id os p).1.shared_object_list ≡ p.shared_object_list
  unfolding get_next_id
  next_id_keeps p = ground arith

  size_keeps :
      (key : String) (p : Process os)
      → (get_shared_memory_size_internal os key p).1.shared_object_list ≡ p.shared_object_list
  unfolding get_shared_memory_size_internal
  size_keeps key p = ground arith

  pub chosen_keeps :
      (id : String) (p : Process os) → (chosen os id p).1.shared_object_list ≡ p.shared_object_list
  unfolding chosen
  chosen_keeps id p = ground (arith, next_id_keeps p)

  allocating-Keyed :
      (size : ℕ) (id : String) (p : Process os)
      → Keyed p
      → Keyed (Public.allocate_shared_memory os size id p).1
  unfolding after_choice
  allocating-Keyed size id p h =
      rw (allocated_as os p size id (chosen os id p).0 refl) (go (chosen os id p).0)
    where
      q : Process os
      q = (chosen os id p).1

      go : (r : Result String) → Keyed (after_choice os size r q)
      go (ok new) = allocate-Keyed (get_key os new) size q (same_list p q (chosen_keeps id p) h)
      go (threw e) = same_list p q (chosen_keeps id p) h
      go (aborted x) = same_list p q (chosen_keeps id p) h

  -- Every call keeps each object under its own key.
  pub perform-Keyed : (c : PublicCall) (p : Process os) → Keyed p → Keyed (perform os c p)
  unfolding perform Public.map_shared_memory Public.unmap_shared_memory Public.free_shared_memory
      Public.get_shared_memory_size Public.has_shared_memory Public.get_shared_object_list
  perform-Keyed (Processes.allocating size id) p h = allocating-Keyed size id p h
  perform-Keyed (Processes.mapping id) p h = map-Keyed (get_key os id) p h
  perform-Keyed (Processes.unmapping id) p h = unmap-Keyed (get_key os id) p h
  perform-Keyed (Processes.freeing id) p h = free-Keyed (get_key os id) p h
  perform-Keyed (Processes.measuring id) p h = same_list p q (size_keeps (get_key os id) p) h
    where
      q : Process os
      q = (get_shared_memory_size_internal os (get_key os id) p).1
  perform-Keyed (Processes.probing id) p h = h
  perform-Keyed (Processes.owning id release) p h = owning-Keyed id release p h
  perform-Keyed Processes.listing p h = h
