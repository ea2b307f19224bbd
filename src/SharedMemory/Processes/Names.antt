-- ===== src/SharedMemory/Processes/Names.antt =====
-- What the calls of any processes do to the names of shared memory.
use text.Mathlib.TextPositions.{eq_refl}
use shared_object.Prelude.{
  ℕ, zero, suc, String, ◌≡◌, refl, ap, ◌∙◌, true, false, some, arith, eq_iff, str_eq, Option-cases,
  inl, inr, ◌⊎◌, Result, ok, threw, aborted,
}
use shared_object.Dict.{dict_laws}
use shared_object.Os.{Os, Posix}
use shared_object.SharedObjectClass.{Frame, construct, open_shared_memory_handle}
use shared_object.SharedObjectClass.Methods.{
  allocate_shared_memory, map_shared_memory, free_name, open_if_needed, create_region, undo_mapping,
}
use shared_object.SharedObjectClass.Effects.{
  has_shared_memory_named, named-map, named-destroy, Allocated, allocate_Allocated,
}
use shared_object.SharedMemory.{
  Process, frame, allocate_shared_memory_internal, map_shared_memory_internal,
  unmap_shared_memory_internal, free_shared_memory_internal, get_shared_memory_size_internal,
  run_at,
}
use shared_object.SharedMemory.Keys.{get_key, get_key-injective}
use shared_object.SharedMemory.NextId.{get_next_id, search_id}
use shared_object.SharedMemory.Public as Public
use shared_object.SharedMemory.RefCount.Steps.{target, map_world}
use shared_object.SharedMemory.RefCount.Release.{named-drop}
use shared_object.SharedMemory.RefCount.Invariant.{chosen, after_choice, allocated_as}
use shared_object.SharedMemory.Processes.{PublicCall, perform, ends}
use shared_object.SharedMemory.Processes as Processes
use shared_object.SharedMemory.Processes.Keyed.{Keyed}

module _ (os : Os) (px : Posix os) where
  map-named :
      (key j : String) (p : Process os)
      → px.named j (map_shared_memory_internal os key p).1.world ≡ px.named j p.world
  map-named key j p =
      ap (λ w. px.named j w) (map_world os key p) ∙ named-map os px (target os key 0 p) j

  map-own_data : (f : Frame os) → (map_shared_memory os f).1.this.own_data ≡ f.this.own_data
  unfolding map_shared_memory open_if_needed create_region undo_mapping open_shared_memory_handle
  map-own_data f = ground arith

  size-named :
      (key j : String) (p : Process os)
      → px.named j (get_shared_memory_size_internal os key p).1.world ≡ px.named j p.world
  unfolding get_shared_memory_size_internal construct
  size-named key j p = ground (
    arith,
    named-destroy os px (map_shared_memory os begun).1 j,
    named-map os px begun j,
    map-own_data begun,
  )
    where
      begun : Frame os
      begun = frame os (construct os key 0) p.world

  unmap-named :
      (key j : String) (p : Process os)
      → Keyed os p
      → str_eq key j ≡ false
      → px.named j (unmap_shared_memory_internal os key p).world ≡ px.named j p.world
  unfolding unmap_shared_memory_internal
  unmap-named key j p h ne = grind (arith, named-drop os px, h)

  free-named :
      (key j : String) (p : Process os)
      → Keyed os p
      → str_eq key j ≡ false
      → px.named j (free_shared_memory_internal os key p).world ≡ px.named j p.world
  unfolding free_shared_memory_internal free_name
  free-named key j p h ne = grind (arith, px.named-remove, named-destroy os px, h)

  search-named :
      (fuel initial : ℕ) (last : os.Address) (w : os.World) (j : String)
      → px.named j (search_id os fuel initial last w).1 ≡ px.named j w
  unfolding search_id
  search-named zero initial last w j = refl
  search-named (suc fuel) initial last w j =
      grind (arith, has_shared_memory_named os px, px.named-store, search-named fuel)

  pub chosen-named :
      (id : String) (p : Process os) (j : String)
      → px.named j (chosen os id p).1.world ≡ px.named j p.world
  unfolding chosen get_next_id
  chosen-named id p j = grind (arith, search-named)

  Allocated-keeps :
      (f g : Frame os) (j : String) (r : Result (Unit {0}))
      → Allocated os px f j r g
      → px.named j f.world ≡ true
      → px.named j g.world ≡ true
  Allocated-keeps f g j (ok t) a h = ground (arith, a)
  Allocated-keeps f g j (threw e) a h = a.1 ∙ h
  Allocated-keeps f g j (aborted x) a h = ground (arith, a)

  opened_already :
      (f : Frame os) (h : os.Handle)
      → f.this.shared_memory_handle ≡ some h
      → allocate_shared_memory os f ≡ (ok tt, f)
  unfolding allocate_shared_memory
  opened_already f h e = ground arith

  allocate-keeps :
      (f : Frame os) (j : String)
      → px.named j f.world ≡ true
      → px.named j (allocate_shared_memory os f).1.world ≡ true
  allocate-keeps f j h = elim (Option-cases f.this.shared_memory_handle) [
    | inl closed ↦
        Allocated-keeps f (allocate_shared_memory os f).1 j (allocate_shared_memory os f).0
          (allocate_Allocated os px f j closed) h
    | inr (handle, e) ↦ rw (opened_already f handle e) h
  ]

  allocate_world :
      (key : String) (size : ℕ) (p : Process os)
      → ((allocate_shared_memory_internal os key size p).1.world ≡ p.world)
        ⊎ ((allocate_shared_memory_internal os key size p).1.world
            ≡ (allocate_shared_memory os (target os key size p)).1.world)
  unfolding allocate_shared_memory_internal run_at
  allocate_world key size p = grind (arith, dict_laws, eq_refl)

  -- An allocation takes no name away.
  allocate-named :
      (key : String) (size : ℕ) (p : Process os) (j : String)
      → px.named j p.world ≡ true
      → px.named j (allocate_shared_memory_internal os key size p).1.world ≡ true
  allocate-named key size p j h = elim (allocate_world key size p) [
    | inl same ↦ rw same h
    | inr done ↦ rw done (allocate-keeps (target os key size p) j h)
  ]

  allocating-named :
      (size : ℕ) (id : String) (p : Process os) (j : String)
      → px.named j p.world ≡ true
      → px.named j (Public.allocate_shared_memory os size id p).1.world ≡ true
  unfolding after_choice
  allocating-named size id p j h =
      rw (allocated_as os p size id (chosen os id p).0 refl) (go (chosen os id p).0)
    where
      q : Process os
      q = (chosen os id p).1

      go : (r : Result String) → px.named j (after_choice os size r q).world ≡ true
      go (ok new) = allocate-named (get_key os new) size q j (chosen-named id p j ∙ h)
      go (threw e) = chosen-named id p j ∙ h
      go (aborted x) = chosen-named id p j ∙ h

  other_key : (id j : String) → str_eq j id ≡ false → str_eq (get_key os j) (get_key os id) ≡ false
  other_key id j ne =
      ground (arith, eq_iff j id, eq_iff (get_key os j) (get_key os id), get_key-injective os j id)

  -- A call that neither unmaps nor frees an id leaves its name, if it has one.
  pub perform-named :
      (c : PublicCall) (p : Process os) (id : String)
      → Keyed os p
      → ends id c ≡ false
      → px.named (get_key os id) p.world ≡ true
      → px.named (get_key os id) (perform os c p).world ≡ true
  unfolding perform Public.map_shared_memory Public.unmap_shared_memory Public.free_shared_memory
      Public.get_shared_memory_size Public.has_shared_memory Public.get_shared_object_list
      Public.set_auto_release_after_use
  perform-named (Processes.allocating size j) p id k e h =
      allocating-named size j p (get_key os id) h
  perform-named (Processes.mapping j) p id k e h = map-named (get_key os j) (get_key os id) p ∙ h
  perform-named (Processes.unmapping j) p id k e h =
      unmap-named (get_key os j) (get_key os id) p k (other_key id j e) ∙ h
  perform-named (Processes.freeing j) p id k e h =
      free-named (get_key os j) (get_key os id) p k (other_key id j e) ∙ h
  perform-named (Processes.measuring j) p id k e h = size-named (get_key os j) (get_key os id) p ∙ h
  perform-named (Processes.probing j) p id k e h =
      (has_shared_memory_named os px (get_key os j) p.world (get_key os id)).1 ∙ h
  perform-named (Processes.owning j release) p id k e h = ground arith
  perform-named Processes.listing p id k e h = h
