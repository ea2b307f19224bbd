-- ===== src/SharedMemory/RefCount/Release.antt =====
-- What becomes of the memory when a caller unmaps it.
use shared_object.Prelude.{
  ◌<◌, String, ◌≡◌, refl, false, ◌&&◌, ◌==◌, some, arith, str_eq, if◌then◌else◌, decrement,
}
use shared_object.Dict.{lookup, insert}
use shared_object.Os.{Os, Posix}
use shared_object.SharedObjectClass.{SharedObjectClass, Frame, free_mapped_region_handle}
use shared_object.SharedObjectClass.Methods.{unmap_shared_memory}
use shared_object.SharedObjectClass.Effects.{named-destroy}
use shared_object.SharedMemory.{
  Process, frame, counter_at, drop_object, unmap_shared_memory_internal,
}
use shared_object.SharedMemory.RefCount.Mappings.{Mappings, count, Tracks}

module _ (os : Os) (px : Posix os) where
  named-unmap :
      (f : Frame os) (j : String) → px.named j (unmap_shared_memory os f).world ≡ px.named j f.world
  unfolding unmap_shared_memory free_mapped_region_handle
  named-unmap f j = grind (arith, px.named-free_region)

  unmap_identity :
      (f : Frame os)
      → ((unmap_shared_memory os f).this.own_data ≡ f.this.own_data)
        × ((unmap_shared_memory os f).this.key ≡ f.this.key)
  unfolding unmap_shared_memory free_mapped_region_handle
  unmap_identity f = (refl, refl)

  pub named-drop :
      (key : String) (o : SharedObjectClass os) (p : Process os) (j : String)
      → px.named j (drop_object os key o p).world ≡ (
          if o.own_data
          then (if str_eq o.key j then false else px.named j p.world)
          else px.named j p.world)
  unfolding drop_object
  named-drop key o p j = ground (
    arith,
    named-destroy os px (unmap_shared_memory os (frame os o p.world)) j,
    named-unmap (frame os o p.world) j,
    unmap_identity (frame os o p.world),
  )

  -- Where the counters track the callers' mappings and a key has one, unmapping the key removes a
  -- name exactly if this was the last mapping, the object owns its memory and the name is the
  -- object's; every other name stays as it was.
  pub named-unmap_internal :
      (key : String) (p : Process os) (live : Mappings os) (o : SharedObjectClass os) (j : String)
      → Tracks os p live
      → 0 < count os key live
      → lookup key p.shared_object_list ≡ some o
      → px.named j (unmap_shared_memory_internal os key p).world ≡ (
          if (count os key live == 1) && (o.own_data && str_eq o.key j)
          then false
          else px.named j p.world)
  unfolding unmap_shared_memory_internal
  named-unmap_internal key p live o j t h e = ground (
    arith,
    e,
    t.counted key,
    named-drop key o
        (record p { map_counter = insert key (decrement (counter_at os key p)) p.map_counter }) j,
  )
