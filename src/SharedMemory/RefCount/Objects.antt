-- ===== src/SharedMemory/RefCount/Objects.antt =====
-- One object: the pointer that it gives out stays that of its mapped region.
use shared_object.Prelude.{◌≡◌, Option, none, some, arith, ok}
use shared_object.Os.{Os}
use shared_object.SharedObjectClass.{SharedObjectClass, Frame, store_handle, refresh_size}
use shared_object.SharedObjectClass.Methods.{
  allocate_shared_memory, map_shared_memory, truncate_and_validate, undo_allocation, open_if_needed,
  create_region, undo_mapping,
}
use shared_object.SharedObjectClass.Validity.{address_of, IsValid}

module _ (os : Os) where
  -- The object is there, and `a` is its pointer and the address of its region.
  abbrev pub Holds : Option (SharedObjectClass os) → os.Address → Type 0
  Holds none a = ⊥
  Holds (some o) a = (o.shared_ptr ≡ some a) × (address_of os o.mapped_region_handle ≡ some a)

  -- A mapped object is mapped again with nothing changed.
  pub map-Holds :
      (f : Frame os) (a : os.Address) → Holds (some f.this) a → map_shared_memory os f ≡ (ok a, f)
  unfolding map_shared_memory
  map-Holds f a h = ground arith

  pub map_ok-Holds :
      (f : Frame os) (a : os.Address)
      → IsValid os f.this
      → (map_shared_memory os f).0 ≡ ok a
      → Holds (some (map_shared_memory os f).1.this) a
  unfolding map_shared_memory open_if_needed create_region undo_mapping
  map_ok-Holds f a v e = ground arith

  -- Allocation leaves the mapping alone.
  pub allocate-Holds :
      (f : Frame os) (a : os.Address)
      → Holds (some f.this) a
      → Holds (some (allocate_shared_memory os f).1.this) a
  unfolding allocate_shared_memory truncate_and_validate undo_allocation store_handle refresh_size
  allocate-Holds f a h = ground arith
