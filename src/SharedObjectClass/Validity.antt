-- ===== src/SharedObjectClass/Validity.antt =====
-- What every object of the class satisfies, and that every method keeps it.
use shared_object.Prelude.{ℕ, String, ◌≡◌, refl, Bool, Option, none, some, arith}
use shared_object.Os.{Os}
use shared_object.SharedObjectClass.{
  SharedObjectClass, Frame, construct, store_handle, refresh_size, open_shared_memory_handle,
  set_ownership, validate_shared_memory,
}
use shared_object.SharedObjectClass.Methods.{
  get_shared_memory_size, allocate_shared_memory, map_shared_memory, unmap_shared_memory,
  free_shared_memory, flush, truncate_and_validate, undo_allocation, open_if_needed, create_region,
  undo_mapping,
}

module _ (os : Os) where
  -- The address that a region has, none where there is no region.
  abbrev pub address_of : Option os.Region → Option os.Address
  address_of none = none
  address_of (some r) = some (os.get_address r)

  -- The stored pointer is the address of the mapped region, and a region needs the open handle.
  pub record IsValid (o : SharedObjectClass os) : Type 0 where
    pub pointer : o.shared_ptr ≡ address_of o.mapped_region_handle
    pub backed : o.shared_memory_handle ≡ none → o.mapped_region_handle ≡ none

  pub construct-IsValid : (key : String) (size : ℕ) → IsValid (construct os key size)
  unfolding construct
  construct-IsValid key size = record { pointer = refl; backed = λ e. refl }

  -- The public methods that change the object, and the two private ones that they share.
  pub data Method : Type 0 where
    allocating mapping unmapping freeing opening measuring flushing : Method
    owning : Bool → Method

  pub run_method : Method → Frame os → Frame os
  run_method allocating f = (allocate_shared_memory os f).1
  run_method mapping f = (map_shared_memory os f).1
  run_method unmapping f = unmap_shared_memory os f
  run_method freeing f = free_shared_memory os f
  run_method opening f = (open_shared_memory_handle os f).1
  run_method measuring f = (get_shared_memory_size os f).1
  run_method flushing f = flush os f
  run_method (owning b) f = record f { this = set_ownership os b f.this }

  pub allocate-IsValid :
      (f : Frame os) → IsValid f.this → IsValid (allocate_shared_memory os f).1.this
  unfolding allocate_shared_memory truncate_and_validate undo_allocation store_handle refresh_size
      validate_shared_memory
  allocate-IsValid f v = ground arith

  pub map-IsValid : (f : Frame os) → IsValid f.this → IsValid (map_shared_memory os f).1.this
  unfolding map_shared_memory open_if_needed create_region undo_mapping
  map-IsValid f v = ground arith

  -- Every method keeps a valid object valid, whatever the operating system does.
  pub run_method-IsValid :
      (m : Method) (f : Frame os) → IsValid f.this → IsValid (run_method m f).this
  unfolding run_method unmap_shared_memory free_shared_memory open_shared_memory_handle
      get_shared_memory_size flush
  run_method-IsValid allocating f v = allocate-IsValid f v
  run_method-IsValid mapping f v = map-IsValid f v
  run_method-IsValid _ f v = ground arith
