-- ===== src/SharedObjectClass.antt =====
-- src/sharedObjectClass.h and src/sharedObjectClass.cpp on Linux: one shared memory object, its
-- handle, its mapped region and who removes it. Debug prints are left out. The methods that allocate
-- and map are in `Methods`.
pub mod Methods
pub mod Validity
pub mod Effects
pub mod Backing
use shared_object.Prelude.{
  ℕ, ◌*◌, ◌-◌, ◌%◌, ◌^◌, String, Bool, true, false, not, Option, none, some, ltb, str_eq,
  if◌then◌else◌, os_exception, insufficient_memory, already_opened, open_failed, bus_error, Result,
  ok, threw, aborted, Exec, throw_error, modify, try_catch, ◌>>=◌, ◌>>◌,
}
use shared_object.Os.{Os}

-- The fields of the class. A null pointer is `none`.
pub record SharedObjectClass (os : Os) : Type 0 where
  pub shared_memory_handle : Option os.Handle
  pub mapped_region_handle : Option os.Region
  pub shared_ptr : Option os.Address
  pub key : String
  pub size : ℕ
  pub own_data : Bool

-- A method runs on its object and the world outside.
pub record Frame (os : Os) : Type 0 where
  pub this : SharedObjectClass os
  pub world : os.World

abbrev size_max : ℕ
size_max = 2 ^ 64 - 1

module _ (os : Os) where
  abbrev pub on_world : {A : Type 0} → Exec os.World A → Exec (Frame os) A
  on_world m f = let (r, w) = m f.world in (r, record f { world = w })

  -- utils.cpp
  unfoldable pub get_shared_memory_path : os.World → String
  get_shared_memory_path w = elim os.shm_directory [
    | some path ↦ path
    | none ↦ if os.can_access "/dev/shm" w then "/dev/shm" else ""
  ]

  -- statvfs failed: SIZE_MAX
  free_bytes : Option (ℕ × ℕ) → ℕ
  free_bytes none = size_max
  free_bytes (some (bsize, bfree)) = bsize * bfree % 2 ^ 64

  unfoldable pub get_free_memory_size : os.World → ℕ
  unfolding get_shared_memory_path free_bytes
  get_free_memory_size w =
      let path = get_shared_memory_path w in
      if not (str_eq path "") then free_bytes (os.statvfs path w) else size_max

  -- The memset under the SIGBUS handler; the region is a local, freed at the end of the block. The
  -- long jump of Rf_error skips that.
  test_region : os.Handle → ℕ → os.Region × os.World → Result (Unit {0}) × os.World
  test_region h size (region, w) =
      if os.can_handle_bus_error w
      then (let (filled, w') = os.fill_zero (os.get_address region) size w in
          if filled then (ok tt, os.free_region region w') else (aborted bus_error, w'))
      else (ok tt, os.free_region region w)

  unfoldable pub validate_shared_memory : os.Handle → Exec os.World (Unit {0})
  unfolding get_free_memory_size test_region
  validate_shared_memory h w =
      let size = os.get_size h w in
      let free_size = get_free_memory_size w in
      if ltb free_size size
      then (threw (insufficient_memory size free_size), w)
      else elim (os.new_region h w) [
        | none ↦ (threw os_exception, w)
        | some opened ↦ test_region h size opened
      ]

  unfoldable pub construct : String → ℕ → SharedObjectClass os
  construct key size = record {
    shared_memory_handle = none;
    mapped_region_handle = none;
    shared_ptr = none;
    key = key;
    size = size;
    own_data = false;
  }

  abbrev pub has_shared_memory_handle : SharedObjectClass os → Bool
  has_shared_memory_handle o = elim o.shared_memory_handle [ none ↦ false | some h ↦ true ]

  abbrev pub has_mapped_region_handle : SharedObjectClass os → Bool
  has_mapped_region_handle o = elim o.mapped_region_handle [ none ↦ false | some r ↦ true ]

  abbrev has_pointer : SharedObjectClass os → Bool
  has_pointer o = elim o.shared_ptr [ none ↦ false | some p ↦ true ]

  abbrev pub get_ownership : SharedObjectClass os → Bool
  get_ownership o = o.own_data

  abbrev pub set_ownership : Bool → SharedObjectClass os → SharedObjectClass os
  set_ownership own o = record o { own_data = own }

  abbrev pub get_size : SharedObjectClass os → ℕ
  get_size o = o.size

  -- the private freeSharedMemoryHandle and freeMappedRegionHandle
  abbrev close_handle : Option os.Handle → os.World → os.World
  close_handle none w = w
  close_handle (some h) w = os.close h w

  unfoldable pub free_shared_memory_handle : Frame os → Frame os
  free_shared_memory_handle f = record {
    this = record f.this { shared_memory_handle = none };
    world = close_handle f.this.shared_memory_handle f.world;
  }

  abbrev close_region : Option os.Region → os.World → os.World
  close_region none w = w
  close_region (some r) w = os.free_region r w

  unfoldable pub free_mapped_region_handle : Frame os → Frame os
  free_mapped_region_handle f = record {
    this = record f.this { mapped_region_handle = none; shared_ptr = none };
    world = close_region f.this.mapped_region_handle f.world;
  }

  unfoldable pub store_handle : Option (os.Handle × os.World) → Exec (Frame os) (Unit {0})
  store_handle none f = (threw os_exception, f)
  store_handle (some (h, w)) f =
      (ok tt, record { this = record f.this { shared_memory_handle = some h }; world = w })

  -- size = get_size(sharedMemoryHandle)
  unfoldable pub refresh_size : Frame os → Frame os
  refresh_size f = elim f.this.shared_memory_handle [
    | none ↦ f
    | some h ↦ record f { this = record f.this { size = os.get_size h f.world } }
  ]

  unfoldable pub open_shared_memory_handle : Exec (Frame os) (Unit {0})
  unfolding store_handle refresh_size free_shared_memory_handle
  open_shared_memory_handle f =
      if has_shared_memory_handle f.this
      then (threw already_opened, f)
      else (do
        try_catch (λ g. store_handle (os.open_only g.this.key g.world) g)
            λ e. do modify free_shared_memory_handle; throw_error (open_failed e)
        modify refresh_size)
          f
