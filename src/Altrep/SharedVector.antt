-- ===== src/Altrep/SharedVector.antt =====
-- Shared vectors of numbers: createEmptySharedObject, readSharedObject and ptrFinalizer of
-- src/altrep.cpp, and the length, the data pointer and the unserialize method of a list of
-- src/numericAltrepOperations.cpp. Attributes are left out.
pub mod Operations
pub mod Modes
pub mod Contents
pub mod Filling
pub mod RoundTrip
pub mod Sharing
pub mod OneContent
pub mod Duplicates
pub mod Aliases
pub mod Serialization
pub mod Subsets
pub mod Selections
pub mod SharedSubsets
pub mod Lifetime
pub mod Collection
use shared_object.Prelude.{
  ℕ, ◌*◌, ◌%◌, ◌^◌, String, Bool, true, Option, none, some, Error, Result, ok, Exec, pure, ◌>>=◌,
  ◌>>◌, try_catch,
}
use shared_object.Os.{Os}
use shared_object.SharedMemory.{Process}
use shared_object.SharedMemory.Public.{
  allocate_shared_memory, map_shared_memory, unmap_shared_memory, set_auto_release_after_use,
}
use shared_object.Altrep.Types.{AltClass, get_type_size, get_alt_class}

-- The list in data2, by its entries INFO_*.
pub record DataInfo : Type 0 where
  pub data_id : String
  pub vector_length : ℕ
  pub total_size : ℕ
  pub data_type : ℕ
  pub own_data : Bool
  pub copy_on_write : Bool
  pub shared_subset : Bool
  pub shared_copy : Bool

-- The class, the external pointer in data1 with its tag, and data2.
pub record SharedVector (os : Os) : Type 0 where
  pub class : AltClass
  pub pointer : os.Address
  pub tag : String
  pub data_info : DataInfo

module _ (os : Os) where
  -- A result that needs no state.
  abbrev pub returned : {A : Type 0} → Result A → Exec (Process os) A
  returned r p = (r, p)

  -- Map the memory, let it be released with its last mapping, and make the vector.
  unfoldable pub map_new_vector : DataInfo → Exec (Process os) (SharedVector os)
  map_new_vector info = do
    ptr ← map_shared_memory os info.data_id
    set_auto_release_after_use os info.data_id true
    class ← returned (get_alt_class info.data_type)
    pure (record { class = class; pointer = ptr; tag = info.data_id; data_info = info })

  unfoldable pub create_empty_shared_object :
      ℕ → ℕ → Bool → Bool → Bool → Exec (Process os) (SharedVector os)
  create_empty_shared_object type length copy_on_write shared_subset shared_copy = do
    type_size ← returned (get_type_size type)
    id ← allocate_shared_memory os (length * type_size % 2 ^ 64) ""
    map_new_vector (record {
      data_id = id;
      vector_length = length;
      total_size = length * type_size % 2 ^ 64;
      data_type = type;
      own_data = true;
      copy_on_write = copy_on_write;
      shared_subset = shared_subset;
      shared_copy = shared_copy;
    })

  unfoldable pub read_shared_object : DataInfo → Exec (Process os) (SharedVector os)
  read_shared_object info = do
    ptr ← map_shared_memory os info.data_id
    class ← returned (get_alt_class info.data_type)
    pure (record { class = class; pointer = ptr; tag = info.data_id; data_info = info })

  -- ptrFinalizer: R runs it once, when nothing refers to the external pointer.
  unfoldable pub ptr_finalizer : SharedVector os → Process os → Process os
  ptr_finalizer v = unmap_shared_memory os v.tag

  unfoldable pub length_of : SharedVector os → ℕ
  length_of v = v.data_info.vector_length

  unfoldable pub dataptr : SharedVector os → os.Address
  dataptr v = v.pointer

  abbrev as_some : SharedVector os → Option (SharedVector os)
  as_some v = some v

  -- sharedVector_unserialize, of a list; none is R_NilValue. What is not a list is given back.
  unfoldable pub unserialize : DataInfo → Exec (Process os) (Option (SharedVector os))
  unserialize info = try_catch (do v ← read_shared_object info; pure (as_some v)) λ e. pure none
