-- ===== src/Interface/Exports.antt =====
-- src/C_interface.cpp: the functions that hand the shared objects and the shared memory of the other
-- files to R.
use shared_object.Prelude.{ℕ, String, Bool, Option, none, List, Result, Exec, pure, ◌>>=◌}
use shared_object.Os.{Os}
use shared_object.SharedObjectClass.{get_shared_memory_path}
use shared_object.SharedMemory.{Process}
use shared_object.SharedMemory.Package.{initial_pkg_data, release_pkg_data}
use shared_object.SharedMemory.Public.{
  allocate_shared_memory, map_shared_memory, unmap_shared_memory, free_shared_memory,
  has_shared_memory, get_shared_memory_size,
}
use shared_object.Altrep.SharedVector.{
  DataInfo, SharedVector, create_empty_shared_object, read_shared_object,
}
use shared_object.Altrep.SharedVector.Operations.{
  Source, PlainVector, create_shared_object_from_source, unshare,
}
use shared_object.Altrep.StringVector.{CharSxp}
use shared_object.Altrep.StringVector.InMemory.{
  SharedString, create_shared_string_from_source, unshare_string,
}

module _ (os : Os) where
  -- An external pointer of R, with its tag, which is none where it is R_NilValue.
  pub record ExternalPtr : Type 0 where
    pub address : os.Address
    pub tag : Option String

  unfoldable pub c_create_empty_shared_object :
      ℕ → ℕ → Bool → Bool → Bool → Exec (Process os) (SharedVector os)
  c_create_empty_shared_object type length copy_on_write shared_subset shared_copy =
      create_empty_shared_object os type length copy_on_write shared_subset shared_copy

  unfoldable pub c_create_shared_object_from_source :
      Source → Bool → Bool → Bool → Exec (Process os) (SharedVector os)
  c_create_shared_object_from_source x copy_on_write shared_subset shared_copy =
      create_shared_object_from_source os x copy_on_write shared_subset shared_copy

  unfoldable pub c_create_shared_string_from_source :
      CharSxp → List CharSxp → Bool → Exec (Process os) (SharedString os)
  c_create_shared_string_from_source blank x copy_on_write =
      create_shared_string_from_source os blank x copy_on_write

  unfoldable pub c_read_shared_object : DataInfo → Exec (Process os) (SharedVector os)
  c_read_shared_object info = read_shared_object os info

  unfoldable pub c_unshare : SharedVector os → Exec (Process os) PlainVector
  c_unshare v = unshare os v

  unfoldable pub c_unshare_string : SharedString os → Process os → Result (List CharSxp)
  c_unshare_string v p = unshare_string os v p

  unfoldable pub c_initial_pkg_data : Exec (Process os) (Unit {0})
  c_initial_pkg_data = initial_pkg_data os

  unfoldable pub c_release_pkg_data : Process os → Process os
  c_release_pkg_data p = release_pkg_data os p

  unfoldable pub c_allocate_shared_memory : ℕ → String → Exec (Process os) String
  c_allocate_shared_memory size_in_byte name = allocate_shared_memory os size_in_byte name

  -- The pointer has neither tag nor finalizer: whoever asked for it unmaps the memory himself.
  unfoldable pub c_map_shared_memory : String → Exec (Process os) ExternalPtr
  c_map_shared_memory id = do
    ptr ← map_shared_memory os id
    pure (record { address = ptr; tag = none })

  unfoldable pub c_unmap_shared_memory : String → Process os → Process os
  c_unmap_shared_memory id p = unmap_shared_memory os id p

  unfoldable pub c_free_shared_memory : String → Process os → Process os
  c_free_shared_memory id p = free_shared_memory os id p

  unfoldable pub c_has_shared_memory : String → Exec (Process os) Bool
  c_has_shared_memory id = has_shared_memory os id

  unfoldable pub c_get_shared_memory_size : String → Exec (Process os) ℕ
  c_get_shared_memory_size id = get_shared_memory_size os id

  unfoldable pub c_get_shared_memory_path : os.World → String
  c_get_shared_memory_path w = get_shared_memory_path os w
