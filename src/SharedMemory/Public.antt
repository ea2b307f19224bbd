-- ===== src/SharedMemory/Public.antt =====
-- The public functions of src/sharedMemory.h, by id. Sizes go through `double` in the source; they
-- are exact up to 2^53 and stay numbers here.
use shared_object.Prelude.{
  ℕ, String, Bool, false, none, some, List, [], ◌∷◌, if◌then◌else◌, str_eq, ℤ, not_mapped, ok,
  threw, Exec, pure, ◌>>=◌, ◌>>◌,
}
use shared_object.Dict.{Dict, lookup, insert}
use shared_object.Os.{Os}
use shared_object.SharedObjectClass.{
  SharedObjectClass, has_mapped_region_handle, has_shared_memory_handle, get_ownership,
  set_ownership,
}
use shared_object.SharedObjectClass.Methods
use shared_object.SharedMemory.{
  Process, counter_or_zero, allocate_shared_memory_internal, map_shared_memory_internal,
  unmap_shared_memory_internal, free_shared_memory_internal, get_shared_memory_size_internal,
}
use shared_object.SharedMemory.Keys.{get_key}
use shared_object.SharedMemory.NextId.{get_next_id}

-- A row of the data frame of getSharedObjectList.
pub record Row : Type 0 where
  pub name : String
  pub shared_memory_handle : Bool
  pub mapped_region_handle : Bool
  pub shared_memory_counter : ℤ

module _ (os : Os) where
  unfoldable pub has_shared_memory : String → Exec (Process os) Bool
  has_shared_memory id p =
      let (found, w) = Methods.has_shared_memory os (get_key os id) p.world in
      (ok found, record p { world = w })

  unfoldable pub is_shared_memory_mapped : String → Process os → Bool
  is_shared_memory_mapped id p = elim (lookup (get_key os id) p.shared_object_list) [
    | none ↦ false
    | some o ↦ has_mapped_region_handle os o
  ]

  -- An empty id asks for a new one.
  unfoldable pub allocate_shared_memory : ℕ → String → Exec (Process os) String
  allocate_shared_memory size id = do
    id ← if str_eq id "" then get_next_id os else pure id
    allocate_shared_memory_internal os (get_key os id) size
    pure id

  unfoldable pub map_shared_memory : String → Exec (Process os) os.Address
  map_shared_memory id = map_shared_memory_internal os (get_key os id)

  unfoldable pub unmap_shared_memory : String → Process os → Process os
  unmap_shared_memory id = unmap_shared_memory_internal os (get_key os id)

  unfoldable pub free_shared_memory : String → Process os → Process os
  free_shared_memory id = free_shared_memory_internal os (get_key os id)

  unfoldable pub get_shared_memory_size : String → Exec (Process os) ℕ
  get_shared_memory_size id = get_shared_memory_size_internal os (get_key os id)

  -- autoReleaseAfterUse(id) and autoReleaseAfterUse(id, releaseAfterUse)
  unfoldable pub auto_release_after_use : String → Exec (Process os) Bool
  auto_release_after_use id p = elim (lookup (get_key os id) p.shared_object_list) [
    | none ↦ (threw not_mapped, p)
    | some o ↦ (ok (get_ownership os o), p)
  ]

  unfoldable pub set_auto_release_after_use : String → Bool → Exec (Process os) (Unit {0})
  set_auto_release_after_use id release p = elim (lookup (get_key os id) p.shared_object_list) [
    | none ↦ (threw not_mapped, p)
    | some o ↦ (
      ok tt,
      record p {
        shared_object_list =
            insert (get_key os id) (set_ownership os release o) p.shared_object_list;
      },
    )
  ]

  -- mapCounter[i.first] makes an entry where there is none.
  unfoldable pub list_rows : List (String × SharedObjectClass os) → Dict ℤ → List Row × Dict ℤ
  list_rows [] counters = ([], counters)
  list_rows ((name, o) ∷ rest) counters =
      let count = counter_or_zero os (lookup name counters) in
      let (rows, counters') = list_rows rest (insert name count counters) in
      let row : Row = record {
        name = name;
        shared_memory_handle = has_shared_memory_handle os o;
        mapped_region_handle = has_mapped_region_handle os o;
        shared_memory_counter = count;
      } in
      (row ∷ rows, counters')

  unfoldable pub get_shared_object_list : Process os → List Row × Process os
  unfolding list_rows
  get_shared_object_list p =
      let (rows, counters) = list_rows p.shared_object_list.entries p.map_counter in
      (rows, record p { map_counter = counters })
