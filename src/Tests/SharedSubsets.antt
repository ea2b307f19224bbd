-- ===== src/Tests/SharedSubsets.antt =====
-- The theorem about subsets in shared memory, at a concrete vector.
use shared_object.Prelude.{
  ℕ, ◌≤◌, String, ◌≡◌, refl, sym, subst, ap, ◌∙◌, true, false, none, some, List, [], ◌∷◌, ℤ, pos,
  arith, Result, ok,
}
use shared_object.Dict.{lookup, insert}
use shared_object.SharedObjectClass.{
  SharedObjectClass, construct, store_handle, refresh_size, validate_shared_memory,
}
use shared_object.SharedObjectClass.Methods
use shared_object.SharedMemory.{
  Process, run_at, allocate_shared_memory_internal, map_shared_memory_internal, ensure_object,
  count_up,
}
use shared_object.SharedMemory.Keys.{get_key, to_string}
use shared_object.SharedMemory.NextId.{get_next_id, search_id}
use shared_object.SharedMemory.Public.{
  allocate_shared_memory, map_shared_memory, set_auto_release_after_use,
}
use shared_object.Altrep.CopyData.{concat}
use shared_object.Altrep.Subset.{int_index, subset, fetch_all, fetch_int, AllSelect, SelectsInt}
use shared_object.Altrep.Types.{intsxp, get_type_size, get_object_size, get_alt_class}
use shared_object.Altrep.Registration.{registered}
use shared_object.Altrep.SharedVector.{
  SharedVector, map_new_vector, create_empty_shared_object, length_of,
}
use shared_object.Altrep.SharedVector.Operations.{
  PlainVector, elements_of, create_shared_object_from_source, unshare, fill_vector, shared,
  extract_subset, store_subset, index_length,
}
use shared_object.Altrep.SharedVector.Contents.{IsNew}
use shared_object.Altrep.SharedVector.RoundTrip.{from_source-IsNew}
use shared_object.Altrep.SharedVector.SharedSubsets.{extract_subset-unshare}
use shared_object.Tests.Platform.{machine, machine-Posix, machine-Sharing}
use shared_object.Tests.Contents.{fresh_process, numbers, numbers-IsSource, vector_one, not_listed}

-- Two numbers whose subsets are shared
abbrev source : SharedVector machine
source = record (vector_one true false) {
  data_info = record (vector_one true false).data_info { shared_subset = true };
}

abbrev owner : Process machine
owner = (create_shared_object_from_source machine numbers true true false fresh_process).1

abbrev twice_second : List ℤ
twice_second = pos 2 ∷ pos 2 ∷ pos 1 ∷ []

-- The vector of the three, which gets the second id
abbrev result : SharedVector machine
result = record source {
  pointer = get_key machine "2";
  tag = "2";
  data_info = record source.data_info { data_id = "2"; vector_length = 3; total_size = 12 };
}

abbrev after : Process machine
after = (extract_subset machine source (int_index twice_second) owner).1

abbrev object : SharedObjectClass machine
object = record {
  shared_memory_handle = some (get_key machine "1");
  mapped_region_handle = some (get_key machine "1");
  shared_ptr = some (get_key machine "1");
  key = get_key machine "1";
  size = 8;
  own_data = true;
}

abbrev shown : PlainVector
shown = record { data_type = intsxp; bytes = 1 ∷ 0 ∷ 0 ∷ 0 ∷ 2 ∷ 1 ∷ 0 ∷ 0 ∷ [] }

runs :
    ((create_shared_object_from_source machine numbers true true false fresh_process).0 ≡ ok source)
    × ((get_next_id machine owner).0 ≡ ok "2")
    × (lookup (get_key machine "2") owner.shared_object_list ≡ none)
    × ((extract_subset machine source (int_index twice_second) owner).0 ≡ ok (shared result))
    × (lookup (get_key machine "1") owner.shared_object_list ≡ some object)
    × (8 ≤ machine.get_size (get_key machine "1") after.world)
    × (machine.open_only (get_key machine "1") after.world
        ≡ some (get_key machine "1", after.world))
    × ((unshare machine source after).0 ≡ ok shown)
unfolding create_shared_object_from_source create_empty_shared_object map_new_vector fill_vector
    get_object_size get_type_size get_alt_class allocate_shared_memory map_shared_memory
    set_auto_release_after_use get_next_id search_id Methods.has_shared_memory
    allocate_shared_memory_internal map_shared_memory_internal run_at ensure_object count_up
    Methods.allocate_shared_memory Methods.map_shared_memory Methods.truncate_and_validate
    Methods.undo_allocation Methods.open_if_needed Methods.create_region Methods.undo_mapping
    store_handle refresh_size validate_shared_memory construct lookup insert to_string get_key
    registered length_of extract_subset store_subset index_length subset fetch_all fetch_int unshare
runs = (refl, refl, refl, refl, refl, omega arith, refl, refl)

abbrev id_or_none : Result String → String
id_or_none (ok id) = id
id_or_none _ = ""

second_fresh :
    (id : String)
    → (get_next_id machine owner).0 ≡ ok id
    → lookup (get_key machine id) owner.shared_object_list ≡ none
second_fresh id e =
    subst (λ k. lookup (get_key machine k) owner.shared_object_list ≡ none)
      (ap id_or_none (sym runs.1) ∙ ap id_or_none e) runs.2

still_mapped :
    machine-Sharing.backs (get_key machine "1") (get_key machine "1") 8 after.world ≡ true
still_mapped =
    let w = after.world in
    let key = get_key machine "1" in
    machine-Sharing.region_backs key w key 8 (key, w) refl
      (machine-Sharing.open_opens key w (key, w) runs.6) runs.5

source-IsNew : IsNew machine machine-Posix machine-Sharing intsxp 2 4 true source owner.world
source-IsNew =
    (from_source-IsNew machine machine-Posix machine-Sharing numbers true true false 4 fresh_process
      source numbers-IsSource (λ id e. not_listed (get_key machine id)) runs.0).0

extract_subset-unshare_example :
    (values : List (List ℕ)) × AllSelect
      (SelectsInt 4 (elements_of 4 2 shown.bytes))
      twice_second
      values
    × ((unshare machine result after).0 ≡ ok (record { data_type = intsxp; bytes = concat values }))
extract_subset-unshare_example =
    extract_subset-unshare machine machine-Posix machine-Sharing intsxp 2 4 true source result owner
      twice_second source-IsNew (omega arith) refl runs.3 (omega arith) second_fresh object runs.4
      still_mapped shown runs.7
