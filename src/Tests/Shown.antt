-- ===== src/Tests/Shown.antt =====
-- The theorems about serialized vectors, writes by several holders and subsets, at a concrete vector.
use shared_object.Prelude.{◌↔◌, pos, ℕ, ◌≡◌, refl, true, false, some, List, [], ◌∷◌, arith, ok}
use shared_object.Dict.{lookup, insert}
use shared_object.SharedObjectClass.{
  construct, store_handle, refresh_size, open_shared_memory_handle, validate_shared_memory,
}
use shared_object.SharedObjectClass.Methods
use shared_object.SharedMemory.{
  run_at, allocate_shared_memory_internal, map_shared_memory_internal, ensure_object, count_up,
}
use shared_object.SharedMemory.Keys.{get_key, to_string}
use shared_object.SharedMemory.NextId.{get_next_id, search_id}
use shared_object.SharedMemory.Public.{
  has_shared_memory, allocate_shared_memory, map_shared_memory, set_auto_release_after_use,
}
use shared_object.Altrep.Types.{intsxp, get_type_size, get_object_size, get_alt_class}
use shared_object.Altrep.SharedVector.{
  map_new_vector, create_empty_shared_object, read_shared_object, unserialize,
}
use shared_object.Altrep.SharedVector.Operations.{
  create_shared_object_from_source, unshare, fill_vector, State, listed, serialized_state, vector,
  unserialize_state,
}
use shared_object.Altrep.CopyData.{concat}
use shared_object.Altrep.Subset.{int_index, AllSelect, SelectsInt}
use shared_object.Altrep.SharedVector.Subsets.{extract_subset_int_iff}
use shared_object.Altrep.SharedVector.Operations.{Made, elements_of, extract_subset, plain}
use shared_object.Altrep.SharedVector.RoundTrip.{unshare-create_shared_object_from_source}
use shared_object.Altrep.SharedVector.OneContent.{
  Writes, perform, content, done, next, perform-refines-content,
}
use shared_object.Altrep.SharedVector.Serialization.{
  WritesState, shown, unserialize-serialized_state,
}
use shared_object.Tests.Platform.{machine, machine-Posix, machine-Counting, machine-Sharing}
use shared_object.Tests.Contents.{
  fresh_process, numbers, numbers-IsSource, vector_one, made_one, not_listed, other_process,
}
use shared_object.Tests.Duplicates.{owner, made-IsNew, other_bytes}

-- The list is written, and the other process maps the memory.
abbrev written : State
written = listed (vector_one true false).data_info

restored :
    ((serialized_state machine (vector_one true false) (owner true false)).0 ≡ ok written)
    × ((other_process true false).world
        ≡ (serialized_state machine (vector_one true false) (owner true false)).1.world)
    × ((unserialize_state machine written (other_process true false)).0
        ≡ ok (vector (vector_one true false)))
unfolding create_shared_object_from_source create_empty_shared_object map_new_vector fill_vector
    get_object_size get_type_size get_alt_class allocate_shared_memory map_shared_memory
    set_auto_release_after_use get_next_id search_id Methods.has_shared_memory
    allocate_shared_memory_internal map_shared_memory_internal run_at ensure_object count_up
    Methods.allocate_shared_memory Methods.map_shared_memory Methods.truncate_and_validate
    Methods.undo_allocation Methods.open_if_needed Methods.create_region Methods.undo_mapping
    store_handle refresh_size validate_shared_memory construct lookup insert to_string get_key
    serialized_state has_shared_memory unserialize_state unserialize read_shared_object
    open_shared_memory_handle
restored = (refl, refl, refl)

unserialize-serialized_state_example :
    WritesState machine (vector_one true false) (owner true false) written
    × (shown machine
          (vector (vector_one true false))
          (unserialize_state machine written (other_process true false)).1
        ≡ some (unshare machine (vector_one true false) (owner true false)).0)
unserialize-serialized_state_example =
    unserialize-serialized_state machine machine-Counting machine-Posix machine-Sharing intsxp 2 4
      true (vector_one true false) (owner true false) (other_process true false) written
      (vector (vector_one true false)) (made-IsNew true false) (omega arith) restored.0 restored.1
      (not_listed (get_key machine "1")) restored.2 (λ e. ground arith)

-- Two writes to the vector, the second by another holder of the same memory.
abbrev writes : Writes machine
writes =
    (vector_one false false, other_bytes)
    ∷ (vector_one false false, 5 ∷ 0 ∷ 0 ∷ 0 ∷ 6 ∷ 0 ∷ 0 ∷ 0 ∷ [])
    ∷ []

perform-refines-content_example :
    (unshare machine (vector_one false false) (perform machine writes (owner false false))).0
    ≡ ok (record {
      data_type = intsxp;
      bytes = content machine (1 ∷ 0 ∷ 0 ∷ 0 ∷ 2 ∷ 1 ∷ 0 ∷ 0 ∷ []) writes;
    })
perform-refines-content_example =
    let new = made-IsNew false false in
    perform-refines-content machine machine-Posix machine-Sharing intsxp 2 4 false "1" writes
      (1 ∷ 0 ∷ 0 ∷ 0 ∷ 2 ∷ 1 ∷ 0 ∷ 0 ∷ []) (owner false false) (vector_one false false)
      (omega arith) (next new refl refl (next new refl refl done)) new refl
      (unshare-create_shared_object_from_source machine machine-Posix machine-Sharing numbers false
        false false 4 fresh_process (vector_one false false) numbers-IsSource
        (λ id e. not_listed (get_key machine id)) (made_one false false))

-- Both elements, the second one first
abbrev swapped : Made machine
swapped = plain (record { data_type = intsxp; bytes = 2 ∷ 1 ∷ 0 ∷ 0 ∷ 1 ∷ 0 ∷ 0 ∷ 0 ∷ [] })

abbrev shown_bytes : List ℕ
shown_bytes = 1 ∷ 0 ∷ 0 ∷ 0 ∷ 2 ∷ 1 ∷ 0 ∷ 0 ∷ []

extract_subset_int_iff_example :
    ((extract_subset machine
        (vector_one true true)
        (int_index (pos 2 ∷ pos 1 ∷ []))
        (owner true true)).1
      ≡ owner true true)
    × (((extract_subset machine
            (vector_one true true)
            (int_index (pos 2 ∷ pos 1 ∷ []))
            (owner true true)).0
          ≡ ok swapped)
        ↔ ((values : List (List ℕ)) × AllSelect
              (SelectsInt 4 (elements_of 4 2 shown_bytes))
              (pos 2 ∷ pos 1 ∷ [])
              values
            × (swapped ≡ plain (record { data_type = intsxp; bytes = concat values }))))
extract_subset_int_iff_example =
    extract_subset_int_iff machine machine-Posix machine-Sharing intsxp 2 4 true
      (vector_one true true) (owner true true) (record { data_type = intsxp; bytes = shown_bytes })
      (pos 2 ∷ pos 1 ∷ []) swapped (made-IsNew true true) (omega arith) refl
      (unshare-create_shared_object_from_source machine machine-Posix machine-Sharing numbers true
        false true 4 fresh_process (vector_one true true) numbers-IsSource
        (λ id e. not_listed (get_key machine id)) (made_one true true))
