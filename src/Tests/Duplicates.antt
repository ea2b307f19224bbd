-- ===== src/Tests/Duplicates.antt =====
-- The theorems about duplicated vectors, at a concrete vector and processes.
use shared_object.Prelude.{
  ℕ, ◌≤◌, String, ◌≡◌, refl, sym, subst, ap, ◌∙◌, Bool, true, false, none, some, List, [], ◌∷◌,
  arith, Result, ok, increment,
}
use shared_object.Dict.{lookup, insert}
use shared_object.SharedObjectClass.{
  SharedObjectClass, construct, store_handle, refresh_size, validate_shared_memory,
}
use shared_object.SharedObjectClass.Methods
use shared_object.SharedMemory.{
  Process, counter_at, run_at, allocate_shared_memory_internal, map_shared_memory_internal,
  ensure_object, count_up,
}
use shared_object.SharedMemory.Keys.{get_key, to_string}
use shared_object.SharedMemory.NextId.{get_next_id, search_id}
use shared_object.SharedMemory.Public.{
  allocate_shared_memory, map_shared_memory, set_auto_release_after_use,
}
use shared_object.Altrep.Types.{intsxp, get_type_size, get_object_size, get_alt_class}
use shared_object.Altrep.Registration.{registered}
use shared_object.Altrep.SharedVector.{
  SharedVector, map_new_vector, create_empty_shared_object, length_of,
}
use shared_object.Altrep.SharedVector.Operations.{
  create_shared_object_from_source, unshare, fill_vector, shared, duplicate,
}
use shared_object.Altrep.SharedVector.Contents.{IsNew}
use shared_object.Altrep.SharedVector.RoundTrip.{from_source-IsNew}
use shared_object.Altrep.SharedVector.Sharing.{write_data}
use shared_object.Altrep.SharedVector.Duplicates.{write-duplicate}
use shared_object.Altrep.SharedVector.Aliases.{duplicate-aliases}
use shared_object.Tests.Platform.{machine, machine-Posix, machine-Sharing}
use shared_object.Tests.Contents.{
  fresh_process, numbers, numbers-IsSource, vector_one, made, made_one, not_listed,
}

-- The process that has made the vector.
abbrev pub owner : Bool → Bool → Process machine
owner cow sc = (made cow sc).1

pub made-IsNew :
    (cow sc : Bool)
    → IsNew machine machine-Posix machine-Sharing intsxp 2 4 cow
        (vector_one cow sc)
        (owner cow sc).world
made-IsNew cow sc =
    (from_source-IsNew machine machine-Posix machine-Sharing numbers cow false sc 4 fresh_process
      (vector_one cow sc) numbers-IsSource (λ id e. not_listed (get_key machine id))
      (made_one cow sc)).0

-- The copy gets the second id.
abbrev copy : SharedVector machine
copy = record (vector_one true true) {
  pointer = get_key machine "2";
  tag = "2";
  data_info = record (vector_one true true).data_info { data_id = "2" };
}

abbrev id_or_none : Result String → String
id_or_none (ok id) = id
id_or_none _ = ""

second_id :
    ((get_next_id machine (owner true true)).0 ≡ ok "2")
    × (lookup (get_key machine "2") (owner true true).shared_object_list ≡ none)
    × ((duplicate machine (vector_one true true) (owner true true)).0 ≡ ok (shared copy))
unfolding create_shared_object_from_source create_empty_shared_object map_new_vector fill_vector
    get_object_size get_type_size get_alt_class allocate_shared_memory map_shared_memory
    set_auto_release_after_use get_next_id search_id Methods.has_shared_memory
    allocate_shared_memory_internal map_shared_memory_internal run_at ensure_object count_up
    Methods.allocate_shared_memory Methods.map_shared_memory Methods.truncate_and_validate
    Methods.undo_allocation Methods.open_if_needed Methods.create_region Methods.undo_mapping
    store_handle refresh_size validate_shared_memory construct lookup insert to_string get_key
    duplicate registered length_of
second_id = (refl, refl, refl)

second_fresh :
    (id : String)
    → (get_next_id machine (owner true true)).0 ≡ ok id
    → lookup (get_key machine id) (owner true true).shared_object_list ≡ none
second_fresh id e =
    subst (λ k. lookup (get_key machine k) (owner true true).shared_object_list ≡ none)
      (ap id_or_none (sym second_id.0) ∙ ap id_or_none e) second_id.1

-- The object of the memory in the process that made the vector.
abbrev object : SharedObjectClass machine
object = record {
  shared_memory_handle = some (get_key machine "1");
  mapped_region_handle = some (get_key machine "1");
  shared_ptr = some (get_key machine "1");
  key = get_key machine "1";
  size = 8;
  own_data = true;
}

still_held :
    (cow sc : Bool)
    → (lookup (get_key machine "1") (owner cow sc).shared_object_list ≡ some object)
      × (8
          ≤ machine.get_size
              (get_key machine "1")
              (duplicate machine (vector_one true true) (owner true true)).1.world)
      × (machine.open_only
            (get_key machine "1")
            (duplicate machine (vector_one true true) (owner true true)).1.world
          ≡ some (
            get_key machine "1",
            (duplicate machine (vector_one true true) (owner true true)).1.world,
          ))
unfolding create_shared_object_from_source create_empty_shared_object map_new_vector fill_vector
    get_object_size get_type_size get_alt_class allocate_shared_memory map_shared_memory
    set_auto_release_after_use get_next_id search_id Methods.has_shared_memory
    allocate_shared_memory_internal map_shared_memory_internal run_at ensure_object count_up
    Methods.allocate_shared_memory Methods.map_shared_memory Methods.truncate_and_validate
    Methods.undo_allocation Methods.open_if_needed Methods.create_region Methods.undo_mapping
    store_handle refresh_size validate_shared_memory construct lookup insert to_string get_key
    duplicate registered length_of
still_held cow sc = (refl, omega arith, refl)

still_mapped :
    machine-Sharing.backs
      (get_key machine "1")
      (get_key machine "1")
      8
      (duplicate machine (vector_one true true) (owner true true)).1.world
    ≡ true
still_mapped =
    let w = (duplicate machine (vector_one true true) (owner true true)).1.world in
    let key = get_key machine "1" in
    machine-Sharing.region_backs key w key 8 (key, w) refl
      (machine-Sharing.open_opens key w (key, w) (still_held true true).2) (still_held true true).1

abbrev pub other_bytes : List ℕ
other_bytes = 9 ∷ 0 ∷ 0 ∷ 0 ∷ 7 ∷ 0 ∷ 0 ∷ 0 ∷ []

write-duplicate_example :
    ((unshare machine copy (
        write_data machine copy other_bytes
          (duplicate machine (vector_one true true) (owner true true)).1)).0
      ≡ ok (record { data_type = intsxp; bytes = other_bytes }))
    × ((unshare machine (vector_one true true) (
          write_data machine copy other_bytes
            (duplicate machine (vector_one true true) (owner true true)).1)).0
        ≡ (unshare machine
            (vector_one true true)
            (duplicate machine (vector_one true true) (owner true true)).1).0)
write-duplicate_example =
    write-duplicate machine machine-Posix machine-Sharing intsxp 2 4 (vector_one true true)
      (owner true true) (made-IsNew true true) (omega arith) refl second_fresh copy second_id.2
      object other_bytes (still_held true true).0 still_mapped refl

duplicate-aliases_example :
    ((duplicate machine (vector_one false false) (owner false false)).0
      ≡ ok (shared (vector_one false false)))
    × ((duplicate machine (vector_one false false) (owner false false)).1.world
        ≡ (owner false false).world)
    × (counter_at machine
          (get_key machine "1")
          (duplicate machine (vector_one false false) (owner false false)).1
        ≡ increment (counter_at machine (get_key machine "1") (owner false false)))
duplicate-aliases_example =
    duplicate-aliases machine machine-Posix machine-Sharing intsxp 2 4 (vector_one false false)
      (owner false false) object (made-IsNew false false) (still_held false false).0 refl
