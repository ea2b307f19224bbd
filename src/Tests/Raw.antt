-- ===== src/Tests/Raw.antt =====
-- The theorem about memory that R maps by itself, in two processes.
use shared_object.Prelude.{◌≡◌, refl, none, [], ◌∷◌, ok}
use shared_object.Dict.{lookup, insert}
use shared_object.SharedObjectClass.{
  construct, store_handle, refresh_size, open_shared_memory_handle, validate_shared_memory,
}
use shared_object.SharedObjectClass.Methods
use shared_object.SharedMemory.{
  Process, run_at, allocate_shared_memory_internal, map_shared_memory_internal, ensure_object,
  count_up,
}
use shared_object.SharedMemory.Keys.{get_key, to_string}
use shared_object.SharedMemory.NextId.{get_next_id, search_id}
use shared_object.SharedMemory.Public.{allocate_shared_memory, map_shared_memory}
use shared_object.Interface.Exports.{ExternalPtr, c_allocate_shared_memory, c_map_shared_memory}
use shared_object.Interface.RawMemory.{write-mapped_elsewhere}
use shared_object.Tests.Platform.{machine, machine-Posix, machine-Sharing}
use shared_object.Tests.Contents.{fresh_process, not_listed}

abbrev given : Process machine
given = (c_allocate_shared_memory machine 3 "" fresh_process).1

abbrev there : Process machine
there = record fresh_process { world = (c_map_shared_memory machine "1" given).1.world }

abbrev pointer : ExternalPtr machine
pointer = record { address = get_key machine "1"; tag = none }

both_mapped :
    ((c_allocate_shared_memory machine 3 "" fresh_process).0 ≡ ok "1")
    × ((c_map_shared_memory machine "1" given).0 ≡ ok pointer)
    × ((c_map_shared_memory machine "1" there).0 ≡ ok pointer)
unfolding c_allocate_shared_memory c_map_shared_memory allocate_shared_memory get_next_id search_id
    Methods.has_shared_memory allocate_shared_memory_internal run_at Methods.allocate_shared_memory
    Methods.truncate_and_validate Methods.undo_allocation store_handle refresh_size
    validate_shared_memory construct lookup insert to_string get_key map_shared_memory
    map_shared_memory_internal ensure_object count_up Methods.map_shared_memory
    Methods.open_if_needed Methods.create_region Methods.undo_mapping open_shared_memory_handle
both_mapped = (refl, refl, refl)

write-mapped_elsewhere_example :
    (machine.read_memory pointer.address 3 (
        machine.write_memory pointer.address
          (7 ∷ 8 ∷ 9 ∷ [])
          (c_map_shared_memory machine "1" there).1.world)
      ≡ 7 ∷ 8 ∷ 9 ∷ [])
    × (machine.read_memory pointer.address 3 (
          machine.write_memory pointer.address
            (7 ∷ 8 ∷ 9 ∷ [])
            (c_map_shared_memory machine "1" there).1.world)
        ≡ 7 ∷ 8 ∷ 9 ∷ [])
write-mapped_elsewhere_example =
    write-mapped_elsewhere machine machine-Posix machine-Sharing 3 "" "1" fresh_process there
      pointer pointer both_mapped.0 (not_listed (get_key machine "1")) both_mapped.1 refl
      (not_listed (get_key machine "1")) both_mapped.2 (7 ∷ 8 ∷ 9 ∷ []) refl
