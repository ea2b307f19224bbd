-- ===== src/Tests/Names.antt =====
-- The theorems about the names and ids of several processes, at two processes.
use shared_object.Prelude.{ℕ, String, ◌≡◌, ◌≢◌, refl, true, none, List, [], ◌∷◌, ok}
use shared_object.Dict.{lookup, insert, erase}
use shared_object.SharedObjectClass.{
  construct, store_handle, refresh_size, open_shared_memory_handle, validate_shared_memory,
}
use shared_object.SharedObjectClass.Methods
use shared_object.SharedMemory.{
  run_at, allocate_shared_memory_internal, map_shared_memory_internal, free_shared_memory_internal,
  ensure_object, count_up,
}
use shared_object.SharedMemory.Keys.{get_key, to_string}
use shared_object.SharedMemory.NextId.{get_next_id, search_id}
use shared_object.SharedMemory.Public.{
  allocate_shared_memory, map_shared_memory, free_shared_memory,
}
use shared_object.SharedMemory.Processes.{
  PublicCall, allocating, mapping, freeing, Host, process, perform, turn, turns,
}
use shared_object.SharedMemory.Processes.Ids.{
  AllKeyed, turn-AllKeyed, allocated-named, named-turns, ids_differ,
}
use shared_object.Tests.Platform.{machine, blank, machine-Posix}
use shared_object.Tests.Contents.{fresh_process, not_listed}

-- Two processes, and others, that have just begun.
abbrev begun : Host machine
begun = record { own = λ i. fresh_process; world = blank }

begun-AllKeyed : AllKeyed machine begun
begun-AllKeyed i key o e = cc (not_listed key)

-- The other process uses the memory and frees some of its own.
abbrev later : List (ℕ × PublicCall)
later = (1, mapping "1") ∷ (1, freeing "5") ∷ (0, mapping "1") ∷ []

abbrev first : Host machine
first = turn machine (0, allocating 8 "") begun

given_first : (allocate_shared_memory machine 8 "" (process machine 0 begun)).0 ≡ ok "1"
unfolding allocate_shared_memory get_next_id search_id Methods.has_shared_memory
    allocate_shared_memory_internal run_at Methods.allocate_shared_memory
    Methods.truncate_and_validate Methods.undo_allocation store_handle refresh_size
    validate_shared_memory construct lookup insert to_string get_key
given_first = refl

given_then :
    ((allocate_shared_memory machine 4 "" (process machine 1 (turns machine later first))).0
      ≡ ok "2")
    × (lookup (get_key machine "2") ((turns machine later first).own 1).shared_object_list ≡ none)
unfolding allocate_shared_memory get_next_id search_id Methods.has_shared_memory
    allocate_shared_memory_internal run_at Methods.allocate_shared_memory
    Methods.truncate_and_validate Methods.undo_allocation store_handle refresh_size
    validate_shared_memory construct lookup insert erase to_string get_key turns turn perform
    map_shared_memory map_shared_memory_internal ensure_object count_up Methods.map_shared_memory
    Methods.open_if_needed Methods.create_region Methods.undo_mapping open_shared_memory_handle
    free_shared_memory free_shared_memory_internal Methods.free_name
given_then = (refl, refl)

ids_differ_example : ◌≢◌ {A = String} "1" "2"
ids_differ_example =
    ids_differ machine machine-Posix begun 0 1 8 4 "" "" "1" "2" later begun-AllKeyed given_first
      (not_listed (get_key machine "1")) (refl, (refl, (refl, tt))) given_then.0 given_then.1

named_first : machine-Posix.named (get_key machine "1") first.world ≡ true
unfolding turn perform
named_first =
    (allocated-named machine machine-Posix 8 "" "1" (process machine 0 begun) given_first
      (not_listed (get_key machine "1"))).1

named-turns_example :
    machine-Posix.named (get_key machine "1") (turns machine later first).world ≡ true
named-turns_example =
    named-turns machine machine-Posix later first "1"
      (turn-AllKeyed machine (0, allocating 8 "") begun begun-AllKeyed) (refl, (refl, (refl, tt)))
      named_first
