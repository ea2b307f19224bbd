-- ===== src/Tests/Memory.antt =====
-- The theorems about the shared memory of a process, at concrete processes.
use mathlib.Core.List.{map}
use shared_object.SharedMemory.{counter_at}
use shared_object.SharedMemory.Public.{get_shared_object_list}
use shared_object.SharedMemory.Listing.{row, get_shared_object_list_lem}
use shared_object.Prelude.{
  eq_iff, ◌≡◌, ◌≢◌, refl, true, false, none, some, List, [], ◌∷◌, ℤ, pos, arith, threw,
  insufficient_memory, allocate_failed, size_too_small, str_eq, if◌then◌else◌, ◌&&◌, ◌==◌,
}
use shared_object.Dict.{lookup, insert, erase, empty, lookup-insert, lookup-empty}
use shared_object.SharedObjectClass.{
  SharedObjectClass, construct, store_handle, refresh_size, validate_shared_memory,
  free_mapped_region_handle,
}
use shared_object.SharedObjectClass.Methods.{
  allocate_shared_memory, map_shared_memory, destroy, truncate_and_validate, undo_allocation,
  open_if_needed, create_region, free_name, unmap_shared_memory,
}
use shared_object.SharedObjectClass.Validity.{IsValid}
use shared_object.SharedMemory.{
  Process, run_at, allocate_shared_memory_internal, map_shared_memory_internal, ensure_object,
  count_up, unmap_shared_memory_internal, free_shared_memory_internal, drop_object,
}
use shared_object.SharedMemory.Keys.{get_key, get_key-ne-counter, shared_object_counter}
use shared_object.SharedMemory.NextId.{get_next_id, get_next_id-Found, Found}
use shared_object.SharedMemory.Ghosts.{failed_allocation_blocks}
use shared_object.SharedMemory.RefCount.Mappings.{count, Tracks}
use shared_object.SharedMemory.RefCount.Invariant.{
  Call, mapping, unmapping, measuring, allocating, owning, start, run, run-Tracks, start-Tracks,
}
use shared_object.SharedMemory.RefCount.Release.{named-unmap_internal}
use shared_object.SharedMemory.RefCount.Stale.{first_unmap_drops_object, reallocated}
use shared_object.SharedMemory.Freeing.{free_internal-effects}
use shared_object.SharedMemory.Processes.Keyed.{Keyed}
use shared_object.Tests.Platform.{machine, blank, machine-Posix, machine-Counting}

abbrev calls : List Call
calls =
    allocating 100 "a"
    ∷ mapping "a"
    ∷ mapping "a"
    ∷ owning "a" true
    ∷ unmapping "a"
    ∷ measuring "b"
    ∷ mapping "missing"
    ∷ []

run-Tracks_example :
    Tracks machine
      (run machine (start machine blank, []) calls).0
      (run machine (start machine blank, []) calls).1
run-Tracks_example = run-Tracks machine (start machine blank) [] calls (start-Tracks machine blank)

-- An object that owns its memory and is mapped once.
abbrev owned : SharedObjectClass machine
owned = record {
  shared_memory_handle = some "k";
  mapped_region_handle = some "k";
  shared_ptr = some "k";
  key = "k";
  size = 100;
  own_data = true;
}

abbrev mapped_once : Process machine
mapped_once = record {
  map_counter = insert "k" (pos 1) empty;
  shared_object_list = insert "k" owned empty;
  last_id = none;
  world = record blank { names = insert "k" 100 empty };
}

owned-IsValid : IsValid machine owned
owned-IsValid = record { pointer = refl; backed = λ e. cc }

mapped_once-Tracks : Tracks machine mapped_once (("k", "k") ∷ [])
unfolding lookup insert
mapped_once-Tracks = record {
  counted = λ key. ground (arith, lookup-insert "k" key (pos 1) empty, lookup-empty {V = ℤ} key);
  held = ((refl, refl), tt);
  valid = λ key o e. ground (
    arith,
    lookup-insert "k" key owned empty,
    lookup-empty {V = SharedObjectClass machine} key,
    owned-IsValid,
  );
}

named-unmap_internal_example :
    machine-Posix.named "k" (unmap_shared_memory_internal machine "k" mapped_once).world ≡ (
      if (count machine "k" (("k", "k") ∷ []) == 1) && (true && str_eq "k" "k")
      then false
      else machine-Posix.named "k" mapped_once.world)
unfolding lookup insert
named-unmap_internal_example =
    named-unmap_internal machine machine-Posix "k" mapped_once (("k", "k") ∷ []) owned "k"
      mapped_once-Tracks (omega arith) refl

-- The counter is at the address "counter".
abbrev numbering : Process machine
numbering = record (start machine blank) { last_id = some "counter" }

get_next_id-Found_example :
    Found machine machine-Counting numbering.world 0 "counter"
      (get_next_id machine numbering).0
      (get_next_id machine numbering).1.world
unfolding lookup
get_next_id-Found_example = get_next_id-Found machine machine-Counting numbering "counter" refl

get_key-ne-counter_example : get_key machine "7" ≢ shared_object_counter
get_key-ne-counter_example = get_key-ne-counter machine "7"

-- The object of "k" is on the list, was never mapped, and its memory is there.
abbrev unmapped : SharedObjectClass machine
unmapped = record owned { mapped_region_handle = none; shared_ptr = none; own_data = false }

abbrev never_mapped : Process machine
never_mapped = record mapped_once {
  map_counter = empty;
  shared_object_list = insert "k" unmapped empty;
}

first_unmap_drops_object_example :
    lookup "k"
      (unmap_shared_memory_internal machine "k"
        (map_shared_memory_internal machine "k"
          (map_shared_memory_internal machine "k"
            (reallocated machine "k" 50 never_mapped)).1).1).shared_object_list
    ≡ none
unfolding lookup insert erase allocate_shared_memory_internal map_shared_memory_internal run_at
    ensure_object count_up unmap_shared_memory_internal free_shared_memory_internal drop_object
    map_shared_memory allocate_shared_memory truncate_and_validate undo_allocation store_handle
    refresh_size validate_shared_memory open_if_needed create_region unmap_shared_memory
    free_mapped_region_handle destroy free_name construct
first_unmap_drops_object_example =
    first_unmap_drops_object machine "k" never_mapped unmapped 50 "k" "k" refl refl refl refl

failed_allocation_blocks_example :
    (allocate_shared_memory_internal machine "k" 900
      (allocate_shared_memory_internal machine "k" 800 (start machine blank)).1).0
    ≡ threw (size_too_small 900 800)
unfolding lookup insert allocate_shared_memory_internal run_at allocate_shared_memory
    truncate_and_validate undo_allocation store_handle refresh_size validate_shared_memory construct
failed_allocation_blocks_example =
    failed_allocation_blocks machine "k" 800 900 (start machine blank)
      (allocate_failed (insufficient_memory 800 500)) refl refl (omega arith)

get_shared_object_list_lem_example :
    ((get_shared_object_list machine mapped_once).0
      ≡ map (row machine mapped_once) mapped_once.shared_object_list.entries)
    × (counter_at machine "k" (get_shared_object_list machine mapped_once).1
        ≡ counter_at machine "k" mapped_once)
get_shared_object_list_lem_example = get_shared_object_list_lem machine mapped_once "k"

mapped_once-Keyed : Keyed machine mapped_once
unfolding lookup insert
mapped_once-Keyed key o e = ground (arith, eq_iff "k" key)

free_internal-effects_example :
    (machine-Posix.named "k" (free_shared_memory_internal machine "k" mapped_once).world
      ≡ (if str_eq "k" "k" then false else machine-Posix.named "k" mapped_once.world))
    × (lookup "k" (free_shared_memory_internal machine "k" mapped_once).shared_object_list
        ≡ (if str_eq "k" "k" then none else lookup "k" mapped_once.shared_object_list))
    × (counter_at machine "k" (free_shared_memory_internal machine "k" mapped_once)
        ≡ (if str_eq "k" "k" && true then pos 0 else counter_at machine "k" mapped_once))
unfolding lookup insert
free_internal-effects_example =
    free_internal-effects machine machine-Posix "k" mapped_once "k" mapped_once-Keyed
