-- ===== src/Tests/Lifetimes.antt =====
-- The theorems about the life of shared vectors and of the package's counter, at concrete processes.
use shared_object.Prelude.{
  ◌≡◌, refl, true, false, none, some, List, [], ◌∷◌, String, Option, subst, sym,
}
use shared_object.Dict.{lookup, insert}
use shared_object.SharedObjectClass.{construct, store_handle, refresh_size, validate_shared_memory}
use shared_object.SharedObjectClass.Methods.{
  has_shared_memory, allocate_shared_memory, map_shared_memory, truncate_and_validate,
  undo_allocation, open_if_needed, create_region, undo_mapping,
}
use shared_object.SharedMemory.{
  Process, run_at, allocate_shared_memory_internal, map_shared_memory_internal, ensure_object,
  count_up,
}
use shared_object.SharedMemory.Keys.{shared_object_counter}
use shared_object.SharedMemory.RefCount.Mappings.{Mappings, Tracks}
use shared_object.SharedMemory.RefCount.Invariant.{start, start-Tracks}
use shared_object.SharedMemory.Package.{
  initial_pkg_data, new_auto_semophore, lock, unlock, open_counter, leave_block, probe_counter,
  create_counter, write_zero, locked_open,
}
use shared_object.SharedMemory.Package.Counter.{Initialised, initial_pkg_data-Initialised}
use shared_object.Altrep.SharedVector.{DataInfo}
use shared_object.Altrep.SharedVector.Lifetime.{pointers}
use shared_object.Altrep.SharedVector.Collection.{
  Event, creating, reading, unserializing, collecting, occur_all, occur_all-Tracks,
}
use shared_object.Tests.Platform.{machine, blank}

initial_pkg_data-Initialised_example :
    Initialised machine []
      (initial_pkg_data machine (start machine blank)).0
      (initial_pkg_data machine (start machine blank)).1
initial_pkg_data-Initialised_example =
    initial_pkg_data-Initialised machine (start machine blank) [] (start-Tracks machine blank) refl

-- A process whose counter is mapped.
abbrev initialised : Process machine
initialised = (initial_pkg_data machine (start machine blank)).1

abbrev counter_mapping : Mappings machine
counter_mapping = (shared_object_counter, shared_object_counter) ∷ []

abbrev name_of : Option String → String
name_of none = ""
name_of (some n) = n

initialised-Tracks : Tracks machine initialised counter_mapping
unfolding initial_pkg_data locked_open new_auto_semophore lock unlock open_counter leave_block
    probe_counter create_counter write_zero has_shared_memory allocate_shared_memory_internal
    map_shared_memory_internal run_at ensure_object count_up allocate_shared_memory
    map_shared_memory truncate_and_validate undo_allocation store_handle refresh_size
    validate_shared_memory open_if_needed create_region undo_mapping construct lookup insert
initialised-Tracks =
    let (a, e, t) : (a : String) × (some shared_object_counter ≡ some a)
        × Tracks machine initialised ((shared_object_counter, a) ∷ []) =
      initial_pkg_data-Initialised machine (start machine blank) [] (start-Tracks machine blank)
        refl in
    subst
      (λ (n : Option String). Tracks machine initialised ((shared_object_counter, name_of n) ∷ []))
      (sym e) t

-- The list of the vector that is created first, as another process has it.
abbrev info : DataInfo
info = record {
  data_id = "1";
  vector_length = 10;
  total_size = 40;
  data_type = 13;
  own_data = true;
  copy_on_write = true;
  shared_subset = false;
  shared_copy = false;
}

abbrev events : List Event
events =
    creating 13 10 true false false
    ∷ reading info
    ∷ collecting "1"
    ∷ creating 14 3 true false false
    ∷ unserializing info
    ∷ []

occur_all-Tracks_example :
    Tracks machine
      (occur_all machine (initialised, []) events).0
      (pointers machine counter_mapping (occur_all machine (initialised, []) events).1)
occur_all-Tracks_example =
    occur_all-Tracks machine counter_mapping initialised [] events initialised-Tracks
