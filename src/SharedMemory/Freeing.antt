-- ===== src/SharedMemory/Freeing.antt =====
-- What freeSharedMemoryInternal of src/sharedMemory.cpp does to names, objects and counters.
use shared_object.Prelude.{
  String, ◌≡◌, true, false, none, some, ◌&&◌, Bool, pos, arith, str_eq, eq_iff, if◌then◌else◌,
  Option, Option-cases, inl, inr,
}
use shared_object.Dict.{lookup, dict_laws}
use shared_object.Os.{Os, Posix}
use shared_object.SharedObjectClass.{SharedObjectClass}
use shared_object.SharedObjectClass.Methods.{free_name, destroy}
use shared_object.SharedObjectClass.Effects.{named-destroy}
use shared_object.SharedMemory.{Process, frame, counter_at, free_shared_memory_internal}
use shared_object.SharedMemory.Processes.Keyed.{Keyed}

module _ (os : Os) where
  -- Whether the process has an object of the key
  abbrev is_listed : Option (SharedObjectClass os) → Bool
  is_listed none = false
  is_listed (some o) = true

  module _ (px : Posix os) (key : String) (p : Process os) where
    free-named :
        (j : String)
        → Keyed os p
        → px.named j (free_shared_memory_internal os key p).world
          ≡ (if str_eq key j then false else px.named j p.world)
    unfolding free_shared_memory_internal free_name
    free-named j h = elim (Option-cases (lookup key p.shared_object_list)) [
      | inl e ↦ ground (arith, e, px.named-remove key p.world j)
      | inr (o, e) ↦ ground (
        arith,
        e,
        px.named-remove key (destroy os (frame os o p.world)) j,
        named-destroy os px (frame os o p.world) j,
        h key o e,
      )
    ]

    free-lookup :
        (j : String)
        → lookup j (free_shared_memory_internal os key p).shared_object_list
          ≡ (if str_eq key j then none else lookup j p.shared_object_list)
    unfolding free_shared_memory_internal
    free-lookup j = grind (arith, dict_laws, eq_iff)

    free-counter :
        (j : String)
        → counter_at os j (free_shared_memory_internal os key p) ≡ (
            if str_eq key j && is_listed (lookup key p.shared_object_list)
            then pos 0
            else counter_at os j p)
    unfolding free_shared_memory_internal
    free-counter j = grind (arith, dict_laws, eq_iff)

    -- Where the process keeps its objects under their own keys, freeing a key takes its name from the
    -- operating system and its object from the list, and sets its counter to 0 if there was an object.
    -- Every other name, object and counter stays as it was.
    pub free_internal-effects :
        (j : String)
        → Keyed os p
        → (px.named j (free_shared_memory_internal os key p).world
            ≡ (if str_eq key j then false else px.named j p.world))
          × (lookup j (free_shared_memory_internal os key p).shared_object_list
              ≡ (if str_eq key j then none else lookup j p.shared_object_list))
          × (counter_at os j (free_shared_memory_internal os key p) ≡ (
              if str_eq key j && is_listed (lookup key p.shared_object_list)
              then pos 0
              else counter_at os j p))
    free_internal-effects j h = (free-named j h, free-lookup j, free-counter j)
