-- ===== src/SharedMemory/RefCount/Steps.antt =====
-- What the operations by key do to the list, the counters and the objects.
use text.Mathlib.TextPositions.{eq_refl}
use shared_object.Prelude.{
  ℕ, String, ◌≡◌, false, Option, none, some, ℤ, pos, increment, decrement, is_nonpositive, ◌⊎◌,
  arith, str_eq, if◌then◌else◌, Result, ok,
}
use shared_object.Dict.{lookup, dict_laws}
use shared_object.Os.{Os}
use shared_object.SharedObjectClass.{SharedObjectClass, Frame, construct}
use shared_object.SharedObjectClass.Methods.{allocate_shared_memory, map_shared_memory}
use shared_object.SharedMemory.{
  Process, frame, counter_at, run_at, ensure_object, count_up, map_shared_memory_internal,
  allocate_shared_memory_internal, unmap_shared_memory_internal, drop_object,
}

module _ (os : Os) where
  abbrev or_new : String → ℕ → Option (SharedObjectClass os) → SharedObjectClass os
  or_new key size none = construct os key size
  or_new key size (some o) = o

  -- The object that an operation on `key` works on, and the call of its method.
  abbrev pub target : String → ℕ → Process os → Frame os
  target key size p = frame os (or_new key size (lookup key p.shared_object_list)) p.world

  abbrev pub mapping : String → Process os → Result os.Address × Frame os
  mapping key p = map_shared_memory os (target key 0 p)

  abbrev counted_up : Result os.Address → ℤ → ℤ
  counted_up (ok a) n = increment n
  counted_up _ n = n

  module _ (key : String) (p : Process os) where
    pub map_result : (map_shared_memory_internal os key p).0 ≡ (mapping key p).0
    unfolding map_shared_memory_internal ensure_object run_at count_up
    map_result = grind (arith, dict_laws, eq_refl)

    pub map_world : (map_shared_memory_internal os key p).1.world ≡ (mapping key p).1.world
    unfolding map_shared_memory_internal ensure_object run_at count_up
    map_world = grind (arith, dict_laws, eq_refl)

    pub map_lookup :
        (j : String)
        → lookup j (map_shared_memory_internal os key p).1.shared_object_list
          ≡ (if str_eq key j then some (mapping key p).1.this else lookup j p.shared_object_list)
    unfolding map_shared_memory_internal ensure_object run_at count_up
    map_lookup j = grind (arith, dict_laws, eq_refl)

    pub map_counter_ne :
        (j : String)
        → str_eq key j ≡ false
        → counter_at os j (map_shared_memory_internal os key p).1 ≡ counter_at os j p
    unfolding map_shared_memory_internal ensure_object run_at count_up
    map_counter_ne j h = grind (arith, dict_laws, eq_refl)

    pub map_counter_self :
        (lookup key p.shared_object_list ≡ none → counter_at os key p ≡ pos 0)
        → counter_at os key (map_shared_memory_internal os key p).1
          ≡ counted_up (mapping key p).0 (counter_at os key p)
    unfolding map_shared_memory_internal ensure_object run_at count_up
    map_counter_self h = grind (arith, dict_laws, eq_refl)

  module _ (key : String) (size : ℕ) (p : Process os) where
    pub allocate_same :
        (j : String)
        → str_eq key j ≡ false
        → lookup j (allocate_shared_memory_internal os key size p).1.shared_object_list
          ≡ lookup j p.shared_object_list
    unfolding allocate_shared_memory_internal run_at
    allocate_same j h = grind (arith, dict_laws, eq_refl)

    pub allocate_counters :
        (allocate_shared_memory_internal os key size p).1.map_counter ≡ p.map_counter
    unfolding allocate_shared_memory_internal run_at
    allocate_counters = grind (arith, dict_laws, eq_refl)

    -- The object of the key afterwards: untouched, or as its method left it.
    pub allocate_lookup :
        (lookup key (allocate_shared_memory_internal os key size p).1.shared_object_list
          ≡ lookup key p.shared_object_list)
        ⊎ (lookup key (allocate_shared_memory_internal os key size p).1.shared_object_list
            ≡ some (allocate_shared_memory os (target key size p)).1.this)
    unfolding allocate_shared_memory_internal run_at
    allocate_lookup = grind (arith, dict_laws, eq_refl)

  module _ (key : String) (p : Process os) where
    pub unmap_same :
        (j : String)
        → str_eq key j ≡ false
        → lookup j (unmap_shared_memory_internal os key p).shared_object_list
          ≡ lookup j p.shared_object_list
    unfolding unmap_shared_memory_internal drop_object
    unmap_same j h = grind (arith, dict_laws, eq_refl)

    pub unmap_counter :
        (j : String) (o : SharedObjectClass os)
        → lookup key p.shared_object_list ≡ some o
        → counter_at os j (unmap_shared_memory_internal os key p)
          ≡ (if str_eq key j then decrement (counter_at os key p) else counter_at os j p)
    unfolding unmap_shared_memory_internal drop_object
    unmap_counter j o e = grind (arith, dict_laws, eq_refl)

    -- The object goes exactly when its counter is no longer positive.
    pub unmap_lookup :
        (o : SharedObjectClass os)
        → lookup key p.shared_object_list ≡ some o
        → lookup key (unmap_shared_memory_internal os key p).shared_object_list
          ≡ (if is_nonpositive (decrement (counter_at os key p)) then none else some o)
    unfolding unmap_shared_memory_internal drop_object
    unmap_lookup o e = grind (arith, dict_laws, eq_refl)
