-- ===== src/SharedMemory.antt =====
-- src/sharedMemory.cpp: the shared memory objects that one process has open, how often each is
-- mapped, and the functions that take a key as it is. The public functions are in `Public`.
pub mod Keys
pub mod Public
pub mod NextId
pub mod Package
pub mod RefCount
pub mod Processes
pub mod Freeing
pub mod Ghosts
pub mod Listing
use shared_object.Prelude.{
  ℕ, String, Bool, true, false, Option, none, some, ltb, if◌then◌else◌, ℤ, pos, increment,
  decrement, is_nonpositive, size_too_small, out_of_range, Result, ok, threw, aborted, Exec, pure,
  modify, ◌>>=◌, ◌>>◌,
}
use shared_object.Dict.{Dict, lookup, insert, erase}
use shared_object.Os.{Os}
use shared_object.SharedObjectClass.{SharedObjectClass, Frame, construct}
use shared_object.SharedObjectClass.Methods.{
  allocate_shared_memory, map_shared_memory, unmap_shared_memory, destroy, free_name,
}

-- The static variables, and the world outside the process. `int` counters do not wrap here.
pub record Process (os : Os) : Type 0 where
  pub map_counter : Dict ℤ
  pub shared_object_list : Dict (SharedObjectClass os)
  pub last_id : Option os.Address
  pub world : os.World

module _ (os : Os) where
  abbrev pub frame : SharedObjectClass os → os.World → Frame os
  frame o w = record { this = o; world = w }

  -- mapCounter[key], which is 0 where there was none
  abbrev pub counter_or_zero : Option ℤ → ℤ
  counter_or_zero none = pos 0
  counter_or_zero (some n) = n

  abbrev pub counter_at : String → Process os → ℤ
  counter_at key p = counter_or_zero (lookup key p.map_counter)

  -- sharedObjectList.at(key)->method()
  unfoldable pub run_at : {A : Type 0} → String → Exec (Frame os) A → Exec (Process os) A
  run_at key m p = elim (lookup key p.shared_object_list) [
    | none ↦ (threw out_of_range, p)
    | some o ↦ (
      (m (frame o p.world)).0,
      record p {
        shared_object_list = insert key (m (frame o p.world)).1.this p.shared_object_list;
        world = (m (frame o p.world)).1.world;
      },
    )
  ]

  unfoldable pub allocate_shared_memory_internal : String → ℕ → Exec (Process os) (Unit {0})
  allocate_shared_memory_internal key size p = elim (lookup key p.shared_object_list) [
    | none ↦
        run_at key (allocate_shared_memory os) (record p {
          shared_object_list = insert key (construct os key size) p.shared_object_list;
        })
    | some o ↦
        if ltb o.size size
        then (threw (size_too_small size o.size), p)
        else run_at key (allocate_shared_memory os) p
  ]

  -- The object that mapSharedMemoryInternal makes for a key that is not in the list.
  unfoldable pub ensure_object : String → Process os → Process os
  ensure_object key p = elim (lookup key p.shared_object_list) [
    | none ↦ record p {
      shared_object_list = insert key (construct os key 0) p.shared_object_list;
      map_counter = insert key (pos 0) p.map_counter;
    }
    | some o ↦ p
  ]

  -- mapCounter[key]++
  unfoldable pub count_up : String → Process os → Process os
  count_up key p = record p {
    map_counter = insert key (increment (counter_at key p)) p.map_counter;
  }

  unfoldable pub map_shared_memory_internal : String → Exec (Process os) os.Address
  map_shared_memory_internal key = do
    modify (ensure_object key)
    ptr ← run_at key (map_shared_memory os)
    modify (count_up key)
    pure ptr

  -- The object is unmapped, taken off the list and destroyed.
  unfoldable pub drop_object : String → SharedObjectClass os → Process os → Process os
  drop_object key o p = record p {
    shared_object_list = erase key p.shared_object_list;
    world = destroy os (unmap_shared_memory os (frame o p.world));
  }

  unfoldable pub unmap_shared_memory_internal : String → Process os → Process os
  unmap_shared_memory_internal key p = elim (lookup key p.shared_object_list) [
    | none ↦ p
    | some o ↦
        let count = decrement (counter_at key p) in
        let q : Process os = record p { map_counter = insert key count p.map_counter } in
        if is_nonpositive count then drop_object key o q else q
  ]

  unfoldable pub free_shared_memory_internal : String → Process os → Process os
  free_shared_memory_internal key p = elim (lookup key p.shared_object_list) [
    | none ↦ record p { world = free_name os key p.world }
    | some o ↦ record p {
      shared_object_list = erase key p.shared_object_list;
      map_counter = erase key p.map_counter;
      world = free_name os key (destroy os (frame o p.world));
    }
  ]

  -- The local object of getSharedMemorySizeInternal is destroyed on both ways out.
  abbrev measured : Result os.Address → Frame os → Result ℕ × os.World
  measured (ok ptr) f = (ok f.this.size, destroy os f)
  measured (threw e) f = (threw e, destroy os f)
  measured (aborted x) f = (aborted x, f.world)

  unfoldable pub get_shared_memory_size_internal : String → Exec (Process os) ℕ
  get_shared_memory_size_internal key p = elim (lookup key p.shared_object_list) [
    | some o ↦ (ok o.size, p)
    | none ↦
        let (ptr, f) = map_shared_memory os (frame (construct os key 0) p.world) in
        let (r, w) = measured ptr f in (r, record p { world = w })
  ]
