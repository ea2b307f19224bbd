-- ===== src/SharedMemory/RefCount/Allocating.antt =====
-- allocateSharedMemory keeps the counters and the pointers of its callers right.
use shared_object.Prelude.{ℕ, String, ◌≡◌, some, arith, eq_iff}
use shared_object.Dict.{lookup}
use shared_object.Os.{Os}
use shared_object.SharedObjectClass.{SharedObjectClass}
use shared_object.SharedObjectClass.Validity.{IsValid, allocate-IsValid}
use shared_object.SharedMemory.{Process, allocate_shared_memory_internal}
use shared_object.SharedMemory.RefCount.Objects.{Holds, allocate-Holds}
use shared_object.SharedMemory.RefCount.Mappings.{Mappings, Tracks, AllHeld-change}
use shared_object.SharedMemory.RefCount.Steps.{
  target, allocate_same, allocate_counters, allocate_lookup,
}
use shared_object.SharedMemory.RefCount.Mapping.{target-IsValid}

module _ (os : Os) where
  allocate_keeps_held :
      (key : String) (size : ℕ) (p : Process os) (a : os.Address)
      → Holds os (lookup key p.shared_object_list) a
      → Holds os (lookup key (allocate_shared_memory_internal os key size p).1.shared_object_list) a
  allocate_keeps_held key size p a h =
      ground (arith, allocate_lookup os key size p, allocate-Holds os (target os key size p) a)

  allocated-IsValid :
      (key : String) (size : ℕ) (p : Process os) (live : Mappings os)
      → Tracks os p live
      → (j : String) (o : SharedObjectClass os)
      → lookup j (allocate_shared_memory_internal os key size p).1.shared_object_list ≡ some o
      → IsValid os o
  allocated-IsValid key size p live t j o e = ground (
    arith,
    allocate_lookup os key size p,
    allocate_same os key size p j,
    t.valid j o,
    eq_iff key j,
    allocate-IsValid os (target os key size p) (target-IsValid os key size p live t),
  )

  pub allocate-Tracks :
      (key : String) (size : ℕ) (p : Process os) (live : Mappings os)
      → Tracks os p live
      → Tracks os (allocate_shared_memory_internal os key size p).1 live
  allocate-Tracks key size p live t = record {
    counted = λ j. ground (arith, allocate_counters os key size p, t.counted j);
    held =
        AllHeld-change os p (allocate_shared_memory_internal os key size p).1 key live
          (allocate_same os key size p) (allocate_keeps_held key size p) t.held;
    valid = allocated-IsValid key size p live t;
  }
