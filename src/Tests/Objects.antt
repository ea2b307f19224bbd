-- ===== src/Tests/Objects.antt =====
-- The theorems about one shared memory object, at concrete objects.
use shared_object.Prelude.{
  ◌≡◌, refl, true, false, none, some, threw, insufficient_memory, allocate_failed, ok,
}
use shared_object.Dict.{lookup, insert, empty}
use shared_object.SharedObjectClass.{Frame, store_handle, refresh_size, validate_shared_memory}
use shared_object.SharedObjectClass.Methods.{
  allocate_shared_memory, truncate_and_validate, undo_allocation,
}
use shared_object.SharedObjectClass.Validity.{IsValid, mapping, run_method, run_method-IsValid}
use shared_object.SharedObjectClass.Effects.{Allocated, allocate_Allocated}
use shared_object.Tests.Platform.{machine, blank, machine-Posix}

abbrev fresh : Frame machine
fresh = record {
  this = record {
    shared_memory_handle = none;
    mapped_region_handle = none;
    shared_ptr = none;
    key = "k";
    size = 100;
    own_data = false;
  };
  world = blank;
}

abbrev too_big : Frame machine
too_big = record fresh { this = record fresh.this { size = 800 } }

abbrev owner : Frame machine
owner = record {
  this = record fresh.this { shared_memory_handle = some "k"; own_data = true };
  world = record blank { names = insert "k" 100 empty };
}

allocate_ok : (allocate_shared_memory machine fresh).0 ≡ ok tt
unfolding allocate_shared_memory truncate_and_validate undo_allocation store_handle refresh_size
    validate_shared_memory lookup insert
allocate_ok = refl

allocate_insufficient :
    (allocate_shared_memory machine too_big).0
    ≡ threw (allocate_failed (insufficient_memory 800 500))
unfolding allocate_shared_memory truncate_and_validate undo_allocation store_handle refresh_size
    validate_shared_memory lookup insert
allocate_insufficient = refl

run_method-IsValid_example : IsValid machine (run_method machine mapping fresh).this
run_method-IsValid_example =
    run_method-IsValid machine mapping fresh (record { pointer = refl; backed = λ e. refl })

allocate_Allocated_example :
    Allocated machine machine-Posix fresh "k"
      (allocate_shared_memory machine fresh).0
      (allocate_shared_memory machine fresh).1
allocate_Allocated_example = allocate_Allocated machine machine-Posix fresh "k" refl
