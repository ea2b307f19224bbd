-- ===== src/Tests/Contents.antt =====
-- The theorems about the contents of shared vectors, at concrete vectors and processes.
use shared_object.Prelude.{
  ℕ, ◌*◌, String, ◌≡◌, refl, Bool, true, false, none, some, [], ◌∷◌, arith, inl, inr, Result, ok,
}
use shared_object.Dict.{lookup, insert, empty}
use shared_object.SharedObjectClass.{construct, store_handle, refresh_size, validate_shared_memory}
use shared_object.SharedObjectClass.Methods
use shared_object.SharedMemory.{
  Process, run_at, allocate_shared_memory_internal, map_shared_memory_internal, ensure_object,
  count_up,
}
use shared_object.SharedMemory.Keys.{get_key, to_string}
use shared_object.SharedMemory.NextId.{get_next_id, search_id}
use shared_object.SharedMemory.Public.{
  allocate_shared_memory, map_shared_memory, set_auto_release_after_use,
}
use shared_object.Altrep.Types.{
  intsxp, shared_integer, get_type_size, get_object_size, get_alt_class, get_data_type_id,
}
use shared_object.Altrep.SharedVector.{SharedVector, map_new_vector, create_empty_shared_object}
use shared_object.Altrep.SharedVector.Operations.{
  Source, create_shared_object_from_source, unshare, fill_vector,
}
use shared_object.Altrep.SharedVector.Filling.{
  IsSource, pointed, create_shared_object_from_source-pointed,
}
use shared_object.Altrep.SharedVector.RoundTrip.{unshare-create_shared_object_from_source}
use shared_object.Altrep.SharedVector.Modes.{Mode, create_empty-Mode}
use shared_object.Altrep.Registration.{registered}
use shared_object.Tests.Platform.{machine, blank, machine-Posix, machine-Sharing}

-- A process that has a counter and nothing else.
abbrev pub fresh_process : Process machine
fresh_process = record {
  map_counter = empty;
  shared_object_list = empty;
  last_id = some "counter";
  world = blank;
}

abbrev pub numbers : Source
numbers = record {
  data_type = intsxp;
  elements = (1 ∷ 0 ∷ 0 ∷ 0 ∷ []) ∷ (2 ∷ 1 ∷ 0 ∷ 0 ∷ []) ∷ [];
  regions = none;
}

pub numbers-IsSource : IsSource 4 numbers
unfolding get_type_size
numbers-IsSource = record {
  sized = refl;
  uniform = refl;
  bounded = omega arith;
  covered = inl refl;
}

-- The vector that is made of them under the first id.
abbrev pub vector_one : Bool → Bool → SharedVector machine
vector_one cow sc = record {
  class = shared_integer;
  pointer = get_key machine "1";
  tag = "1";
  data_info = record {
    data_id = "1";
    vector_length = 2;
    total_size = 8;
    data_type = intsxp;
    own_data = true;
    copy_on_write = cow;
    shared_subset = false;
    shared_copy = sc;
  };
}

abbrev pub made : Bool → Bool → Result (SharedVector machine) × Process machine
made cow sc = create_shared_object_from_source machine numbers cow false sc fresh_process

pub made_one : (cow sc : Bool) → (made cow sc).0 ≡ ok (vector_one cow sc)
unfolding create_shared_object_from_source create_empty_shared_object map_new_vector fill_vector
    get_object_size get_type_size get_alt_class allocate_shared_memory map_shared_memory
    set_auto_release_after_use get_next_id search_id Methods.has_shared_memory
    allocate_shared_memory_internal map_shared_memory_internal run_at ensure_object count_up
    Methods.allocate_shared_memory Methods.map_shared_memory Methods.truncate_and_validate
    Methods.undo_allocation Methods.open_if_needed Methods.create_region Methods.undo_mapping
    store_handle refresh_size validate_shared_memory construct lookup insert to_string get_key
made_one cow sc = refl

pub not_listed : (key : String) → lookup key fresh_process.shared_object_list ≡ none
unfolding lookup
not_listed key = refl

unshare-create_shared_object_from_source_example :
    (unshare machine (vector_one true false) (made true false).1).0
    ≡ ok (record { data_type = intsxp; bytes = 1 ∷ 0 ∷ 0 ∷ 0 ∷ 2 ∷ 1 ∷ 0 ∷ 0 ∷ [] })
unshare-create_shared_object_from_source_example =
    unshare-create_shared_object_from_source machine machine-Posix machine-Sharing numbers true
      false false 4 fresh_process (vector_one true false) numbers-IsSource
      (λ id e. not_listed (get_key machine id)) (made_one true false)

-- The same numbers without a data pointer, handed out one by one.
abbrev handed_out : Source
handed_out = record numbers {
  regions = some (((1 ∷ 0 ∷ 0 ∷ 0 ∷ []) ∷ []) ∷ ((2 ∷ 1 ∷ 0 ∷ 0 ∷ []) ∷ []) ∷ []);
}

handed_out-IsSource : IsSource 4 handed_out
unfolding get_type_size
handed_out-IsSource = record {
  sized = refl;
  uniform = refl;
  bounded = omega arith;
  covered = inr (_, refl, refl, refl);
}

create_shared_object_from_source-pointed_example :
    create_shared_object_from_source machine handed_out true false false
    ≡ create_shared_object_from_source machine (pointed machine handed_out) true false false
create_shared_object_from_source-pointed_example =
    create_shared_object_from_source-pointed machine handed_out true false false 4
      handed_out-IsSource

-- Another process on the same machine.
abbrev pub other_process : Bool → Bool → Process machine
other_process cow sc = record fresh_process { world = (made cow sc).1.world }

-- A vector of two integers, by the name of their type
abbrev integer_name : String
integer_name = "integer"

abbrev created : Result (SharedVector machine) × Process machine
created = create_empty_shared_object machine intsxp 2 true false false fresh_process

created_one :
    (created ≡ (ok (vector_one true false), created.1))
    × (get_data_type_id integer_name ≡ ok intsxp)
unfolding create_empty_shared_object map_new_vector get_type_size get_alt_class
    allocate_shared_memory map_shared_memory set_auto_release_after_use get_next_id search_id
    Methods.has_shared_memory allocate_shared_memory_internal map_shared_memory_internal run_at
    ensure_object count_up Methods.allocate_shared_memory Methods.map_shared_memory
    Methods.truncate_and_validate Methods.undo_allocation Methods.open_if_needed
    Methods.create_region Methods.undo_mapping store_handle refresh_size validate_shared_memory
    construct lookup insert to_string get_key get_data_type_id
created_one = (refl, refl)

create_empty-Mode_example :
    (width : ℕ) × Mode integer_name (registered shared_integer).class_name width
    × (machine-Sharing.backs (get_key machine "1") (get_key machine "1") (width * 2) created.1.world
        ≡ true)
    × (unshare machine (vector_one true false) created.1 ≡ (
      ok (record {
        data_type = intsxp;
        bytes = machine.read_memory (get_key machine "1") (width * 2) created.1.world;
      }),
      created.1,
    ))
create_empty-Mode_example =
    create_empty-Mode machine machine-Posix machine-Sharing integer_name intsxp 2 true false false
      fresh_process created.1 (vector_one true false) (λ id e. not_listed (get_key machine id))
      created_one.1 created_one.0 (omega arith)
