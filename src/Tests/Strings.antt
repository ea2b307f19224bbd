-- ===== src/Tests/Strings.antt =====
-- The theorems about shared character vectors with their index in shared memory, at concrete
-- processes.
use shared_object.Prelude.{
  if◌then◌else◌, ◌==◌, ◌+◌, ℕ, ◌≡◌, refl, true, false, none, some, [], ◌∷◌, List, get_elem?, arith,
  ok, length, ◌^◌, ◌<◌, ◌%◌,
}
use shared_object.Dict.{lookup, insert}
use shared_object.SharedObjectClass.{
  construct, store_handle, refresh_size, open_shared_memory_handle, validate_shared_memory,
}
use shared_object.SharedObjectClass.Methods
use shared_object.SharedMemory.{
  Process, run_at, allocate_shared_memory_internal, map_shared_memory_internal, ensure_object,
  count_up,
}
use shared_object.SharedMemory.Keys.{get_key, to_string}
use shared_object.SharedMemory.NextId.{get_next_id, search_id}
use shared_object.SharedMemory.Public.{
  allocate_shared_memory, map_shared_memory, set_auto_release_after_use, has_shared_memory,
}
use shared_object.Altrep.Bytes.{write_cell, store}
use shared_object.Altrep.Types.{rawsxp, shared_raw, get_type_size, get_alt_class}
use shared_object.Altrep.SharedVector.{
  SharedVector, map_new_vector, create_empty_shared_object, read_shared_object, unserialize,
  length_of,
}
use shared_object.Altrep.SharedVector.Operations as Numeric
use shared_object.Altrep.StringVector.{
  CharSxp, unique_chars, find_char, unit_size_of, write_index, fill_charset,
}
use shared_object.Altrep.StringVector.InMemory as InMemory
use shared_object.Altrep.StringVector.InMemory.{
  SharedString, StringState, create_index, on_index, state_on,
}
use shared_object.Altrep.StringVector.Created.{
  create-Shows, made_on, index_size, unshare_string-create_in_memory,
}
use shared_object.Altrep.StringVector.Operations as Operations
use shared_object.Altrep.SharedVector.Contents.{IsNew}
use shared_object.Altrep.StringVector.Written.{set_elt-elsewhere}
use shared_object.Altrep.StringVector.Elsewhere.{restored-Shows, unserialize-serialized_string}
use shared_object.Altrep.StringVector.Shown.{duplicate-dataptr-Shows}
use shared_object.Tests.Platform.{machine, machine-Posix, machine-Sharing, machine-Counting}
use shared_object.Tests.Contents.{fresh_process, not_listed}

abbrev words : List CharSxp
words = 700 ∷ 900 ∷ 700 ∷ []

-- The vector that is made for their index under the first id.
abbrev index_one : SharedVector machine
index_one = record {
  class = shared_raw;
  pointer = get_key machine "1";
  tag = "1";
  data_info = record {
    data_id = "1";
    vector_length = 3;
    total_size = 3;
    data_type = rawsxp;
    own_data = true;
    copy_on_write = true;
    shared_subset = false;
    shared_copy = false;
  };
}

words_small : (length (unique_chars words []) < 2 ^ 64) × (index_size words < 2 ^ 64)
unfolding unique_chars find_char unit_size_of
words_small = (omega arith, omega arith)

index_made : (create_index machine (index_size words % 2 ^ 64) fresh_process).0 ≡ ok index_one
unfolding create_empty_shared_object map_new_vector get_type_size get_alt_class
    allocate_shared_memory map_shared_memory unique_chars find_char unit_size_of
    set_auto_release_after_use get_next_id search_id Methods.has_shared_memory
    allocate_shared_memory_internal map_shared_memory_internal run_at ensure_object count_up
    Methods.allocate_shared_memory Methods.map_shared_memory Methods.truncate_and_validate
    Methods.undo_allocation Methods.open_if_needed Methods.create_region Methods.undo_mapping
    store_handle refresh_size validate_shared_memory construct lookup insert to_string get_key
index_made = refl

abbrev after : Process machine
after = (InMemory.create_shared_string_from_source machine 0 words true fresh_process).1

unshare_string-create_in_memory_example :
    (v : SharedString machine) × ((InMemory.create_shared_string_from_source machine 0 words true
        fresh_process).0
      ≡ ok v)
    × (InMemory.unshare_string machine v after ≡ ok words)
unshare_string-create_in_memory_example =
    unshare_string-create_in_memory machine machine-Posix machine-Sharing fresh_process 0 words true
      index_one words_small.0 words_small.1 (λ id e. not_listed (get_key machine id)) index_made

abbrev written_words : StringState
written_words =
    state_on machine (made_on machine 0 words true index_one) (Numeric.listed index_one.data_info)

words_written :
    (InMemory.serialized_state machine (made_on machine 0 words true index_one) after).0
    ≡ ok written_words
unfolding create_empty_shared_object map_new_vector get_type_size get_alt_class
    allocate_shared_memory map_shared_memory unique_chars find_char unit_size_of
    set_auto_release_after_use get_next_id search_id Methods.has_shared_memory
    allocate_shared_memory_internal map_shared_memory_internal run_at ensure_object count_up
    Methods.allocate_shared_memory Methods.map_shared_memory Methods.truncate_and_validate
    Methods.undo_allocation Methods.open_if_needed Methods.create_region Methods.undo_mapping
    store_handle refresh_size validate_shared_memory construct lookup insert to_string get_key
    InMemory.serialized_state InMemory.index_state Numeric.serialized_state has_shared_memory
    InMemory.create_shared_string_from_source write_index write_cell store length_of fill_charset
words_written = refl

-- Another process on the same machine, in which a string has the next address.
abbrev reader : Process machine
reader = record fresh_process {
  world =
      (InMemory.serialized_state machine (made_on machine 0 words true index_one) after).1.world;
}

abbrev as_read : SharedString machine
as_read = on_index machine (λ c. c + 1) written_words (Numeric.shared index_one)

words_read : (InMemory.unserialize machine (λ c. c + 1) written_words reader).0 ≡ ok (some as_read)
unfolding create_empty_shared_object map_new_vector get_type_size get_alt_class
    allocate_shared_memory map_shared_memory unique_chars find_char unit_size_of
    set_auto_release_after_use get_next_id search_id Methods.has_shared_memory
    allocate_shared_memory_internal map_shared_memory_internal run_at ensure_object count_up
    Methods.allocate_shared_memory Methods.map_shared_memory Methods.truncate_and_validate
    Methods.undo_allocation Methods.open_if_needed Methods.create_region Methods.undo_mapping
    store_handle refresh_size validate_shared_memory construct lookup insert to_string get_key
    InMemory.serialized_state InMemory.index_state Numeric.serialized_state has_shared_memory
    InMemory.create_shared_string_from_source write_index write_cell store length_of fill_charset
    read_shared_object open_shared_memory_handle unserialize Numeric.unserialize_state
    InMemory.unserialize
words_read = refl

unserialize-serialized_string_example :
    (InMemory.unshare_string machine as_read
        (InMemory.unserialize machine (λ c. c + 1) written_words reader).1
      ≡ ok (701 ∷ 901 ∷ 701 ∷ []))
    × ((i : ℕ) (c : CharSxp)
        → get_elem? words i ≡ some c
        → InMemory.elt machine as_read i
            (InMemory.unserialize machine (λ c. c + 1) written_words reader).1
          ≡ ok (some (c + 1)))
unserialize-serialized_string_example =
    unserialize-serialized_string machine machine-Counting machine-Posix machine-Sharing 0 words
      true fresh_process reader index_one words_small.0 words_small.1
      (λ id e. not_listed (get_key machine id)) index_made written_words words_written refl
      (not_listed (get_key machine "1")) (λ c. c + 1) as_read words_read

-- The first string is written through the vector that was made.
abbrev made_words : SharedString machine
made_words = made_on machine 0 words true index_one

word_set : (InMemory.set_elt machine made_words 0 900 after).0 ≡ ok made_words
unfolding create_empty_shared_object map_new_vector get_type_size get_alt_class
    allocate_shared_memory map_shared_memory unique_chars find_char unit_size_of
    set_auto_release_after_use get_next_id search_id Methods.has_shared_memory
    allocate_shared_memory_internal map_shared_memory_internal run_at ensure_object count_up
    Methods.allocate_shared_memory Methods.map_shared_memory Methods.truncate_and_validate
    Methods.undo_allocation Methods.open_if_needed Methods.create_region Methods.undo_mapping
    store_handle refresh_size validate_shared_memory construct lookup insert to_string get_key
    InMemory.create_shared_string_from_source write_index write_cell store length_of fill_charset
    InMemory.set_elt InMemory.view InMemory.index_bytes Operations.set_elt Operations.find_offset
word_set = refl

one_byte : made_words.unit_size ≡ 1
unfolding unit_size_of unique_chars find_char
one_byte = refl

abbrev after_set : Process machine
after_set = record fresh_process {
  world = (InMemory.set_elt machine made_words 0 900 after).1.world;
}

set_elt-elsewhere_example :
    InMemory.elt machine as_read 0 after_set
    ≡ (if 0 == 0 then ok (some 901) else InMemory.elt machine as_read 0 after)
unfolding fill_charset unique_chars find_char
set_elt-elsewhere_example =
    set_elt-elsewhere machine machine-Posix machine-Sharing (index_size words) true after made_words
      as_read index_one index_one refl refl index_IsNew index_IsNew refl words_small.1 (λ c. c + 1)
      0 0 900 made_words after_set one_byte (omega arith) one_byte refl refl word_set refl
  where
    index_IsNew :
        IsNew machine machine-Posix machine-Sharing rawsxp
          (index_size words)
          1
          true
          index_one
          after.world
    index_IsNew =
        (create-Shows machine machine-Posix machine-Sharing fresh_process 0 words true index_one
          words_small.0 words_small.1 (λ id e. not_listed (get_key machine id)) index_made).2

abbrev there : Process machine
there = (InMemory.unserialize machine (λ c. c + 1) written_words reader).1

duplicate-dataptr-Shows_example :
    (InMemory.duplicate machine as_read there ≡ ok (InMemory.unshared_copy (701 ∷ 901 ∷ 701 ∷ [])))
    × (as_read.strvec ≡ none
        → InMemory.dataptr machine as_read there
          ≡ ok (701 ∷ 901 ∷ 701 ∷ [], record as_read { strvec = some (701 ∷ 901 ∷ 701 ∷ []) }))
duplicate-dataptr-Shows_example =
    duplicate-dataptr-Shows machine as_read (701 ∷ 901 ∷ 701 ∷ []) there
      (restored-Shows machine machine-Counting machine-Posix machine-Sharing 0 words true
        fresh_process reader index_one words_small.0 words_small.1
        (λ id e. not_listed (get_key machine id)) index_made written_words words_written refl
        (not_listed (get_key machine "1")) (λ c. c + 1) as_read words_read).1
