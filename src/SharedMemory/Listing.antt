-- ===== src/SharedMemory/Listing.antt =====
-- getSharedObjectList: reading mapCounter by the operator [] adds entries, which change no counter.
use mathlib.Core.List.{map}
use shared_object.Prelude.{String, ◌≡◌, refl, ap, ◌∙◌, List, [], ◌∷◌, ℤ, arith, eq_iff}
use shared_object.Dict.{Dict, lookup, insert, lookup-insert}
use shared_object.Os.{Os}
use shared_object.SharedObjectClass.{
  SharedObjectClass, has_mapped_region_handle, has_shared_memory_handle,
}
use shared_object.SharedMemory.{Process, counter_or_zero, counter_at}
use shared_object.SharedMemory.Public.{Row, list_rows, get_shared_object_list}

module _ (os : Os) where
  abbrev count_of : String → Dict ℤ → ℤ
  count_of key counters = counter_or_zero os (lookup key counters)

  insert_same :
      (key j : String) (counters : Dict ℤ)
      → count_of j (insert key (count_of key counters) counters) ≡ count_of j counters
  insert_same key j counters =
      ground (arith, lookup-insert key j (count_of key counters) counters, eq_iff key j)

  -- The row of an object, by the counters that are given.
  abbrev row_of : Dict ℤ → String × SharedObjectClass os → Row
  row_of counters (name, o) = record {
    name = name;
    shared_memory_handle = has_shared_memory_handle os o;
    mapped_region_handle = has_mapped_region_handle os o;
    shared_memory_counter = count_of name counters;
  }

  abbrev pub row : Process os → String × SharedObjectClass os → Row
  row p entry = row_of p.map_counter entry

  list_counters :
      (entries : List (String × SharedObjectClass os)) (counters : Dict ℤ) (j : String)
      → count_of j (list_rows os entries counters).1 ≡ count_of j counters
  unfolding list_rows
  list_counters [] counters j = refl
  list_counters ((name, o) ∷ entries) counters j =
      list_counters entries (insert name (count_of name counters) counters) j
      ∙ insert_same name j counters

  same_rows :
      (entries : List (String × SharedObjectClass os)) (c d : Dict ℤ)
      → ((j : String) → count_of j c ≡ count_of j d)
      → map (row_of c) entries ≡ map (row_of d) entries
  same_rows [] c d same = refl
  same_rows ((name, o) ∷ entries) c d same = rw (same name, same_rows entries c d same) refl

  list_rows_lem :
      (entries : List (String × SharedObjectClass os)) (counters : Dict ℤ)
      → (list_rows os entries counters).0 ≡ map (row_of counters) entries
  unfolding list_rows
  list_rows_lem [] counters = refl
  list_rows_lem ((name, o) ∷ entries) counters =
      let later = insert name (count_of name counters) counters in
      ap (λ (rows : List Row). row_of counters (name, o) ∷ rows)
        (list_rows_lem entries later
          ∙ same_rows entries later counters (λ j. insert_same name j counters))

  -- The list has one row for each object in the map, with its handles and its counter, and no counter
  -- has changed after it.
  pub get_shared_object_list_lem :
      (p : Process os) (j : String)
      → ((get_shared_object_list os p).0 ≡ map (row p) p.shared_object_list.entries)
        × (counter_at os j (get_shared_object_list os p).1 ≡ counter_at os j p)
  unfolding get_shared_object_list
  get_shared_object_list_lem p j = (
    list_rows_lem p.shared_object_list.entries p.map_counter,
    list_counters p.shared_object_list.entries p.map_counter j,
  )
