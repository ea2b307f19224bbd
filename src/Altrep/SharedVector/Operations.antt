-- ===== src/Altrep/SharedVector/Operations.antt =====
-- The contents of shared vectors of numbers: createSharedObjectFromSource and unshare of
-- src/altrep.cpp, and the operations of src/numericAltrepOperations.cpp that read the memory.
use shared_object.Prelude.{
  ℕ, zero, suc, ◌*◌, Bool, Option, none, some, List, [], ◌∷◌, length, take, drop, leb, ◌==◌,
  if◌then◌else◌, Result, ok, threw, aborted, out_of_bounds, Exec, pure, ◌>>=◌, ◌>>◌,
}
use shared_object.Os.{Os}
use shared_object.SharedMemory.{Process}
use shared_object.SharedMemory.Public.{has_shared_memory}
use shared_object.Altrep.Types.{
  get_type_size, get_object_size, lglsxp, intsxp, realsxp, cplxsxp, rawsxp,
}
use shared_object.Altrep.Registration.{registered}
use shared_object.Altrep.CopyData.{
  VectorType, raw, logical, integer, real, complex, copy_data, concat,
}
use shared_object.Altrep.Subset.{Index, int_index, real_index, subset}
use shared_object.Altrep.SharedVector.{
  DataInfo, SharedVector, returned, create_empty_shared_object, read_shared_object, unserialize,
  length_of,
}

-- A vector that R has allocated, by its bytes.
pub record PlainVector : Type 0 where
  pub data_type : ℕ
  pub bytes : List ℕ

-- What is shared: its type, its elements by their bytes, and, where it has no data pointer, how the
-- elements are handed out region by region.
pub record Source : Type 0 where
  pub data_type : ℕ
  pub elements : List (List ℕ)
  pub regions : Option (List (List (List ℕ)))

-- What is written for a vector: the list in data2, or an unshared copy where the memory is gone.
pub data State : Type 0 where
  listed : DataInfo → State
  unshared : PlainVector → State

-- The branches of copyData, none for another type.
unfoldable pub vector_type : ℕ → Option VectorType
vector_type type =
    if type == rawsxp
    then some raw
    else if type == lglsxp
    then some logical
    else if type == intsxp
    then some integer
    else if type == realsxp
    then some real
    else if type == cplxsxp
    then some complex
    else none

-- `count` elements of `size` bytes each
abbrev pub elements_of : ℕ → ℕ → List ℕ → List (List ℕ)
elements_of size zero bytes = []
elements_of size (suc count) bytes = take size bytes ∷ elements_of size count (drop size bytes)

-- The bytes that a memcpy of `n` bytes takes from a vector.
abbrev pub first_bytes : ℕ → List ℕ → Result (List ℕ)
first_bytes n bytes = if leb n (length bytes) then ok (take n bytes) else aborted out_of_bounds

abbrev pub bytes_of : Result (List (List ℕ)) → Result (List ℕ)
bytes_of (ok elements) = ok (concat elements)
bytes_of (threw e) = threw e
bytes_of (aborted f) = aborted f

-- copyData(target, source)
unfoldable pub copy_elements :
    Option VectorType → List (List (List ℕ)) → List (List ℕ) → Result (List (List ℕ))
copy_elements none regions target = ok target
copy_elements (some type) regions target = copy_data type regions target

module _ (os : Os) where
  -- TYPEOF, XLENGTH, and a number of bytes from DATAPTR
  abbrev type_of : SharedVector os → ℕ
  type_of v = (registered v.class).base_type

  abbrev pub read_bytes : SharedVector os → ℕ → Process os → List ℕ
  read_bytes v n p = os.read_memory v.pointer n p.world

  -- A copy into the memory of a vector, which an error leaves alone.
  abbrev pub store_bytes : SharedVector os → Result (List ℕ) → Exec (Process os) (Unit {0})
  store_bytes v (ok bytes) p = (ok tt, record p { world = os.write_memory v.pointer bytes p.world })
  store_bytes v (threw e) p = (threw e, p)
  store_bytes v (aborted f) p = (aborted f, p)

  -- What copyData makes of the memory of `v`.
  unfoldable pub copied_bytes :
      Source → List (List (List ℕ)) → ℕ → ℕ → SharedVector os → Process os → Result (List ℕ)
  unfolding copy_elements vector_type
  copied_bytes x regions size data_size v p = bytes_of (
      copy_elements (vector_type x.data_type) regions
        (elements_of size (length x.elements) (read_bytes v data_size p)))

  -- memcpy where the source has a data pointer, else copyData
  unfoldable pub fill_vector : Source → ℕ → ℕ → SharedVector os → Exec (Process os) (Unit {0})
  fill_vector x size data_size v p = elim x.regions [
    | none ↦ store_bytes v (first_bytes data_size (concat x.elements)) p
    | some regions ↦ store_bytes v (copied_bytes x regions size data_size v p) p
  ]

  unfoldable pub create_shared_object_from_source :
      Source → Bool → Bool → Bool → Exec (Process os) (SharedVector os)
  create_shared_object_from_source x copy_on_write shared_subset shared_copy = do
    data_size ← returned os (get_object_size x.data_type (length x.elements))
    v ←
        create_empty_shared_object os x.data_type (length x.elements) copy_on_write shared_subset
          shared_copy
    size ← returned os (get_type_size x.data_type)
    fill_vector x size data_size v
    pure v

  unfoldable pub unshare : SharedVector os → Exec (Process os) PlainVector
  unshare v = do
    n ← returned os (get_object_size (type_of v) (length_of os v))
    λ p. (ok (record { data_type = type_of v; bytes = read_bytes v n p }), p)

  -- The vector itself as a source: it has a data pointer. Its elements are read here, before the new
  -- memory is made, where the source copies them afterwards.
  abbrev pub as_source : SharedVector os → ℕ → Process os → Source
  as_source v size p = record {
    data_type = type_of v;
    elements = elements_of size (length_of os v) (read_bytes v (size * length_of os v) p);
    regions = none;
  }

  -- A new vector: R's own, or a shared one
  pub data Made : Type 0 where
    plain : PlainVector → Made
    shared : SharedVector os → Made

  unfoldable pub duplicate : SharedVector os → Exec (Process os) Made
  duplicate v =
      let info = v.data_info in
      if info.copy_on_write
      then (if info.shared_copy
          then (do
            size ← returned os (get_type_size (type_of v))
            x ← λ p. (ok (as_source v size p), p)
            u ←
                create_shared_object_from_source x info.copy_on_write info.shared_subset
                  info.shared_copy
            pure (shared u))
          else (λ p. (
            ok (plain (record { data_type = type_of v; bytes = read_bytes v info.total_size p })),
            p,
          )))
      else (do u ← read_shared_object os info; pure (shared u))

  unfoldable pub serialized_state : SharedVector os → Exec (Process os) State
  serialized_state v = do
    found ← has_shared_memory os v.data_info.data_id
    if found then pure (listed v.data_info) else (do x ← unshare v; pure (unshared x))

  -- R_NilValue is `missing`.
  pub data Restored : Type 0 where
    missing : Restored
    vector : SharedVector os → Restored
    plain : PlainVector → Restored

  abbrev restored : Option (SharedVector os) → Restored
  restored none = missing
  restored (some v) = vector v

  unfoldable pub unserialize_state : State → Exec (Process os) Restored
  unserialize_state (listed info) = do v ← unserialize os info; pure (restored v)
  unserialize_state (unshared x) = pure (Restored.plain x)

  unfoldable pub index_length : Index → ℕ
  index_length (int_index indices) = length indices
  index_length (real_index indices) = length indices

  -- The new vector is made before the first element is read.
  unfoldable pub store_subset : Made → ℕ → Result (List ℕ) → Exec (Process os) Made
  store_subset (shared u) type r = do store_bytes u r; pure (shared u)
  store_subset (Made.plain x) type r = do
    bytes ← returned os r
    pure (plain (record { data_type = type; bytes = bytes }))

  unfoldable pub extract_subset : SharedVector os → Index → Exec (Process os) Made
  unfolding index_length store_subset
  extract_subset v indices =
      let info = v.data_info in
      do
        made ←
            if info.shared_subset
            then (do
              u ←
                  create_empty_shared_object os (type_of v) (index_length indices)
                    info.copy_on_write info.shared_subset info.shared_copy
              pure (shared u))
            else pure (Made.plain (record { data_type = type_of v; bytes = [] }))
        size ← returned os (get_type_size (type_of v))
        x ← λ p. (ok (as_source v size p), p)
        store_subset made (type_of v) (bytes_of (subset size x.elements indices))
