-- ===== src/Altrep/StringVector/InMemory.antt =====
-- Shared character vectors with their index where it is, in shared memory: createSharedStringFromSource
-- and unshareString of src/altrep.cpp and the methods of src/stringAltrepOperations.cpp as they
-- run in a process. What a method makes of the index it finds is in StringVector and its Operations.
use mathlib.Core.Option
use shared_object.Prelude.{
  ℕ, ◌*◌, ◌%◌, ◌^◌, List, [], map, Bool, true, false, Option, none, some, not, if◌then◌else◌,
  length, replicate, Result, ok, threw, aborted, r_error, Exec, pure, abort, ◌>>=◌, ◌>>◌,
}
use shared_object.Os.{Os}
use shared_object.SharedMemory.{Process}
use shared_object.Altrep.Types.{strsxp, rawsxp}
use shared_object.Altrep.SharedVector.{SharedVector, create_empty_shared_object, length_of}
use shared_object.Altrep.SharedVector.Operations as Numeric
use shared_object.Altrep.SharedVector.Operations.{
  PlainVector, State, unshared, Made, plain, shared, Restored, missing, vector, read_bytes,
  store_bytes, unserialize_state,
}
use shared_object.Altrep.StringVector.{
  CharSxp, StringVector, unit_size_of, unique_chars, is_unit, write_index, fill_charset,
}
use shared_object.Altrep.StringVector as Strings
use shared_object.Altrep.StringVector.Operations as Methods

-- What is written for a vector: data1 without the cached strings, its index by the state of the
-- index, and data2.
pub record StringState : Type 0 where
  pub index : State
  pub charset : List CharSxp
  pub vector_length : ℕ
  pub unit_size : ℕ
  pub total_size : ℕ
  pub data_type : ℕ
  pub unique_char : ℕ
  pub copy_on_write : Bool

module _ (os : Os) where
  -- The index is a raw vector: a shared one, or R's own where it was unserialized to that.
  pub record SharedString : Type 0 where
    pub strvec : Option (List CharSxp)
    pub index : Made os
    pub charset : List CharSxp
    pub vector_length : ℕ
    pub unit_size : ℕ
    pub total_size : ℕ
    pub data_type : ℕ
    pub unique_char : ℕ
    pub copy_on_write : Bool

  -- The bytes from DATAPTR(sharedIndex) on
  unfoldable pub index_bytes : Made os → Process os → List ℕ
  index_bytes (Made.plain x) p = x.bytes
  index_bytes (shared u) p = read_bytes os u (length_of os u) p

  -- The vector that a method finds, its index by the bytes that the memory now has.
  unfoldable pub view : SharedString → Process os → StringVector
  view v p = record {
    strvec = v.strvec;
    index = index_bytes v.index p;
    charset = v.charset;
    vector_length = v.vector_length;
    unit_size = v.unit_size;
    total_size = v.total_size;
    data_type = v.data_type;
    unique_char = v.unique_char;
    copy_on_write = v.copy_on_write;
  }

  -- createEmptySharedObject(RAWSXP, totalSize), with the flags that are its defaults
  abbrev pub create_index : ℕ → Exec (Process os) (SharedVector os)
  create_index total = create_empty_shared_object os rawsxp total true false false

  -- The loop that writes the index into the memory of the new vector.
  abbrev fill_index :
      ℕ → List CharSxp → List (CharSxp × ℕ) → SharedVector os → Exec (Process os) (Unit {0})
  fill_index unit x chars u = do
    bytes ← λ p. (write_index unit 0 x chars (read_bytes os u (length_of os u) p), p)
    store_bytes os u (ok bytes)

  unfoldable pub create_shared_string_from_source :
      CharSxp → List CharSxp → Bool → Exec (Process os) SharedString
  create_shared_string_from_source blank x copy_on_write =
      let chars = unique_chars x [] in
      let unit = unit_size_of (length chars) in
      let total = unit * length x % 2 ^ 64 in
      if not (is_unit unit) then abort r_error else (do
        u ← create_index total
        fill_index unit x chars u
        pure (record {
          strvec = some x;
          index = shared u;
          charset = fill_charset chars (replicate (length chars) blank);
          vector_length = length x;
          unit_size = unit;
          total_size = total;
          data_type = strsxp;
          unique_char = length chars;
          copy_on_write = copy_on_write;
        }))

  unfoldable pub unshare_string : SharedString → Process os → Result (List CharSxp)
  unshare_string v p = Strings.unshare_string (view v p)

  unfoldable pub elt : SharedString → ℕ → Process os → Result (Option CharSxp)
  elt v i p = Methods.elt (view v p) i

  -- The cell is written where the index is: in memory, or in R's own vector.
  abbrev pub put_index : SharedString → Result StringVector → Exec (Process os) SharedString
  put_index v (threw e) p = (threw e, p)
  put_index v (aborted f) p = (aborted f, p)
  put_index v (ok w) p = elim v.index [
    | Made.plain x ↦ (ok (record v { index = plain (record x { bytes = w.index }) }), p)
    | shared u ↦ (store_bytes os u (ok w.index) >> pure v) p
  ]

  unfoldable pub set_elt : SharedString → ℕ → CharSxp → Exec (Process os) SharedString
  set_elt v i c p = put_index v (Methods.set_elt (view v p) i c) p

  -- sharedString_dataptr keeps the strings that it decodes in data1.
  abbrev pub keep_strings :
      SharedString → Result (List CharSxp × StringVector) → Result (List CharSxp × SharedString)
  keep_strings v (ok (strings, w)) = ok (strings, record v { strvec = w.strvec })
  keep_strings v (threw e) = threw e
  keep_strings v (aborted f) = aborted f

  unfoldable pub dataptr : SharedString → Process os → Result (List CharSxp × SharedString)
  dataptr v p = keep_strings v (Methods.dataptr (view v p))

  -- sharedString_duplicate: R's own vector, or another shared one on the same data1 and data2.
  pub data Duplicate : Type 0 where
    unshared_copy : List CharSxp → Duplicate
    alias : SharedString → Duplicate

  abbrev pub duplicate_of : SharedString → Result Methods.Duplicate → Result Duplicate
  duplicate_of v (ok (Methods.plain strings)) = ok (unshared_copy strings)
  duplicate_of v (ok (Methods.shared w)) = ok (alias v)
  duplicate_of v (threw e) = threw e
  duplicate_of v (aborted f) = aborted f

  unfoldable pub duplicate : SharedString → Process os → Result Duplicate
  duplicate v p = duplicate_of v (Methods.duplicate (view v p))

  -- R writes data1 element by element, the index by its own method where it is a shared vector.
  unfoldable pub index_state : Made os → Exec (Process os) State
  index_state (Made.plain x) = pure (unshared x)
  index_state (shared u) = Numeric.serialized_state os u

  abbrev pub state_on : SharedString → State → StringState
  state_on v index = record {
    index = index;
    charset = v.charset;
    vector_length = v.vector_length;
    unit_size = v.unit_size;
    total_size = v.total_size;
    data_type = v.data_type;
    unique_char = v.unique_char;
    copy_on_write = v.copy_on_write;
  }

  unfoldable pub serialized_state : SharedString → Exec (Process os) StringState
  serialized_state v = do index ← index_state v.index; pure (state_on v index)

  -- `read_char` gives the CHARSXP that R makes of a written one, which is another address in another
  -- process.
  abbrev pub on_index : (CharSxp → CharSxp) → StringState → Made os → SharedString
  on_index read_char s index = record {
    strvec = none;
    index = index;
    charset = map read_char s.charset;
    vector_length = s.vector_length;
    unit_size = s.unit_size;
    total_size = s.total_size;
    data_type = s.data_type;
    unique_char = s.unique_char;
    copy_on_write = s.copy_on_write;
  }

  abbrev pub made_of : Restored os → Option (Made os)
  made_of missing = none
  made_of (vector u) = some (shared u)
  made_of (Restored.plain x) = some (plain x)

  unfoldable pub unserialize :
      (CharSxp → CharSxp) → StringState → Exec (Process os) (Option SharedString)
  unserialize read_char s = do
    index ← unserialize_state os s.index
    pure (Option.map (on_index read_char s) (made_of index))
