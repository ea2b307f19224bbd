-- ===== src/Altrep/StringVector/Operations.antt =====
-- src/stringAltrepOperations.cpp: the operations that R calls on a shared character vector.
use mathlib.Core.Option
use shared_object.Prelude.{
  ℕ, suc, List, [], ◌∷◌, Option, none, some, ◌==◌, if◌then◌else◌, Result, ok, threw, aborted,
  r_error,
}
use shared_object.Altrep.Bytes.{write_cell, read_cell}
use shared_object.Altrep.StringVector.{
  CharSxp, StringVector, is_unit, string_elt, charset_at, unshare_string,
}

abbrev pub found : Result CharSxp → Result (Option CharSxp)
found (ok c) = ok (some c)
found (threw e) = threw e
found (aborted f) = aborted f

abbrev pub with_index : StringVector → Result (List ℕ) → Result StringVector
with_index v (ok index) = ok (record v { index = index })
with_index v (threw e) = threw e
with_index v (aborted f) = aborted f

abbrev pub cached : StringVector → Result (List CharSxp) → Result (List CharSxp × StringVector)
cached v (ok strings) = ok (strings, record v { strvec = some strings })
cached v (threw e) = threw e
cached v (aborted f) = aborted f

unfoldable pub length_of : StringVector → ℕ
length_of v = v.vector_length

-- sharedString_elt; the second value is R_NilValue, for a unit size that is not known.
unfoldable pub elt : StringVector → ℕ → Result (Option CharSxp)
elt v i = elim v.strvec [
  | some strings ↦ found (string_elt strings i)
  | none ↦
      if is_unit v.unit_size
      then found (charset_at v.charset (read_cell v.unit_size i v.index))
      else ok none
]

-- std::find over the character set
unfoldable pub find_offset : CharSxp → List CharSxp → Option ℕ
find_offset c [] = none
find_offset c (d ∷ charset) = if d == c then some 0 else Option.map suc (find_offset c charset)

-- Every case of the switch writes through a `uint8_t *`.
unfoldable pub set_elt : StringVector → ℕ → CharSxp → Result StringVector
unfolding find_offset
set_elt v i c = elim (find_offset c v.charset) [
  | none ↦ aborted r_error
  | some offset ↦ if is_unit v.unit_size then with_index v (write_cell 1 i offset v.index) else ok v
]

-- sharedString_dataptr: the cached vector, or the decoded one, which it caches.
unfoldable pub dataptr : StringVector → Result (List CharSxp × StringVector)
dataptr v = elim v.strvec [ some strings ↦ ok (strings, v) | none ↦ cached v (unshare_string v) ]

unfoldable pub dataptr_or_null : StringVector → Option (List CharSxp)
dataptr_or_null v = v.strvec

-- A duplicate: a plain vector, or another shared one on the same data.
pub data Duplicate : Type 0 where
  plain : List CharSxp → Duplicate
  shared : StringVector → Duplicate

abbrev pub plain_of : Result (List CharSxp) → Result Duplicate
plain_of (ok strings) = ok (plain strings)
plain_of (threw e) = threw e
plain_of (aborted f) = aborted f

unfoldable pub duplicate : StringVector → Result Duplicate
duplicate v = if v.copy_on_write then plain_of (unshare_string v) else ok (shared v)

-- The serialized state has no cached vector; the vector itself keeps its own.
unfoldable pub serialized_state : StringVector → StringVector
serialized_state v = record v { strvec = none }

-- sharedString_unserialize: `index` is what the index of the state, a shared vector of its own, was
-- unserialized to. It is none where its memory is gone, and then so is the result, R_NilValue.
unfoldable pub unserialize : StringVector → Option (List ℕ) → Option StringVector
unserialize state none = none
unserialize state (some index) = some (record state { index = index })
