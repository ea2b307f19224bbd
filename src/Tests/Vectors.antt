-- ===== src/Tests/Vectors.antt =====
-- The theorems about vectors, at concrete vectors.
use shared_object.Prelude.{
  ℕ, ◌^◌, ◌/◌, ◌≤◌, ◌<◌, ◌⊎◌, ◌≡◌, refl, ◌↔◌, true, false, none, some, List, [], ◌∷◌, ◌++◌, pos,
  arith, if◌then◌else◌, ◌==◌, ok, aborted, out_of_bounds,
}
use shared_object.Altrep.Bytes.{store, write_cell}
use shared_object.Altrep.CopyData.{real, copy_data, copy_data_overruns}
use shared_object.Altrep.Subset.{subset, int_index, AllSelect, SelectsInt, subset_int_iff}
use shared_object.Altrep.StringVector.{CharSxp, StringVector, unit_size_of, is_unit}
use shared_object.Altrep.StringVector.Units.{unit_size_of-fits}
use shared_object.Altrep.StringVector.Operations.{elt, set_elt, find_offset}
use shared_object.Altrep.StringVector.Writes.{elt-set_elt, elt-set_elt_wide, elt-set_elt_cached}

-- Three strings, two of them the same.
abbrev strings : List CharSxp
strings = 5 ∷ 7 ∷ 5 ∷ []

-- The vector of `strings` with cells of one byte and of two, with nothing remembered.
abbrev narrow : StringVector
narrow = record {
  strvec = none;
  index = 0 ∷ 1 ∷ 0 ∷ [];
  charset = 5 ∷ 7 ∷ [];
  vector_length = 3;
  unit_size = 1;
  total_size = 3;
  data_type = 16;
  unique_char = 2;
  copy_on_write = false;
}

abbrev narrow_written : StringVector
narrow_written = record narrow { index = 0 ∷ 1 ∷ 1 ∷ [] }

abbrev wide : StringVector
wide = record narrow { index = 0 ∷ 0 ∷ 1 ∷ 0 ∷ 0 ∷ 0 ∷ []; unit_size = 2; total_size = 6 }

abbrev wide_written : StringVector
wide_written = record wide { index = 0 ∷ 0 ∷ 1 ∷ 0 ∷ 0 ∷ 0 ∷ [] }

abbrev remembered : StringVector
remembered = record narrow { strvec = some strings }

abbrev remembered_written : StringVector
remembered_written = record remembered { index = 0 ∷ 1 ∷ 1 ∷ [] }

elt-set_elt_example : elt narrow_written 1 ≡ (if 2 == 1 then ok (some 7) else elt narrow 1)
unfolding set_elt find_offset write_cell store
elt-set_elt_example = elt-set_elt narrow narrow_written 2 1 7 refl refl (omega arith) refl

elt-set_elt_wide_example : elt wide_written 1 ≡ elt wide 1
unfolding set_elt find_offset write_cell store
elt-set_elt_wide_example = elt-set_elt_wide wide wide_written 1 5 (omega arith) (omega arith) refl

elt-set_elt_cached_example : elt remembered_written 2 ≡ elt remembered 2
unfolding set_elt find_offset write_cell store
elt-set_elt_cached_example =
    elt-set_elt_cached remembered remembered_written 2 2 7 strings refl refl

unit_size_of-fits_example :
    (is_unit (unit_size_of 300) ≡ true)
    × (300 ≤ 256 ^ unit_size_of 300)
    × ((unit_size_of 300 ≡ 1) ⊎ (256 ^ (unit_size_of 300 / 2) < 300))
unit_size_of-fits_example = unit_size_of-fits 300 (omega arith)

abbrev regions : List (List ℕ)
regions = (1 ∷ 2 ∷ []) ∷ (3 ∷ 4 ∷ []) ∷ []

abbrev first_region : List (List ℕ)
first_region = (1 ∷ 2 ∷ []) ∷ []

copy_data_overruns_example :
    copy_data real (first_region ++ (3 ∷ 4 ∷ []) ∷ []) (0 ∷ 0 ∷ 0 ∷ 0 ∷ []) ≡ aborted out_of_bounds
copy_data_overruns_example =
    copy_data_overruns real first_region (3 ∷ 4 ∷ []) (0 ∷ 0 ∷ 0 ∷ 0 ∷ []) (λ e. cc) (omega arith)
      (omega arith) refl

abbrev source : List ℕ
source = 10 ∷ 20 ∷ 30 ∷ []

subset_int_iff_example :
    (subset 4 source (int_index (pos 3 ∷ pos 1 ∷ [])) ≡ ok (30 ∷ 10 ∷ []))
    ↔ AllSelect (SelectsInt 4 source) (pos 3 ∷ pos 1 ∷ []) (30 ∷ 10 ∷ [])
subset_int_iff_example = subset_int_iff 4 source (pos 3 ∷ pos 1 ∷ []) (30 ∷ 10 ∷ [])
