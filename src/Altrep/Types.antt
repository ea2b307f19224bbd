-- ===== src/Altrep/Types.antt =====
-- The vector types that can be shared: getTypeSize and getObjectSize of src/utils.cpp, getAltClass of
-- src/altrep.cpp and C_getDataTypeId of src/C_interface.cpp.
use shared_object.Prelude.{
  ℕ, ◌*◌, ◌%◌, ◌^◌, String, ◌==◌, str_eq, if◌then◌else◌, ◌||◌, Result, ok, aborted, r_error,
}

-- The SEXPTYPE codes of R.
abbrev pub lglsxp : ℕ
lglsxp = 10

abbrev pub intsxp : ℕ
intsxp = 13

abbrev pub realsxp : ℕ
realsxp = 14

abbrev pub cplxsxp : ℕ
cplxsxp = 15

abbrev pub strsxp : ℕ
strsxp = 16

abbrev pub rawsxp : ℕ
rawsxp = 24

unfoldable pub get_type_size : ℕ → Result ℕ
get_type_size type =
    if type == intsxp
    then ok 4
    else if type == lglsxp
    then ok 4
    else if type == realsxp
    then ok 8
    else if type == rawsxp
    then ok 1
    else if type == cplxsxp
    then ok 16
    else aborted r_error

-- elt_size * XLENGTH(x), in uint64_t
abbrev times_length : ℕ → Result ℕ → Result ℕ
times_length n (ok size) = ok (size * n % 2 ^ 64)
times_length n r = r

unfoldable pub get_object_size : ℕ → ℕ → Result ℕ
unfolding get_type_size
get_object_size type xlength = times_length xlength (get_type_size type)

pub data AltClass : Type 0 where
  shared_real shared_integer shared_logical shared_raw shared_complex shared_string : AltClass

unfoldable pub get_alt_class : ℕ → Result AltClass
get_alt_class type =
    if type == realsxp
    then ok shared_real
    else if type == intsxp
    then ok shared_integer
    else if type == lglsxp
    then ok shared_logical
    else if type == rawsxp
    then ok shared_raw
    else if type == cplxsxp
    then ok shared_complex
    else if type == strsxp
    then ok shared_string
    else aborted r_error

-- C_getDataTypeId
unfoldable pub get_data_type_id : String → Result ℕ
get_data_type_id type =
    if str_eq type "raw"
    then ok rawsxp
    else if str_eq type "logical"
    then ok lglsxp
    else if str_eq type "integer"
    then ok intsxp
    else if str_eq type "real" || str_eq type "numeric"
    then ok realsxp
    else if str_eq type "complex"
    then ok cplxsxp
    else if str_eq type "character"
    then ok strsxp
    else aborted r_error
