-- ===== src/Altrep/StringVector.antt =====
-- Shared character vectors: createSharedStringFromSource and unshareString of src/altrep.cpp, and
-- the operations of src/stringAltrepOperations.cpp. A CHARSXP is its address, a number, by which the
-- source compares. Here and in Operations the index is a list of bytes, of exactly the requested size
-- and zeroed when it is new; InMemory has it in a shared raw vector. std::log2 and std::ceil are taken
-- as exact.
pub mod Operations
pub mod Units
pub mod Charset
pub mod RoundTrip
pub mod Writes
pub mod InMemory
pub mod Shown
pub mod Created
pub mod Renamed
pub mod Elsewhere
pub mod Written
use shared_object.Prelude.{
  ℕ, zero, suc, ◌+◌, ◌*◌, ◌^◌, List, [], ◌∷◌, ◌++◌, Bool, true, false, Option, none, some, ◌==◌,
  ltb, leb, if◌then◌else◌, length, get_elem?, set, replicate, ◌||◌, not, Result, ok, threw, aborted,
  out_of_bounds, r_error,
}
use shared_object.Altrep.Bytes.{read_cell, write_cell}
use shared_object.Altrep.Types.{strsxp}

-- The address of a CHARSXP.
abbrev pub CharSxp : Type 0
CharSxp = ℕ

-- The three entries of data1 and the six of data2. A STRVEC of R_NilValue is `none`.
pub record StringVector : Type 0 where
  pub strvec : Option (List CharSxp)
  pub index : List ℕ
  pub charset : List CharSxp
  pub vector_length : ℕ
  pub unit_size : ℕ
  pub total_size : ℕ
  pub data_type : ℕ
  pub unique_char : ℕ
  pub copy_on_write : Bool

-- The least exponent from `b` on, `fuel` at most further, whose power of `base` is at least `n`.
least_power : ℕ → ℕ → ℕ → ℕ → ℕ
least_power base zero b n = b
least_power base (suc fuel) b n =
    let rest = least_power base fuel (suc b) n in if leb n (base ^ b) then b else rest

-- ceil(log2(unitElt) / 8) and 2 ^ ceil(log2(unitBytes)): sizes are below 2^64
unfoldable pub unit_size_of : ℕ → ℕ
unfolding least_power
unit_size_of unique =
    let unit_elt = if ltb 1 unique then unique else 2 in
    let unit_bytes = least_power 256 8 0 unit_elt in 2 ^ least_power 2 4 0 unit_bytes

-- uniqueCharSet: each CHARSXP with the number of different ones before it.
unfoldable pub find_char : CharSxp → List (CharSxp × ℕ) → Option ℕ
find_char c [] = none
find_char c ((d, i) ∷ chars) = if d == c then some i else find_char c chars

unfoldable pub unique_chars : List CharSxp → List (CharSxp × ℕ) → List (CharSxp × ℕ)
unique_chars [] chars = chars
unique_chars (c ∷ x) chars =
    unique_chars x
      (elim (find_char c chars) [ none ↦ chars ++ (c, length chars) ∷ [] | some i ↦ chars ])

-- The cast of the switch: other unit sizes read and write nothing.
abbrev pub is_unit : ℕ → Bool
is_unit unit = unit == 1 || unit == 2 || unit == 4 || unit == 8

-- The loop that writes the index from position `i` on.
unfoldable pub write_index : ℕ → ℕ → List CharSxp → List (CharSxp × ℕ) → List ℕ → Result (List ℕ)
write_index unit i [] chars index = ok index
write_index unit i (c ∷ x) chars index = elim (find_char c chars) [
  | none ↦ aborted out_of_bounds
  | some k ↦ elim (if is_unit unit then write_cell unit i k index else ok index) [
    | ok index' ↦ write_index unit (suc i) x chars index'
    | threw e ↦ threw e
    | aborted f ↦ aborted f
  ]
]

-- SET_STRING_ELT(charSet, i.second, i.first) for each entry
unfoldable pub fill_charset : List (CharSxp × ℕ) → List CharSxp → List CharSxp
fill_charset [] charset = charset
fill_charset ((c, i) ∷ chars) charset = fill_charset chars (set charset i c)

-- Rf_allocVector(STRSXP, n) is filled with R_BlankString.
unfoldable pub create_shared_string_from_source :
    CharSxp → List CharSxp → Bool → Result StringVector
create_shared_string_from_source blank x copy_on_write =
    let chars = unique_chars x [] in
    let unit = unit_size_of (length chars) in
    let total = unit * length x in
    if not (is_unit unit)
    then aborted r_error
    else elim (write_index unit 0 x chars (replicate total 0)) [
      | ok index ↦ ok (record {
        strvec = some x;
        index = index;
        charset = fill_charset chars (replicate (length chars) blank);
        vector_length = length x;
        unit_size = unit;
        total_size = total;
        data_type = strsxp;
        unique_char = length chars;
        copy_on_write = copy_on_write;
      })
      | threw e ↦ threw e
      | aborted f ↦ aborted f
    ]

-- STRING_ELT
abbrev pub string_elt : List CharSxp → ℕ → Result CharSxp
string_elt v i = elim (get_elem? v i) [ none ↦ aborted out_of_bounds | some c ↦ ok c ]

abbrev pub charset_at : List CharSxp → Result ℕ → Result CharSxp
charset_at charset (ok k) = string_elt charset k
charset_at charset (threw e) = threw e
charset_at charset (aborted f) = aborted f

-- One round of unshareString
unfoldable pub unshared_elt : StringVector → ℕ → Result CharSxp
unshared_elt v i =
    if is_unit v.unit_size
    then charset_at v.charset (read_cell v.unit_size i v.index)
    else aborted r_error

unfoldable pub unshare_from : StringVector → ℕ → ℕ → Result (List CharSxp)
unfolding unshared_elt
unshare_from v i zero = ok []
unshare_from v i (suc left) = elim (unshared_elt v i) [
  | ok c ↦ elim (unshare_from v (suc i) left) [
    | ok rest ↦ ok (c ∷ rest)
    | threw e ↦ threw e
    | aborted f ↦ aborted f
  ]
  | threw e ↦ threw e
  | aborted f ↦ aborted f
]

-- unshareString: `XLENGTH` is sharedString_length.
unfoldable pub unshare_string : StringVector → Result (List CharSxp)
unshare_string v = unshare_from v 0 v.vector_length
