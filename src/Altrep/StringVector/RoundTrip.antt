-- ===== src/Altrep/StringVector/RoundTrip.antt =====
-- A shared character vector decodes to the vector that it was made from.
use shared_object.Prelude.{
  ℕ, suc, ◌+◌, ◌*◌, ◌^◌, ◌≤◌, ◌<◌, ◌≡◌, refl, ◌∙◌, List, [], ◌∷◌, Bool, true, some, arith, length,
  replicate, length-replicate, ok,
}
use shared_object.Altrep.Bytes.{
  read_cell, store, write_cell-ok, length-store, read_cell-write_cell_self, read_cell-write_cell_ne,
}
use shared_object.Altrep.StringVector.{
  CharSxp, StringVector, is_unit, unit_size_of, find_char, unique_chars, write_index, fill_charset,
  create_shared_string_from_source, charset_at, unshared_elt, unshare_from, unshare_string,
}
use shared_object.Altrep.Types.{strsxp}
use shared_object.Altrep.StringVector.Units.{unit_size_of-fits}
use shared_object.Altrep.StringVector.Charset.{Coded, source-Coded}

-- The cells from `i` on decode to `x`.
abbrev pub Decoded : ℕ → List CharSxp → List ℕ → ℕ → List CharSxp → Type 0
Decoded unit charset index i [] = Unit
Decoded unit charset index i (c ∷ x) =
    (charset_at charset (read_cell unit i index) ≡ ok c) × Decoded unit charset index (suc i) x

module _ (unit : ℕ) (chars : List (CharSxp × ℕ)) (charset : List CharSxp)
    (known : is_unit unit ≡ true) (fits : length chars ≤ 256 ^ unit) where
  -- What the loop from position `i` leaves behind.
  abbrev pub Written : ℕ → List CharSxp → List ℕ → Type 0
  Written i x index =
      (index' : List ℕ) × (write_index unit i x chars index ≡ ok index')
      × ((j : ℕ) → j < i → read_cell unit j index' ≡ read_cell unit j index)
      × Decoded unit charset index' i x

  write_index-step :
      (i : ℕ) (c : CharSxp) (x : List CharSxp) (index : List ℕ) (k : ℕ)
      → find_char c chars ≡ some k
      → i * unit + unit ≤ length index
      → write_index unit i (c ∷ x) chars index
        ≡ write_index unit (suc i) x chars (store unit (i * unit) k index)
  unfolding write_index
  write_index-step i c x index k e room = ground (arith, write_cell-ok unit i k index room)

  pub write_index-Written :
      (i : ℕ) (x : List CharSxp) (index : List ℕ)
      → Coded chars charset x
      → (i + length x) * unit ≤ length index
      → Written i x index
  unfolding write_index
  write_index-Written i [] index coded room = (index, refl, λ j h. refl, tt)
  write_index-Written i (c ∷ x) index coded room =
      let (k, e, below, at) = coded.0 in
      let here : i * unit + unit ≤ length index = grind arith in
      let index₁ = store unit (i * unit) k index in
      let made = write_cell-ok unit i k index here in
      let (index', done, keep, rest) =
        write_index-Written (suc i) x index₁ coded.1
          (omega (arith, length-store unit (i * unit) k index, room)) in
      (
        index',
        write_index-step i c x index k e here ∙ done,
        (λ j h.
            keep j (omega arith)
            ∙ read_cell-write_cell_ne unit i j k index index₁ (omega arith) made),
        (
          ground (
            arith,
            keep i,
            read_cell-write_cell_self unit i k index index₁ (omega arith) made,
            at,
          ),
          rest,
        ),
      )

-- The vector that createSharedStringFromSource makes, by the bytes of its index.
abbrev pub shared_string : CharSxp → List CharSxp → Bool → List ℕ → StringVector
shared_string blank x copy_on_write index =
    let chars = unique_chars x [] in
    record {
      strvec = some x;
      index = index;
      charset = fill_charset chars (replicate (length chars) blank);
      vector_length = length x;
      unit_size = unit_size_of (length chars);
      total_size = unit_size_of (length chars) * length x;
      data_type = strsxp;
      unique_char = length chars;
      copy_on_write = copy_on_write;
    }

create_shared_string-ok :
    (blank : CharSxp) (x : List CharSxp) (copy_on_write : Bool) (index : List ℕ)
    → let unit = unit_size_of (length (unique_chars x [])) in
      is_unit unit ≡ true
      → write_index unit 0 x (unique_chars x []) (replicate (unit * length x) 0) ≡ ok index
      → create_shared_string_from_source blank x copy_on_write
        ≡ ok (shared_string blank x copy_on_write index)
unfolding create_shared_string_from_source
create_shared_string-ok blank x copy_on_write index known e = ground arith

-- The strings of `x`, and what a vector made from it decodes to.
abbrev DecodesTo : StringVector → List CharSxp → Type 0
DecodesTo v x = Decoded v.unit_size v.charset v.index 0 x

pub create_shared_string-Decoded :
    (blank : CharSxp) (x : List CharSxp) (copy_on_write : Bool)
    → length (unique_chars x []) < 2 ^ 64
    → (index : List ℕ) × (create_shared_string_from_source blank x copy_on_write
        ≡ ok (shared_string blank x copy_on_write index))
      × DecodesTo (shared_string blank x copy_on_write index) x
create_shared_string-Decoded blank x copy_on_write small =
    let unit = unit_size_of (length (unique_chars x [])) in
    let (known, fits, _) = unit_size_of-fits (length (unique_chars x [])) small in
    let (index, done, _, decoded) =
      write_index-Written unit (unique_chars x []) _ known fits 0 x (replicate (unit * length x) 0)
        (source-Coded blank x) (room unit) in
    (index, create_shared_string-ok blank x copy_on_write index known done, decoded)
  where
    room : (unit : ℕ) → (0 + length x) * unit ≤ length {A = ℕ} (replicate (unit * length x) 0)
    room unit = grind (arith, length-replicate {A = ℕ} (unit * length x) 0)

unshared_elt-Decoded :
    (v : StringVector) (i : ℕ) (c : CharSxp)
    → is_unit v.unit_size ≡ true
    → charset_at v.charset (read_cell v.unit_size i v.index) ≡ ok c
    → unshared_elt v i ≡ ok c
unfolding unshared_elt
unshared_elt-Decoded v i c known e = ground arith

pub unshare_from-Decoded :
    (v : StringVector) (i : ℕ) (x : List CharSxp)
    → is_unit v.unit_size ≡ true
    → Decoded v.unit_size v.charset v.index i x
    → unshare_from v i (length x) ≡ ok x
unfolding unshare_from
unshare_from-Decoded v i [] known d = refl
unshare_from-Decoded v i (c ∷ x) known d =
    ground (arith, unshared_elt-Decoded v i c known d.0, unshare_from-Decoded v (suc i) x known d.1)

-- With fewer than 2^64 different strings createSharedStringFromSource succeeds, and unshareString
-- gives the source back.
unshare_string-create :
    (blank : CharSxp) (x : List CharSxp) (copy_on_write : Bool)
    → length (unique_chars x []) < 2 ^ 64
    → (v : StringVector) × (create_shared_string_from_source blank x copy_on_write ≡ ok v)
      × (unshare_string v ≡ ok x)
unfolding unshare_string
unshare_string-create blank x copy_on_write small =
    let (index, made, decoded) = create_shared_string-Decoded blank x copy_on_write small in
    let (known, _, _) = unit_size_of-fits (length (unique_chars x [])) small in
    (
      shared_string blank x copy_on_write index,
      made,
      unshare_from-Decoded (shared_string blank x copy_on_write index) 0 x known decoded,
    )
