-- ===== src/Altrep/StringVector/Writes.antt =====
-- What sharedString_set_elt does to what sharedString_elt reads.
use shared_object.Prelude.{
  ℕ, zero, suc, ◌+◌, ◌*◌, ◌^◌, ◌≤◌, ◌<◌, ◌≡◌, refl, ap, ◌∙◌, List, [], ◌∷◌, Bool, true, none, some,
  Option-cases, Bool-cases, ==_iff, if◌then◌else◌, ◌==◌, r_error, inl, inr, arith, length,
  get_elem?, Result, ok, threw, aborted,
}
use shared_object.Altrep.Bytes.{
  read_cell, write_cell, read_cell-write_cell_self, read_cell-write_cell_ne, length-store,
  load-store_ne,
}
use shared_object.Altrep.StringVector.{
  CharSxp, StringVector, create_shared_string_from_source, unique_chars, is_unit, charset_at,
}
use shared_object.Altrep.StringVector.RoundTrip.{
  Decoded, shared_string, create_shared_string-Decoded,
}
use shared_object.Altrep.StringVector.Units.{unit_size_of-fits}
use shared_object.Altrep.StringVector.Operations.{
  elt, set_elt, find_offset, with_index, found, serialized_state, unserialize,
}

pub find_offset-position :
    (c : CharSxp) (charset : List CharSxp) (k : ℕ)
    → find_offset c charset ≡ some k
    → (k < length charset) × (get_elem? charset k ≡ some c)
unfolding find_offset
find_offset-position c [] k e = cc
find_offset-position c (d ∷ charset) zero e = ground (arith, Option-cases (find_offset c charset))
find_offset-position c (d ∷ charset) (suc k) e = ground (arith, find_offset-position c charset k)

-- A successful write: the number of the string, and the bytes with that number at byte `i`.
abbrev Wrote : StringVector → ℕ → CharSxp → StringVector → Type 0
Wrote v i c v' =
    (k : ℕ) × (index : List ℕ) × (find_offset c v.charset ≡ some k)
    × (write_cell 1 i k v.index ≡ ok index)
    × (v' ≡ record v { index = index })

with_index-ok :
    (v v' : StringVector) (i k : ℕ) (c : CharSxp) (r : Result (List ℕ))
    → find_offset c v.charset ≡ some k
    → write_cell 1 i k v.index ≡ r
    → with_index v r ≡ ok v'
    → Wrote v i c v'
with_index-ok v v' i k c (ok index) e w h = (k, index, e, w, ground arith)
with_index-ok v v' i k c (threw x) e w h = cc
with_index-ok v v' i k c (aborted x) e w h = cc

pub set_elt-Wrote :
    (v v' : StringVector) (i : ℕ) (c : CharSxp)
    → is_unit v.unit_size ≡ true
    → set_elt v i c ≡ ok v'
    → Wrote v i c v'
unfolding set_elt
set_elt-Wrote v v' i c known h = elim (Option-cases (find_offset c v.charset)) [
  | inl e ↦ cc (set_elt_none e)
  | inr (k, e) ↦ with_index-ok v v' i k c _ e refl (ground arith)
]
  where
    set_elt_none : find_offset c v.charset ≡ none → set_elt v i c ≡ aborted r_error
    set_elt_none e = ground arith

elt-cell :
    (v : StringVector) (i : ℕ)
    → v.strvec ≡ none
    → is_unit v.unit_size ≡ true
    → elt v i ≡ found (charset_at v.charset (read_cell v.unit_size i v.index))
unfolding elt
elt-cell v i uncached known = ground arith

same_index :
    (v v' : StringVector) (i : ℕ) (index : List ℕ)
    → v' ≡ record v { index = index }
    → read_cell v.unit_size i index ≡ read_cell v.unit_size i v.index
    → elt v' i ≡ elt v i
unfolding elt
same_index v v' i index e same = ground arith

-- The cell of one byte that was written has the number of the string, and the others are as before.
pub elt-written :
    (v : StringVector) (i j k : ℕ) (c : CharSxp) (index : List ℕ)
    → v.strvec ≡ none
    → v.unit_size ≡ 1
    → k < 256
    → get_elem? v.charset k ≡ some c
    → write_cell 1 i k v.index ≡ ok index
    → elt (record v { index = index }) j ≡ (if i == j then ok (some c) else elt v j)
elt-written v i j k c index uncached narrow fits at w =
    let known : is_unit v.unit_size ≡ true = rw narrow in
    elim (Bool-cases (i == j)) [
      | inl same ↦
          rw (same, ← (==_iff i j).0 same)
            (ground (
              arith,
              elt-cell (record v { index = index }) i,
              read_cell-write_cell_self 1 i k v.index index fits w,
              at,
            ))
      | inr ne ↦ rw ne (
          same_index v (record v { index = index }) j index refl
            (rw narrow
              (read_cell-write_cell_ne 1 i j k v.index index (λ e. ground (arith, e, ne)) w)))
    ]

-- In a vector of one-byte cells with no cached strings, whose set has at most 256 strings, after a
-- successful write its position reads the string and every other position reads as before.
pub elt-set_elt :
    (v v' : StringVector) (i j : ℕ) (c : CharSxp)
    → v.strvec ≡ none
    → v.unit_size ≡ 1
    → length v.charset ≤ 256
    → set_elt v i c ≡ ok v'
    → elt v' j ≡ (if i == j then ok (some c) else elt v j)
elt-set_elt v v' i j c uncached narrow small h =
    let (k, index, e, w, e') = set_elt-Wrote v v' i c (rw narrow) h in
    let (below, at) = find_offset-position c v.charset k e in
    ap (λ z. elt z j) e'
    ∙ elt-written v i j k c index uncached narrow (omega (arith, below, small)) at w

-- While the strings are cached, a successful write changes nothing that sharedString_elt reads.
pub elt-set_elt_cached :
    (v v' : StringVector) (i j : ℕ) (c : CharSxp) (strings : List CharSxp)
    → v.strvec ≡ some strings
    → set_elt v i c ≡ ok v'
    → elt v' j ≡ elt v j
unfolding elt set_elt
elt-set_elt_cached v v' i j c strings cached e = ground arith

-- A cell of more than one byte
byte_misses :
    (w i k : ℕ) (bytes bytes' : List ℕ)
    → 1 < w
    → 1 ≤ i
    → write_cell 1 i k bytes ≡ ok bytes'
    → read_cell w i bytes' ≡ read_cell w i bytes
unfolding read_cell write_cell
byte_misses w i k bytes bytes' wide later e = ground (
  arith,
  length-store 1 (i * 1) k bytes,
  load-store_ne w (i * w) 1 (i * 1) k bytes (inr (after w i wide later)),
)
  where
    after : (w i : ℕ) → 1 < w → 1 ≤ i → i * 1 + 1 ≤ i * w
    after w i wide later = grind arith

-- Where the cells are wider than a byte, a successful write at a position other than the first is
-- lost: the position reads as before.
pub elt-set_elt_wide :
    (v v' : StringVector) (i : ℕ) (c : CharSxp)
    → 1 < v.unit_size
    → 1 ≤ i
    → set_elt v i c ≡ ok v'
    → elt v' i ≡ elt v i
elt-set_elt_wide v v' i c wide later h = elim (Bool-cases (is_unit v.unit_size)) [
  | inl known ↦
      let (k, index, e, w, e') = set_elt-Wrote v v' i c known h in
      same_index v v' i index e' (byte_misses v.unit_size i k v.index index wide later w)
  | inr unknown ↦ unfold set_elt elt in ground arith
]

-- Positions of a source
charset_at-Decoded :
    (unit : ℕ) (charset : List CharSxp) (index : List ℕ) (i : ℕ) (x : List CharSxp) (j : ℕ)
    (c : CharSxp)
    → Decoded unit charset index i x
    → get_elem? x j ≡ some c
    → charset_at charset (read_cell unit (i + j) index) ≡ ok c
charset_at-Decoded unit charset index i [] j c d e = cc
charset_at-Decoded unit charset index i (a ∷ x) zero c d e =
    rw (let z : i + 0 ≡ i = omega arith in z) (ground (arith, d.0))
charset_at-Decoded unit charset index i (a ∷ x) (suc j) c d e =
    rw (let z : i + suc j ≡ suc i + j = omega arith in z)
      (charset_at-Decoded unit charset index (suc i) x j c d.1 e)

elt-cached :
    (v : StringVector) (x : List CharSxp) (i : ℕ) (c : CharSxp)
    → v.strvec ≡ some x
    → get_elem? x i ≡ some c
    → elt v i ≡ ok (some c)
unfolding elt
elt-cached v x i c cached at = ground arith

-- A vector with no cached strings that decodes to `x` is read as `x`.
pub elt-Decoded :
    (v : StringVector) (x : List CharSxp) (i : ℕ) (c : CharSxp)
    → v.strvec ≡ none
    → is_unit v.unit_size ≡ true
    → Decoded v.unit_size v.charset v.index 0 x
    → get_elem? x i ≡ some c
    → elt v i ≡ ok (some c)
elt-Decoded v x i c uncached known d at =
    elt-cell v i uncached known
    ∙ ap (λ n. found (charset_at v.charset (read_cell v.unit_size n v.index)))
        (let z : i ≡ 0 + i = omega arith in z)
    ∙ ap found (charset_at-Decoded v.unit_size v.charset v.index 0 x i c d at)

unserialize-serialized_state :
    (v : StringVector) → unserialize (serialized_state v) (some v.index) ≡ some (serialized_state v)
unfolding unserialize serialized_state
unserialize-serialized_state v = refl

elt-unserialized :
    (v : StringVector) (x : List CharSxp) (i : ℕ) (c : CharSxp)
    → is_unit v.unit_size ≡ true
    → Decoded v.unit_size v.charset v.index 0 x
    → get_elem? x i ≡ some c
    → elt (serialized_state v) i ≡ ok (some c)
unfolding serialized_state
elt-unserialized v x i c known d at = elt-Decoded (serialized_state v) x i c refl known d at

-- With fewer than 2^64 different strings in the source, the shared vector of it is made, and each
-- string of the source is read at its position: from the shared vector, which has the source cached,
-- and from the vector that its serialized state gives on the same index, which has not.
elt-create :
    (blank : CharSxp) (x : List CharSxp) (copy_on_write : Bool) (i : ℕ) (c : CharSxp)
    → length (unique_chars x []) < 2 ^ 64
    → get_elem? x i ≡ some c
    → (v : StringVector) × (w : StringVector) × (create_shared_string_from_source blank x
          copy_on_write
        ≡ ok v)
      × (elt v i ≡ ok (some c))
      × (unserialize (serialized_state v) (some v.index) ≡ some w)
      × (elt w i ≡ ok (some c))
elt-create blank x copy_on_write i c small at =
    let (index, made, decoded) = create_shared_string-Decoded blank x copy_on_write small in
    let (known, _, _) = unit_size_of-fits (length (unique_chars x [])) small in
    let v = shared_string blank x copy_on_write index in
    (
      v,
      serialized_state v,
      made,
      elt-cached v x i c refl at,
      unserialize-serialized_state v,
      elt-unserialized v x i c known decoded at,
    )
