-- ===== src/Altrep/SharedVector/Subsets.antt =====
-- sharedVector_subset of src/numericAltrepOperations.cpp on a shared vector: which subsets are made,
-- and what is in them.
use shared_object.Prelude.{
  ℕ, ◌*◌, ◌^◌, ◌<◌, ◌≡◌, ◌↔◌, refl, sym, ap, ◌∙◌, Bool, false, List, [], ℤ, arith, Result, ok,
  threw, aborted,
}
use shared_object.Os.{Os, Posix, Sharing}
use shared_object.SharedMemory.{Process}
use shared_object.Altrep.CopyData.{concat}
use shared_object.Altrep.Subset.{Index, int_index, subset, AllSelect, SelectsInt, subset_int_iff}
use shared_object.Altrep.Registration.{base_type-get_alt_class}
use shared_object.Altrep.SharedVector.{SharedVector, length_of}
use shared_object.Altrep.SharedVector.Operations.{
  PlainVector, elements_of, bytes_of, unshare, Made, plain, store_subset, extract_subset,
}
use shared_object.Altrep.SharedVector.Contents.{IsNew}
use shared_object.Altrep.SharedVector.RoundTrip.{unshare-IsNew}

module _ (os : Os) where
  -- The vector of R's own that holds the fetched elements.
  abbrev plain_of : ℕ → Result (List (List ℕ)) → Result (Made os)
  plain_of type (ok values) = ok (plain (record { data_type = type; bytes = concat values }))
  plain_of type (threw e) = threw e
  plain_of type (aborted f) = aborted f

  store_plain :
      (type : ℕ) (x : PlainVector) (r : Result (List (List ℕ))) (p : Process os)
      → store_subset os (plain x) type (bytes_of r) p ≡ (plain_of type r, p)
  unfolding store_subset
  store_plain type x (ok values) p = refl
  store_plain type x (threw e) p = refl
  store_plain type x (aborted f) p = refl

  plain_of_iff :
      (type : ℕ) (r : Result (List (List ℕ))) (made : Made os)
      → (plain_of type r ≡ ok made) ↔ (
          (values : List (List ℕ)) × (r ≡ ok values)
          × (made ≡ plain (record { data_type = type; bytes = concat values })))
  plain_of_iff type (ok values) made =
      ((λ e. (values, refl, ground arith)), λ (vs, e, m). rw m (ground arith))
  plain_of_iff type (threw x) made =
      ((λ e. absurd (ground arith)), λ (vs, e, m). absurd (ground arith))
  plain_of_iff type (aborted x) made =
      ((λ e. absurd (ground arith)), λ (vs, e, m). absurd (ground arith))

same_bytes :
    {type : ℕ} {bytes : List ℕ} {x : PlainVector}
    → ok (record { data_type = type; bytes = bytes }) ≡ ok x
    → bytes ≡ x.bytes
same_bytes e = ground arith

module _ (os : Os) (px : Posix os) (sh : Sharing os) where
  extracting :
      (type count size : ℕ) (cow : Bool) (v : SharedVector os) (p : Process os) (x : PlainVector)
      (indices : Index)
      → IsNew os px sh type count size cow v p.world
      → size * count < 2 ^ 64
      → v.data_info.shared_subset ≡ false
      → (unshare os v p).0 ≡ ok x
      → extract_subset os v indices p
        ≡ (plain_of os type (subset size (elements_of size count x.bytes) indices), p)
  unfolding extract_subset length_of
  extracting type count size cow v p x indices new bound own shown =
      let seen = unshare-IsNew os px sh type count size cow v p p.world new bound in
      let bytes : os.read_memory v.pointer (size * count) p.world ≡ x.bytes =
        same_bytes (ap (λ r. r.0) (sym seen) ∙ shown) in
      rw (own, base_type-get_alt_class type v.class new.classed, new.sized, new.counted, bytes)
        (store_plain os type (record { data_type = type; bytes = [] })
          (subset size (elements_of size count x.bytes) indices) p)

  -- A mapped vector of fewer than 2^64 bytes whose subsets are not shared gives a subset by ints
  -- exactly where each of them counts from 1 within the vector and its byte offset fits an int; the
  -- subset is in R's own memory and holds those elements of what unshare shows. The process stays
  -- as it is in any case.
  pub extract_subset_int_iff :
      (type count size : ℕ) (cow : Bool) (v : SharedVector os) (p : Process os) (x : PlainVector)
      (indices : List ℤ) (made : Made os)
      → IsNew os px sh type count size cow v p.world
      → size * count < 2 ^ 64
      → v.data_info.shared_subset ≡ false
      → (unshare os v p).0 ≡ ok x
      → ((extract_subset os v (int_index indices) p).1 ≡ p)
        × (((extract_subset os v (int_index indices) p).0 ≡ ok made) ↔ (
            (values : List (List ℕ)) × AllSelect
              (SelectsInt size (elements_of size count x.bytes))
              indices
              values
            × (made ≡ plain (record { data_type = type; bytes = concat values }))))
  extract_subset_int_iff type count size cow v p x indices made new bound own shown =
      let source = elements_of size count x.bytes in
      let (to, from) = plain_of_iff os type (subset size source (int_index indices)) made in
      rw (extracting type count size cow v p x (int_index indices) new bound own shown) (
        refl,
        (
          (λ e.
              let (values, r, m) = to e in
              (values, (subset_int_iff size source indices values).0 r, m)),
          λ (values, s, m). from (values, (subset_int_iff size source indices values).1 s, m),
        ),
      )
