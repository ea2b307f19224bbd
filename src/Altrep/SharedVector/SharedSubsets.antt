-- ===== src/Altrep/SharedVector/SharedSubsets.antt =====
-- sharedVector_subset of src/numericAltrepOperations.cpp on a vector whose subsets are shared.
use native.Mathlib.Nat.{mul_comm}
use shared_object.Prelude.{
  ℕ, ◌*◌, ◌%◌, ◌^◌, ◌<◌, String, ◌≡◌, refl, sym, ap, subst, ◌∙◌, Bool, true, none, some, List, ℤ,
  length, arith, Result, ok, threw, aborted, Exec, pure, after_result,
}
use shared_object.Dict.{lookup}
use shared_object.Os.{Os, Posix, Sharing}
use shared_object.SharedObjectClass.{SharedObjectClass}
use shared_object.SharedMemory.{Process}
use shared_object.SharedMemory.Keys.{get_key}
use shared_object.SharedMemory.NextId.{get_next_id}
use shared_object.Altrep.CopyData.{concat}
use shared_object.Altrep.Subset.{int_index, subset, AllSelect, SelectsInt, subset_int_iff}
use shared_object.Altrep.Registration.{base_type-get_alt_class}
use shared_object.Altrep.SharedVector.{SharedVector, create_empty_shared_object, length_of}
use shared_object.Altrep.SharedVector.Operations.{
  PlainVector, elements_of, bytes_of, as_source, unshare, Made, shared, store_subset, index_length,
  extract_subset,
}
use shared_object.Altrep.SharedVector.Contents.{
  IsNew, after-ok, create_empty-IsNew, create_empty-absent,
}
use shared_object.Altrep.SharedVector.Duplicates.{keys_apart}
use shared_object.Altrep.SharedVector.Filling.{ok-injective}
use shared_object.Altrep.SharedVector.RoundTrip.{unshare-IsNew}
use shared_object.Altrep.SharedVector.Selections.{length-selected}

module _ (os : Os) where
  shared-injective : {u v : SharedVector os} → ok (shared u) ≡ ok (shared v) → u ≡ v
  shared-injective e = ground arith

  after_shared :
      {B : Type 0} (r : Result (SharedVector os)) (k : Made os → Exec (Process os) B)
      (q : Process os)
      → after_result
          (after_result {S = Process os} r (λ u. pure (shared u)) q).0
          k
          (after_result {S = Process os} r (λ u. pure (shared u)) q).1
        ≡ after_result r (λ u. k (shared u)) q
  after_shared (ok u) k q = refl
  after_shared (threw e) k q = refl
  after_shared (aborted x) k q = refl

  store_shared :
      (u u' : SharedVector os) (type : ℕ) (r : Result (List (List ℕ))) (q : Process os)
      → (store_subset os (shared u) type (bytes_of r) q).0 ≡ ok (shared u')
      → (values : List (List ℕ)) × (r ≡ ok values)
        × (u ≡ u')
        × ((store_subset os (shared u) type (bytes_of r) q).1
            ≡ record q { world = os.write_memory u.pointer (concat values) q.world })
  unfolding store_subset
  store_shared u u' type (ok values) q e = (values, refl, shared-injective e, refl)
  store_shared u u' type (threw x) q e = absurd (ground arith)
  store_shared u u' type (aborted x) q e = absurd (ground arith)

  module _ (px : Posix os) (sh : Sharing os) (type count size : ℕ) (cow : Bool)
      (v u : SharedVector os) (p : Process os) (indices : List ℤ)
      (new : IsNew os px sh type count size cow v p.world) (bound : size * count < 2 ^ 64)
      (subsets : v.data_info.shared_subset ≡ true)
      (done : (extract_subset os v (int_index indices) p).0 ≡ ok (shared u)) where
    -- The new vector, as it is made
    creation : Result (SharedVector os) × Process os
    creation =
        create_empty_shared_object os type (length indices) cow true v.data_info.shared_copy p

    -- What is stored in it
    storing : SharedVector os → Exec (Process os) (Made os)
    storing made q =
        store_subset os (shared made) type
          (bytes_of (subset size (as_source os v size q).elements (int_index indices))) q

    run : extract_subset os v (int_index indices) p ≡ after_result creation.0 storing creation.1
    unfolding extract_subset index_length creation storing length_of
    run =
        rw (subsets, base_type-get_alt_class type v.class new.classed, new.flagged, new.sized)
          (after_shared creation.0 _ creation.1)

    -- What the method does
    extraction :
        (creation.0 ≡ ok u)
        × ((values : List (List ℕ)) × (subset size
                (as_source os v size creation.1).elements
                (int_index indices)
              ≡ ok values)
            × ((extract_subset os v (int_index indices) p).1 ≡ record creation.1 {
              world = os.write_memory u.pointer (concat values) creation.1.world;
            }))
    unfolding storing
    extraction =
        let (made, e, at) =
          after-ok creation.0 storing creation.1 (shared u) (ap (λ r. r.0) (sym run) ∙ done) in
        let (values, chosen, same, left) =
          store_shared made u type _ creation.1 (ap (λ r. r.0) (sym (run ∙ at)) ∙ done) in
        (
          e ∙ ap ok same,
          (
            values,
            chosen,
            ap (λ r. r.1) (run ∙ at)
                ∙ left
                ∙ ap
                    (λ (m : SharedVector os). record creation.1 {
                      world = os.write_memory m.pointer (concat values) creation.1.world;
                    })
                    same,
          ),
        )

    module _ (fits : size * length indices < 2 ^ 64)
        (fresh : (id : String)
          → (get_next_id os p).0 ≡ ok id
          → lookup (get_key os id) p.shared_object_list ≡ none)
        (o : SharedObjectClass os) (held : lookup (get_key os v.tag) p.shared_object_list ≡ some o)
        (mapped : sh.backs
            (get_key os v.tag)
            v.pointer
            (count * size % 2 ^ 64)
            (extract_subset os v (int_index indices) p).1.world
          ≡ true)
        (x : PlainVector)
        (shown : (unshare os v (extract_subset os v (int_index indices) p).1).0 ≡ ok x) where
      after : Process os
      after = (extract_subset os v (int_index indices) p).1

      -- The new vector where it is made
      created-IsNew : IsNew os px sh type (length indices) size cow u creation.1.world
      unfolding creation
      created-IsNew =
          let (size', hu) =
            create_empty-IsNew os px sh type (length indices) cow true v.data_info.shared_copy p u
              fresh extraction.0 in
          subst (λ s. IsNew os px sh type (length indices) s cow u creation.1.world)
            (ok-injective (sym hu.sized ∙ new.sized)) hu

      -- The bytes of the vector when its elements are fetched
      seen : List ℕ
      seen = os.read_memory v.pointer (size * count) creation.1.world

      selected :
          (values : List (List ℕ)) × AllSelect
            (SelectsInt size (elements_of size count seen))
            indices
            values
          × (after ≡ record creation.1 {
            world = os.write_memory u.pointer (concat values) creation.1.world;
          })
      unfolding length_of seen after
      selected =
          let (values, chosen, left) = extraction.1 in
          let all =
            ap
              (λ n.
                subset size
                  (elements_of size n (os.read_memory v.pointer (size * n) creation.1.world))
                  (int_index indices))
              (sym new.counted)
            ∙ chosen in
          (values, (subset_int_iff size (elements_of size count seen) indices values).0 all, left)

      written : List ℕ
      written = concat selected.0

      length-written : length written ≡ size * length indices
      unfolding written seen
      length-written =
          length-selected size count seen indices selected.0
            (sh.read_length v.pointer (size * count) creation.1.world) selected.1

      total : (n : ℕ) → size * n < 2 ^ 64 → n * size % 2 ^ 64 ≡ size * n
      total n h = rw (mul_comm n size) (omega (arith, h))

      -- The vector is still mapped where the new one is, and the two do not touch.
      still : sh.backs (get_key os v.tag) v.pointer (count * size % 2 ^ 64) creation.1.world ≡ true
      unfolding after
      still =
          sym (
            sh.backs-write (get_key os v.tag) v.pointer u.pointer (count * size % 2 ^ 64)
              (concat selected.0) creation.1.world)
          ∙ ap
              (λ (q : Process os).
                sh.backs (get_key os v.tag) v.pointer (count * size % 2 ^ 64) q.world)
              (sym selected.2)
          ∙ mapped

      untouched :
          os.read_memory v.pointer
            (size * count)
            (os.write_memory u.pointer written creation.1.world)
          ≡ seen
      unfolding seen creation
      untouched =
          sh.other_object (get_key os v.tag) (get_key os u.tag) v.pointer u.pointer (size * count)
            written creation.1.world (rw (← total count bound) still)
            (rw (length-written, ← total (length indices) fits) created-IsNew.backed)
            (keys_apart (get_key os v.tag) (get_key os u.tag) p.shared_object_list o held (
              create_empty-absent os px sh type (length indices) cow true v.data_info.shared_copy p
                u fresh extraction.0))

      left_world : after.world ≡ os.write_memory u.pointer written creation.1.world
      unfolding written
      left_world = ap (λ (q : Process os). q.world) selected.2

      seen-shown : seen ≡ x.bytes
      unfolding after
      seen-shown =
          sym untouched
          ∙ ap (λ w. os.read_memory v.pointer (size * count) w) (sym left_world)
          ∙ ap (λ (y : PlainVector). y.bytes)
              (ok-injective (
                sym (
                  ap (λ r. r.0)
                    (unshare-IsNew os px sh type count size cow v after p.world new bound))
                ∙ shown))

      written-shown : (unshare os u after).0 ≡ ok (record { data_type = type; bytes = written })
      written-shown =
          rw
            (
              unshare-IsNew os px sh type (length indices) size cow u after creation.1.world
                  created-IsNew fits,
              left_world,
              ← length-written,
              sh.write_reads (get_key os u.tag) u.pointer written creation.1.world
                  (rw (length-written, ← total (length indices) fits) created-IsNew.backed),
            )
            refl

      -- A mapped vector of fewer than 2^64 bytes, whose subsets are shared and of whose memory the
      -- process has an object, gives a shared vector for ints, which has fewer than 2^64 bytes; the
      -- process has no object of the key of the id that comes next, and the vector is still mapped
      -- afterwards. Then each index counts from 1 within the vector and its byte offset fits an int,
      -- and the new vector unshares to the elements at the indices, in order, of what the vector
      -- shows afterwards.
      pub extract_subset-unshare :
          (values : List (List ℕ)) × AllSelect
            (SelectsInt size (elements_of size count x.bytes))
            indices
            values
          × ((unshare os u (extract_subset os v (int_index indices) p).1).0
              ≡ ok (record { data_type = type; bytes = concat values }))
      unfolding written after
      extract_subset-unshare = (
        selected.0,
        subst (λ b. AllSelect (SelectsInt size (elements_of size count b)) indices selected.0)
            seen-shown selected.1,
        written-shown,
      )
