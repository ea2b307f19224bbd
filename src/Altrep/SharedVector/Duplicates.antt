-- ===== src/Altrep/SharedVector/Duplicates.antt =====
-- sharedVector_duplicate of src/numericAltrepOperations.cpp: what a duplicate shows, and whether it
-- shares the memory.
use native.Mathlib.Nat.{mul_comm}
use shared_object.Prelude.{
  ℕ, zero, suc, ◌*◌, ◌%◌, ◌^◌, ◌<◌, String, ◌≡◌, refl, sym, subst, ap, ◌∙◌, Bool, true, false, none,
  some, List, [], ◌∷◌, length, arith, drop, take-append-drop, length-drop, ok, inl, inr, str_eq,
  eq_iff, pure, ◌>>=◌, Bool-cases,
}
use shared_object.Dict.{Dict, lookup}
use shared_object.Os.{Os, Posix, Sharing}
use shared_object.SharedObjectClass.{SharedObjectClass}
use shared_object.SharedMemory.{Process}
use shared_object.SharedMemory.Keys.{get_key}
use shared_object.SharedMemory.NextId.{get_next_id}
use shared_object.Altrep.CopyData.{concat}
use shared_object.Altrep.Registration.{base_type-get_alt_class}
use shared_object.Altrep.SharedVector.{SharedVector, dataptr, length_of}
use shared_object.Altrep.SharedVector.Operations.{
  elements_of, as_source, create_shared_object_from_source, unshare, Made, shared, duplicate,
}
use shared_object.Altrep.SharedVector.Contents.{after-ok, IsNew}
use shared_object.Altrep.SharedVector.Sharing.{write_data, write-unshare}
use shared_object.Altrep.SharedVector.Filling.{IsSource, length-elements_of}
use shared_object.Altrep.SharedVector.RoundTrip.{
  unshare-IsNew, moved, from_source-IsNew, from_source-absent,
}

concat-elements_of :
    (size n : ℕ) (bytes : List ℕ)
    → length bytes ≡ size * n
    → concat (elements_of size n bytes) ≡ bytes
concat-elements_of size zero [] h = refl
concat-elements_of size zero (b ∷ bytes) h = absurd (omega arith)
concat-elements_of size (suc n) bytes h =
    rw (concat-elements_of size n (drop size bytes) (ground (arith, length-drop size bytes)))
      (take-append-drop size bytes)

pub keys_apart :
    {V : Type 0} (k j : String) (d : Dict V) (o : V)
    → lookup k d ≡ some o
    → lookup j d ≡ none
    → str_eq k j ≡ false
keys_apart k j d o there missing = elim (Bool-cases (str_eq k j)) [
  | inl same ↦ absurd (ground (arith, eq_iff k j))
  | inr differs ↦ differs
]

module _ (os : Os) (px : Posix os) (sh : Sharing os) where
  -- The vector itself as what is shared.
  module _ (type count size : ℕ) (cow : Bool) (v : SharedVector os) (p : Process os)
      (new : IsNew os px sh type count size cow v p.world) (bound : size * count < 2 ^ 64) where
    source_type : (as_source os v size p).data_type ≡ type
    source_type = base_type-get_alt_class type v.class new.classed

    source_length : length (as_source os v size p).elements ≡ count
    unfolding length_of
    source_length = length-elements_of size (length_of os v) _ ∙ new.counted

    source_bytes :
        concat (as_source os v size p).elements ≡ os.read_memory v.pointer (size * count) p.world
    unfolding length_of
    source_bytes =
        rw (new.counted)
          (concat-elements_of size count _ (sh.read_length v.pointer (size * count) p.world))

    as_source-IsSource : IsSource size (as_source os v size p)
    as_source-IsSource = record {
      sized = rw source_type new.sized;
      uniform = rw (source_bytes, source_length) (sh.read_length v.pointer (size * count) p.world);
      bounded = rw source_length bound;
      covered = inl refl;
    }

    -- What duplicates a vector that is copied on write to another shared vector.
    copying :
        v.data_info.copy_on_write ≡ true
        → v.data_info.shared_copy ≡ true
        → duplicate os v p
          ≡ (create_shared_object_from_source os
                  (as_source os v size p)
                  true
                  v.data_info.shared_subset
                  true
                >>= λ u. pure (shared u))
              p
    unfolding duplicate
    copying cw sc = rw (cw, sc, base_type-get_alt_class type v.class new.classed, new.sized) refl

  shared-injective : {u v : SharedVector os} → ok (shared u) ≡ ok (shared v) → u ≡ v
  shared-injective e = ground arith

  module _ (type count size : ℕ) (v : SharedVector os) (p : Process os)
      (new : IsNew os px sh type count size true v p.world) (bound : size * count < 2 ^ 64)
      (copied : v.data_info.shared_copy ≡ true)
      (fresh : (id : String)
        → (get_next_id os p).0 ≡ ok id
        → lookup (get_key os id) p.shared_object_list ≡ none)
      (u : SharedVector os) (done : (duplicate os v p).0 ≡ ok (shared u)) where
    copied_from :
        ((create_shared_object_from_source os
            (as_source os v size p)
            true
            v.data_info.shared_subset
            true
            p).0
          ≡ ok u)
        × ((duplicate os v p).1
            ≡ (create_shared_object_from_source os
                (as_source os v size p)
                true
                v.data_info.shared_subset
                true
                p).1)
    copied_from =
        let run = copying type count size true v p new bound new.flagged copied in
        let q =
          create_shared_object_from_source os (as_source os v size p) true v.data_info.shared_subset
            true p in
        let (u', e, at) =
          after-ok {A = SharedVector os} {B = Made os} q.0 (λ u. pure (shared u)) q.1 (shared u)
            (ap (λ r. r.0) (sym run) ∙ done) in
        let same : u' ≡ u = shared-injective (ap (λ r. r.0) (sym (run ∙ at)) ∙ done) in
        (e ∙ ap ok same, ap (λ r. r.1) (run ∙ at))

    duplicate-IsNew :
        IsNew os px sh type count size true u (duplicate os v p).1.world
        × (os.read_memory u.pointer (size * count) (duplicate os v p).1.world
            ≡ os.read_memory v.pointer (size * count) p.world)
        × (lookup (get_key os u.tag) p.shared_object_list ≡ none)
    duplicate-IsNew =
        let x = as_source os v size p in
        let ss = v.data_info.shared_subset in
        let s = as_source-IsSource type count size true v p new bound in
        let (e, at) = copied_from in
        let (hu, shown) = from_source-IsNew os px sh x true ss true size p u s fresh e in
        let absent = from_source-absent os px sh x true ss true size p u s fresh e in
        let t = source_type type count size true v p new bound in
        let n = source_length type count size true v p new bound in
        let b = source_bytes type count size true v p new bound in
        let w = (create_shared_object_from_source os x true ss true p).1.world in
        rw at (
          subst (λ k. IsNew os px sh k count size true u w) t
              (subst (λ k. IsNew os px sh x.data_type k size true u w) n hu),
          subst
              (λ k.
                os.read_memory u.pointer (size * k) w
                ≡ os.read_memory v.pointer (size * count) p.world)
              n (shown ∙ b),
          absent,
        )

    -- A mapped vector of fewer than 2^64 bytes is copied on write, to shared memory, and the
    -- process has no object of the key of the id that comes next. Where its duplicate is a shared
    -- vector, this shows what the vector showed before, and the process had no object of its
    -- memory.
    duplicate-unshare :
        ((unshare os u (duplicate os v p).1).0 ≡ (unshare os v p).0)
        × (lookup (get_key os u.tag) p.shared_object_list ≡ none)
    duplicate-unshare =
        let (hu, same, absent) = duplicate-IsNew in
        let q = (duplicate os v p).1 in
        (
          rw
              (
                unshare-IsNew os px sh type count size true u q q.world hu bound,
                unshare-IsNew os px sh type count size true v p p.world new bound,
                same,
              )
              refl,
          absent,
        )

    -- A mapped vector of fewer than 2^64 bytes is copied on write, to shared memory, and the
    -- process has an object of its memory, but none of the key of the id that comes next. Where its
    -- duplicate is a shared vector and the vector is still mapped afterwards, bytes that are
    -- written to all of the duplicate are what the duplicate shows, and the vector shows what it
    -- showed before the write.
    pub write-duplicate :
        (o : SharedObjectClass os) (bytes : List ℕ)
        → lookup (get_key os v.tag) p.shared_object_list ≡ some o
        → sh.backs (get_key os v.tag) v.pointer (count * size % 2 ^ 64) (duplicate os v p).1.world
          ≡ true
        → length bytes ≡ size * count
        → ((unshare os u (write_data os u bytes (duplicate os v p).1)).0
            ≡ ok (record { data_type = type; bytes = bytes }))
          × ((unshare os v (write_data os u bytes (duplicate os v p).1)).0
              ≡ (unshare os v (duplicate os v p).1).0)
    unfolding write_data dataptr
    write-duplicate o bytes held mapped long =
        let (hu, same, absent) = duplicate-IsNew in
        let w = (duplicate os v p).1.world in
        let hv = moved os px sh type count size true v p.world w (mapped ∙ sym new.backed) new in
        let total : count * size % 2 ^ 64 ≡ size * count =
          rw (mul_comm count size) (omega (arith, bound)) in
        let apart : str_eq (get_key os v.tag) (get_key os u.tag) ≡ false =
          keys_apart (get_key os v.tag) (get_key os u.tag) p.shared_object_list o held absent in
        let alone =
          sh.other_object (get_key os v.tag) (get_key os u.tag) v.pointer u.pointer (size * count)
            bytes w (rw (← total) mapped) (rw (long, ← total) hu.backed) apart in
        (
          write-unshare os px sh type count size true u u w bytes _ hu hu refl bound long refl,
          rw
              (
                unshare-IsNew os px sh type count size true v (duplicate os v p).1 w hv bound,
                unshare-IsNew os px sh type count size true v
                    (write_data os u bytes (duplicate os v p).1) w hv bound,
                alone,
              )
              refl,
        )
