-- ===== src/Altrep/SharedVector/Filling.antt =====
-- How createSharedObjectFromSource of src/altrep.cpp fills the memory of the new vector.
use shared_object.Prelude.{
  ℕ, ◌*◌, ◌^◌, ◌<◌, ◌≡◌, refl, sym, fun_ext, Exec, ap, ◌∙◌, Bool, none, some, List, length, take,
  zero, suc, arith, ok, inl, inr, ◌⊎◌, pure, ◌>>=◌, ◌>>◌, drop, [], ◌∷◌,
}
use shared_object.Os.{Os}
use shared_object.SharedMemory.{Process}
use shared_object.Altrep.Types.{get_type_size, get_object_size, intsxp}
use shared_object.Altrep.CopyData.{concat, copy_data-integer}
use shared_object.Altrep.SharedVector.{SharedVector, create_empty_shared_object}
use shared_object.Altrep.SharedVector.Operations.{
  Source, vector_type, elements_of, first_bytes, copy_elements, copied_bytes, fill_vector,
  create_shared_object_from_source,
}
use shared_object.Altrep.SharedVector.Contents.{after-ok}

-- The elements have together `size` bytes for each of them, fewer than 2^64 in all, and the vector has
-- a data pointer, or it is one of integers and its regions are together the vector.
pub record IsSource (size : ℕ) (x : Source) : Type 0 where
  pub sized : get_type_size x.data_type ≡ ok size
  pub uniform : length (concat x.elements) ≡ size * length x.elements
  pub bounded : size * length x.elements < 2 ^ 64
  pub covered :
      (x.regions ≡ none)
      ⊎ ((regions : List (List (List ℕ))) × (x.regions ≡ some regions)
          × (x.data_type ≡ intsxp)
          × (concat regions ≡ x.elements))

pub length-elements_of : (size n : ℕ) (bytes : List ℕ) → length (elements_of size n bytes) ≡ n
length-elements_of size zero bytes = refl
length-elements_of size (suc n) bytes = ap suc (length-elements_of size n (drop size bytes))

take-length : {A : Type 0} (xs : List A) → take (length xs) xs ≡ xs
take-length [] = refl
take-length {A} (x ∷ xs) = ap {A = List A} (λ t. x ∷ t) (take-length xs)

first_bytes_all : (n : ℕ) (bytes : List ℕ) → length bytes ≡ n → first_bytes n bytes ≡ ok bytes
first_bytes_all n bytes h = rw (← h) (ground (arith, take-length bytes))

pub object_size :
    (type n size : ℕ)
    → get_type_size type ≡ ok size
    → size * n < 2 ^ 64
    → get_object_size type n ≡ ok (size * n)
unfolding get_object_size
object_size type n size e h = rw e (ap ok (omega arith))

pub ok-injective : {A : Type 0} {a b : A} → ok a ≡ ok b → a ≡ b
ok-injective e = ground arith

module _ (os : Os) where
  -- The memory of the vector with those bytes at its start.
  abbrev pub written : SharedVector os → List ℕ → Process os → Process os
  written v bytes p = record p { world = os.write_memory v.pointer bytes p.world }

  copied_bytes-concat :
      (x : Source) (regions : List (List (List ℕ))) (size n : ℕ) (v : SharedVector os)
      (p : Process os)
      → x.data_type ≡ intsxp
      → concat regions ≡ x.elements
      → copied_bytes os x regions size n v p ≡ ok (concat x.elements)
  unfolding copied_bytes vector_type copy_elements
  copied_bytes-concat x regions size n v p e c = rw (
    e,
    copy_data-integer regions _ (length-elements_of size (length x.elements) _ ∙ ap length (sym c)),
    c,
  )

  -- What createSharedObjectFromSource runs once the sizes are known.
  filling :
      (x : Source) (cow ss sc : Bool) (size : ℕ)
      → IsSource size x
      → create_shared_object_from_source os x cow ss sc ≡ (
          create_empty_shared_object os x.data_type (length x.elements) cow ss sc >>= λ v.
          (fill_vector os x size (size * length x.elements) v >> pure v))
  unfolding create_shared_object_from_source
  filling x cow ss sc size s =
      rw (object_size x.data_type (length x.elements) size s.sized s.bounded, s.sized) refl

  -- Both ways of filling the memory put the bytes of the source there.
  fill_vector-bytes :
      (x : Source) (size : ℕ) (v : SharedVector os) (p : Process os)
      → IsSource size x
      → fill_vector os x size (size * length x.elements) v p
        ≡ (ok tt, written v (concat x.elements) p)
  unfolding fill_vector copied_bytes
  fill_vector-bytes x size v p s = elim s.covered [
    | inl pointed ↦
        rw (pointed, first_bytes_all (size * length x.elements) (concat x.elements) s.uniform)
    | inr (regions, e, type, all) ↦
        rw (e, copied_bytes-concat x regions size (size * length x.elements) v p type all)
  ]

  -- The same vector with a data pointer.
  abbrev pub pointed : Source → Source
  pointed x = record x { regions = none }

  pointed-IsSource : (x : Source) (size : ℕ) → IsSource size x → IsSource size (pointed x)
  pointed-IsSource x size s = record {
    sized = s.sized;
    uniform = s.uniform;
    bounded = s.bounded;
    covered = inl refl;
  }

  -- A source whose elements have together the bytes that its type and length ask for, fewer than
  -- 2^64, and which has a data pointer or is of integers that its regions hand out completely, is
  -- shared in the same way as the one with the same elements and a data pointer: the results and
  -- what becomes of the process and of memory are equal.
  pub create_shared_object_from_source-pointed :
      (x : Source) (cow ss sc : Bool) (size : ℕ)
      → IsSource size x
      → create_shared_object_from_source os x cow ss sc
        ≡ create_shared_object_from_source os (pointed x) cow ss sc
  create_shared_object_from_source-pointed x cow ss sc size s =
      let n = length x.elements in
      let s' = pointed-IsSource x size s in
      let fills : fill_vector os x size (size * n) ≡ fill_vector os (pointed x) size (size * n) =
        fun_ext (λ v. fun_ext (λ p.
          fill_vector-bytes x size v p s ∙ sym (fill_vector-bytes (pointed x) size v p s'))) in
      filling x cow ss sc size s
      ∙ ap {A = SharedVector os → Exec (Process os) (Unit {0})}
          (λ fill.
            create_empty_shared_object os x.data_type n cow ss sc >>= λ v. (fill v >> pure v))
          fills
      ∙ sym (filling (pointed x) cow ss sc size s')

  pub created_and_filled :
      (x : Source) (cow ss sc : Bool) (size : ℕ) (p : Process os) (v : SharedVector os)
      → IsSource size x
      → (create_shared_object_from_source os x cow ss sc p).0 ≡ ok v
      → ((create_empty_shared_object os x.data_type (length x.elements) cow ss sc p).0 ≡ ok v)
        × ((create_shared_object_from_source os x cow ss sc p).1
            ≡ written v
                (concat x.elements)
                (create_empty_shared_object os x.data_type (length x.elements) cow ss sc p).1)
  created_and_filled x cow ss sc size p v s e =
      let q = create_empty_shared_object os x.data_type (length x.elements) cow ss sc p in
      let run = ap (λ m. m p) (filling x cow ss sc size s) in
      let (v', ev, at) = after-ok q.0 _ q.1 v (ap (λ r. r.0) (sym run) ∙ e) in
      let bytes = concat x.elements in
      let done : (fill_vector os x size (size * length x.elements) v' >> pure v') q.1
          ≡ (ok v', written v' bytes q.1) =
        rw (fill_vector-bytes x size v' q.1 s) refl in
      let whole = run ∙ at ∙ done in
      let same : v' ≡ v = ok-injective (ap (λ r. r.0) (sym whole) ∙ e) in
      (ev ∙ ap ok same, ap (λ r. r.1) whole ∙ ap (λ u. written u bytes q.1) same)
