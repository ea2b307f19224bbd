-- ===== src/Altrep/SharedVector/Collection.antt =====
-- R creates, reads, unserializes and collects shared vectors in any order.
use shared_object.Prelude.{
  ℕ, ◌<◌, ◌*◌, ◌%◌, ◌^◌, String, ◌≡◌, refl, ap, Bool, true, false, Option, none, some, List, [],
  ◌∷◌, arith, Result, ok, threw, aborted, inl, inr, Bool-cases, Option-cases, after_result, str_eq,
  eq_iff, if◌then◌else◌,
}
use shared_object.Os.{Os}
use shared_object.SharedMemory.{Process}
use shared_object.SharedMemory.Keys.{get_key, get_key-injective}
use shared_object.SharedMemory.Public.{allocate_shared_memory, unmap_shared_memory}
use shared_object.SharedMemory.RefCount.Mappings.{Mappings, count, remove_one, Tracks}
use shared_object.SharedMemory.RefCount.Unmapping.{unmap-Tracks}
use shared_object.SharedMemory.RefCount.Invariant.{allocating-Tracks}
use shared_object.Altrep.Types.{get_type_size, get_alt_class, AltClass}
use shared_object.Altrep.SharedVector.{
  DataInfo, SharedVector, map_new_vector, create_empty_shared_object, read_shared_object,
  ptr_finalizer, unserialize,
}
use shared_object.Altrep.SharedVector.Lifetime.{
  pointers, with_new, sized_class, new-Tracks, read-Tracks,
}

-- What happens to the shared vectors of a process: the arguments of createEmptySharedObject, the
-- list of another vector, from this process or from another, or an id of which R collects a vector.
pub data Event : Type 0 where
  creating : ℕ → ℕ → Bool → Bool → Bool → Event
  reading unserializing : DataInfo → Event
  collecting : String → Event

abbrev has_class : Result AltClass → Bool
has_class (ok c) = true
has_class (threw e) = false
has_class (aborted x) = false

module _ (os : Os) where
  -- The first vector of an id, without which nothing is collected.
  abbrev find_tag : String → List (SharedVector os) → Option (SharedVector os)
  find_tag id [] = none
  find_tag id (v ∷ vs) = if str_eq v.tag id then some v else find_tag id vs

  abbrev remove_tag : String → List (SharedVector os) → List (SharedVector os)
  remove_tag id [] = []
  remove_tag id (v ∷ vs) = if str_eq v.tag id then vs else v ∷ remove_tag id vs

  abbrev with_option :
      Result (Option (SharedVector os)) → List (SharedVector os) → List (SharedVector os)
  with_option (ok (some v)) vs = v ∷ vs
  with_option _ vs = vs

  -- The process and its vectors in use after an event. A list is one of a type that has a class.
  occur : Process os × List (SharedVector os) → Event → Process os × List (SharedVector os)
  occur (p, vs) (creating type length w s c) =
      let (r, q) = create_empty_shared_object os type length w s c p in (q, with_new os r vs)
  occur (p, vs) (reading info) =
      if has_class (get_alt_class info.data_type)
      then (let (r, q) = read_shared_object os info p in (q, with_new os r vs))
      else (p, vs)
  occur (p, vs) (unserializing info) =
      if has_class (get_alt_class info.data_type)
      then (let (r, q) = unserialize os info p in (q, with_option r vs))
      else (p, vs)
  occur (p, vs) (collecting id) = elim (find_tag id vs) [
    | none ↦ (p, vs)
    | some v ↦ (ptr_finalizer os v p, remove_tag id vs)
  ]

  pub occur_all :
      Process os × List (SharedVector os) → List Event → Process os × List (SharedVector os)
  occur_all s [] = s
  occur_all s (e ∷ events) = occur_all (occur s e) events

module _ (os : Os) (others : Mappings os) where
  allocated-Tracks :
      (info : String → DataInfo) (c : AltClass) (q : Process os) (vs : List (SharedVector os))
      (r : Result String)
      → ((id : String) → get_alt_class (info id).data_type ≡ ok c)
      → Tracks os q (pointers os others vs)
      → let made : Result (SharedVector os) × Process os =
          after_result r (λ id. map_new_vector os (info id)) q in
        Tracks os made.1 (pointers os others (with_new os made.0 vs))
  allocated-Tracks info c q vs (ok id) class t = new-Tracks os others (info id) c q vs (class id) t
  allocated-Tracks info c q vs (threw e) class t = t
  allocated-Tracks info c q vs (aborted x) class t = t

  creating-Tracks :
      (p : Process os) (vs : List (SharedVector os)) (type length : ℕ) (w s c : Bool)
      → Tracks os p (pointers os others vs)
      → Tracks os (create_empty_shared_object os type length w s c p).1 (
          pointers os others (with_new os (create_empty_shared_object os type length w s c p).0 vs))
  unfolding create_empty_shared_object
  creating-Tracks p vs type length w s c t = go (get_type_size type) refl
    where
      info : ℕ → String → DataInfo
      info size id = record {
        data_id = id;
        vector_length = length;
        total_size = length * size % 2 ^ 64;
        data_type = type;
        own_data = true;
        copy_on_write = w;
        shared_subset = s;
        shared_copy = c;
      }

      go :
          (r : Result ℕ)
          → get_type_size type ≡ r
          → Tracks os (create_empty_shared_object os type length w s c p).1 (
              pointers os others
                (with_new os (create_empty_shared_object os type length w s c p).0 vs))
      go (ok size) e =
          let (class, known) = sized_class type size e in
          let allocated = allocate_shared_memory os (length * size % 2 ^ 64) "" p in
          rw e (
            allocated-Tracks (info size) class allocated.1 vs allocated.0 (λ id. known)
              (allocating-Tracks os p (pointers os others vs) (length * size % 2 ^ 64) "" t))
      go (threw x) e = rw e t
      go (aborted x) e = rw e t

  answer : Result (SharedVector os) → Process os → Result (Option (SharedVector os)) × Process os
  answer (ok v) q = (ok (some v), q)
  answer (threw e) q = (ok none, q)
  answer (aborted x) q = (aborted x, q)

  unserialize-answer :
      (info : DataInfo) (p : Process os) (r : Result (SharedVector os))
      → (read_shared_object os info p).0 ≡ r
      → unserialize os info p ≡ answer r (read_shared_object os info p).1
  unfolding unserialize answer
  unserialize-answer info p (ok v) e = ground arith
  unserialize-answer info p (threw x) e = ground arith
  unserialize-answer info p (aborted x) e = ground arith

  answer-Tracks :
      (q : Process os) (vs : List (SharedVector os)) (r : Result (SharedVector os))
      → Tracks os q (pointers os others (with_new os r vs))
      → Tracks os (answer r q).1 (pointers os others (with_option os (answer r q).0 vs))
  unfolding answer
  answer-Tracks q vs (ok v) t = t
  answer-Tracks q vs (threw e) t = t
  answer-Tracks q vs (aborted x) t = t

  unserializing-Tracks :
      (p : Process os) (vs : List (SharedVector os)) (info : DataInfo) (c : AltClass)
      → get_alt_class info.data_type ≡ ok c
      → Tracks os p (pointers os others vs)
      → Tracks os
          (unserialize os info p).1
          (pointers os others (with_option os (unserialize os info p).0 vs))
  unserializing-Tracks p vs info c class t =
      let (r, q) = read_shared_object os info p in
      rw (unserialize-answer info p r refl)
        (answer-Tracks q vs r (read-Tracks os others info c p vs class t))

  same_key : (id j : String) → str_eq (get_key os id) (get_key os j) ≡ str_eq id j
  same_key id j = ground (
    arith,
    eq_iff (get_key os id) (get_key os j),
    eq_iff id j,
    get_key-injective os id j,
    ap (get_key os) {x = id} {y = j},
  )

  find_tag-count :
      (id : String) (v : SharedVector os) (vs : List (SharedVector os))
      → find_tag os id vs ≡ some v
      → (str_eq v.tag id ≡ true) × (0 < count os (get_key os id) (pointers os others vs))
  find_tag-count id v [] e = cc
  find_tag-count id v (u ∷ vs) e = ground (arith, same_key u.tag id, find_tag-count id v vs)

  pointers-remove_tag :
      (id : String) (v : SharedVector os) (vs : List (SharedVector os))
      → find_tag os id vs ≡ some v
      → pointers os others (remove_tag os id vs)
        ≡ remove_one os (get_key os id) (pointers os others vs)
  pointers-remove_tag id v [] e = cc
  pointers-remove_tag id v (u ∷ vs) e =
      ground (arith, same_key u.tag id, pointers-remove_tag id v vs)

  collecting-Tracks :
      (p : Process os) (vs : List (SharedVector os)) (id : String) (v : SharedVector os)
      → find_tag os id vs ≡ some v
      → Tracks os p (pointers os others vs)
      → Tracks os (ptr_finalizer os v p) (pointers os others (remove_tag os id vs))
  unfolding ptr_finalizer unmap_shared_memory
  collecting-Tracks p vs id v e t =
      let (same, some_left) = find_tag-count id v vs e in
      rw ((eq_iff v.tag id).0 same, pointers-remove_tag id v vs e)
        (unmap-Tracks os (get_key os id) p (pointers os others vs) t some_left)

  classified : (r : Result AltClass) → has_class r ≡ true → (c : AltClass) × (r ≡ ok c)
  classified (ok c) e = (c, refl)
  classified (threw x) e = cc
  classified (aborted x) e = cc

  collecting_none :
      (p : Process os) (vs : List (SharedVector os)) (id : String)
      → find_tag os id vs ≡ none
      → occur os (p, vs) (collecting id) ≡ (p, vs)
  unfolding occur
  collecting_none p vs id e = ground arith

  collecting_found :
      (p : Process os) (vs : List (SharedVector os)) (id : String) (v : SharedVector os)
      → find_tag os id vs ≡ some v
      → occur os (p, vs) (collecting id) ≡ (ptr_finalizer os v p, remove_tag os id vs)
  unfolding occur
  collecting_found p vs id v e = ground arith

  occur-Tracks :
      (p : Process os) (vs : List (SharedVector os)) (e : Event)
      → Tracks os p (pointers os others vs)
      → Tracks os (occur os (p, vs) e).0 (pointers os others (occur os (p, vs) e).1)
  unfolding occur
  occur-Tracks p vs (creating type length w s c) t = creating-Tracks p vs type length w s c t
  occur-Tracks p vs (reading info) t =
      elim (Bool-cases (has_class (get_alt_class info.data_type))) [
        | inl known ↦
            let (c, class) = classified (get_alt_class info.data_type) known in
            rw known (read-Tracks os others info c p vs class t)
        | inr unknown ↦ rw unknown t
      ]
  occur-Tracks p vs (unserializing info) t =
      elim (Bool-cases (has_class (get_alt_class info.data_type))) [
        | inl known ↦
            let (c, class) = classified (get_alt_class info.data_type) known in
            rw known (unserializing-Tracks p vs info c class t)
        | inr unknown ↦ rw unknown t
      ]
  occur-Tracks p vs (collecting id) t = elim (Option-cases (find_tag os id vs)) [
    | inl e ↦ rw (collecting_none p vs id e) t
    | inr (v, e) ↦ rw (collecting_found p vs id v e) (collecting-Tracks p vs id v e t)
  ]

  -- Whatever vectors R creates, reads, unserializes and collects, in any order and with whatever
  -- failures, from where the counters track the vectors in use and the other mappings, they go on
  -- tracking them, the pointer of each vector in use is the address of a region that is still mapped,
  -- and every object is valid.
  pub occur_all-Tracks :
      (p : Process os) (vs : List (SharedVector os)) (events : List Event)
      → Tracks os p (pointers os others vs)
      → Tracks os
          (occur_all os (p, vs) events).0
          (pointers os others (occur_all os (p, vs) events).1)
  unfolding occur_all
  occur_all-Tracks p vs [] t = t
  occur_all-Tracks p vs (e ∷ events) t =
      occur_all-Tracks (occur os (p, vs) e).0 (occur os (p, vs) e).1 events (occur-Tracks p vs e t)
