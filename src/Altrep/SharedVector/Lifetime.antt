-- ===== src/Altrep/SharedVector/Lifetime.antt =====
-- The memory of a shared vector through its life: created or read, used, finalized.
use shared_object.Prelude.{
  ℕ, String, ◌≡◌, refl, true, List, [], ◌∷◌, arith, Result, ok, threw, aborted, inl, inr, ◌⊎◌,
  Error, Fault,
}
use shared_object.Dict.{lookup}
use shared_object.Os.{Os}
use shared_object.SharedMemory.{Process}
use shared_object.SharedMemory.Keys.{get_key}
use shared_object.SharedMemory.Public.{map_shared_memory, set_auto_release_after_use}
use shared_object.SharedMemory.RefCount.Mappings.{Mappings, Tracks}
use shared_object.SharedMemory.RefCount.Mapping.{after_map, map-Tracks}
use shared_object.SharedMemory.RefCount.Invariant.{owning-Tracks}
use shared_object.Altrep.Types.{
  get_type_size, get_alt_class, AltClass, shared_integer, shared_logical, shared_real, shared_raw,
  shared_complex,
}
use shared_object.SharedMemory.RefCount.Objects.{Holds}
use shared_object.Altrep.SharedVector.{DataInfo, SharedVector, map_new_vector, read_shared_object}

module _ (os : Os) where
  -- The vectors in use after a call that may give a new one.
  abbrev pub with_new : Result (SharedVector os) → List (SharedVector os) → List (SharedVector os)
  with_new (ok v) vs = v ∷ vs
  with_new (threw e) vs = vs
  with_new (aborted x) vs = vs

-- The types with a size have a class.
pub sized_class :
    (type size : ℕ) → get_type_size type ≡ ok size → (c : AltClass) × (get_alt_class type ≡ ok c)
unfolding get_type_size get_alt_class
sized_class type size e = elim (known type size e) [
  | inl h ↦ (shared_integer, rw h)
  | inr (inl h) ↦ (shared_logical, rw h)
  | inr (inr (inl h)) ↦ (shared_real, rw h)
  | inr (inr (inr (inl h))) ↦ (shared_raw, rw h)
  | inr (inr (inr (inr h))) ↦ (shared_complex, rw h)
]
  where
    known :
        (type size : ℕ)
        → get_type_size type ≡ ok size
        → (type ≡ 13) ⊎ ((type ≡ 10) ⊎ ((type ≡ 14) ⊎ ((type ≡ 24) ⊎ (type ≡ 15))))
    known type size e = ground arith

module _ (os : Os) (others : Mappings os) where
  -- The mappings that the vectors in use hold, and others, as that of the package's counter.
  abbrev pub pointers : List (SharedVector os) → Mappings os
  pointers [] = others
  pointers (v ∷ vs) = (get_key os v.tag, v.pointer) ∷ pointers vs

  set_ok :
      (q : Process os) (id : String) (a : os.Address)
      → Holds os (lookup (get_key os id) q.shared_object_list) a
      → (set_auto_release_after_use os id true q).0 ≡ ok tt
  unfolding set_auto_release_after_use
  set_ok q id a h = ground arith

  -- The vector that a successful mapping gives
  made : DataInfo → AltClass → os.Address → SharedVector os
  made info c a = record { class = c; pointer = a; tag = info.data_id; data_info = info }

  new_ok :
      (info : DataInfo) (c : AltClass) (p : Process os) (a : os.Address)
      → get_alt_class info.data_type ≡ ok c
      → (map_shared_memory os info.data_id p).0 ≡ ok a
      → (set_auto_release_after_use os info.data_id true (map_shared_memory os info.data_id p).1).0
        ≡ ok tt
      → map_new_vector os info p ≡ (
        ok (made info c a),
        (set_auto_release_after_use os info.data_id true (map_shared_memory os info.data_id p).1).1,
      )
  unfolding map_new_vector made
  new_ok info c p a class mapped set = ground arith

  read_ok :
      (info : DataInfo) (c : AltClass) (p : Process os) (a : os.Address)
      → get_alt_class info.data_type ≡ ok c
      → (map_shared_memory os info.data_id p).0 ≡ ok a
      → read_shared_object os info p ≡ (ok (made info c a), (map_shared_memory os info.data_id p).1)
  unfolding read_shared_object made
  read_ok info c p a class mapped = ground arith

  -- What is left of the call where the mapping fails
  not_new :
      (info : DataInfo) (p : Process os) (r : Result (SharedVector os))
      → ((e : Error) × ((map_shared_memory os info.data_id p).0 ≡ threw e) × (r ≡ threw e))
        ⊎ ((x : Fault) × ((map_shared_memory os info.data_id p).0 ≡ aborted x) × (r ≡ aborted x))
      → (map_new_vector os info p ≡ (r, (map_shared_memory os info.data_id p).1))
        × (read_shared_object os info p ≡ (r, (map_shared_memory os info.data_id p).1))
  unfolding map_new_vector read_shared_object
  not_new info p r h = ground arith

  mapped-Tracks :
      (id : String) (p : Process os) (vs : List (SharedVector os)) (r : Result os.Address)
      → (map_shared_memory os id p).0 ≡ r
      → Tracks os p (pointers vs)
      → Tracks os (map_shared_memory os id p).1 (after_map os (get_key os id) r (pointers vs))
  unfolding map_shared_memory
  mapped-Tracks id p vs r e t = rw (← e) (map-Tracks os (get_key os id) p (pointers vs) t)

  pub new-Tracks :
      (info : DataInfo) (c : AltClass) (p : Process os) (vs : List (SharedVector os))
      → get_alt_class info.data_type ≡ ok c
      → Tracks os p (pointers vs)
      → Tracks os
          (map_new_vector os info p).1
          (pointers (with_new os (map_new_vector os info p).0 vs))
  unfolding made
  new-Tracks info c p vs class t = go (map_shared_memory os info.data_id p).0 refl
    where
      q : Process os
      q = (map_shared_memory os info.data_id p).1

      go :
          (r : Result os.Address)
          → (map_shared_memory os info.data_id p).0 ≡ r
          → Tracks os
              (map_new_vector os info p).1
              (pointers (with_new os (map_new_vector os info p).0 vs))
      go (ok a) e =
          let t' : Tracks os q ((get_key os info.data_id, a) ∷ pointers vs) =
            mapped-Tracks info.data_id p vs (ok a) e t in
          rw (new_ok info c p a class e (set_ok q info.data_id a t'.held.0))
            (owning-Tracks os q ((get_key os info.data_id, a) ∷ pointers vs) info.data_id true t')
      go (threw x) e =
          rw ((not_new info p (threw x) (inl (x, e, refl))).0)
            (mapped-Tracks info.data_id p vs (threw x) e t)
      go (aborted x) e =
          rw ((not_new info p (aborted x) (inr (x, e, refl))).0)
            (mapped-Tracks info.data_id p vs (aborted x) e t)

  pub read-Tracks :
      (info : DataInfo) (c : AltClass) (p : Process os) (vs : List (SharedVector os))
      → get_alt_class info.data_type ≡ ok c
      → Tracks os p (pointers vs)
      → Tracks os
          (read_shared_object os info p).1
          (pointers (with_new os (read_shared_object os info p).0 vs))
  unfolding made
  read-Tracks info c p vs class t = go (map_shared_memory os info.data_id p).0 refl
    where
      go :
          (r : Result os.Address)
          → (map_shared_memory os info.data_id p).0 ≡ r
          → Tracks os
              (read_shared_object os info p).1
              (pointers (with_new os (read_shared_object os info p).0 vs))
      go (ok a) e = rw (read_ok info c p a class e) (mapped-Tracks info.data_id p vs (ok a) e t)
      go (threw x) e =
          rw ((not_new info p (threw x) (inl (x, e, refl))).1)
            (mapped-Tracks info.data_id p vs (threw x) e t)
      go (aborted x) e =
          rw ((not_new info p (aborted x) (inr (x, e, refl))).1)
            (mapped-Tracks info.data_id p vs (aborted x) e t)
