-- ===== src/Altrep/SharedVector/Contents.antt =====
-- The memory of a vector that createEmptySharedObject of src/altrep.cpp has made.
use shared_object.Prelude.{
  ℕ, ◌*◌, ◌%◌, ◌^◌, String, ◌≡◌, refl, sym, ap, ◌∙◌, Bool, true, none, arith, Result, ok, threw,
  aborted, Exec, after_result,
}
use shared_object.Dict.{lookup}
use shared_object.Os.{Os, Posix, Sharing}
use shared_object.SharedObjectClass.{Frame, construct}
use shared_object.SharedObjectClass.Backing.{map-backs, allocate-IsOpen}
use shared_object.SharedObjectClass.Methods
use shared_object.SharedMemory.{
  Process, frame, allocate_shared_memory_internal, map_shared_memory_internal,
}
use shared_object.SharedMemory.Keys.{get_key}
use shared_object.SharedMemory.NextId.{get_next_id}
use shared_object.SharedMemory.Public.{
  allocate_shared_memory, map_shared_memory, set_auto_release_after_use,
}
use shared_object.SharedMemory.Ghosts.{attempt, ghost_lookup, ghost_result, ghost_world}
use shared_object.SharedMemory.RefCount.Steps.{mapping, map_result, map_world}
use shared_object.Altrep.Types.{get_type_size, get_alt_class}
use shared_object.Altrep.SharedVector.{
  DataInfo, SharedVector, map_new_vector, create_empty_shared_object,
}

-- What a chain of calls with a result did first.
pub after-ok :
    {S A B : Type 0} (r : Result A) (f : A → Exec S B) (s : S) (b : B)
    → (after_result r f s).0 ≡ ok b
    → (a : A) × (r ≡ ok a) × (after_result r f s ≡ f a s)
after-ok (ok a) f s b e = (a, refl, refl)
after-ok (threw x) f s b e = absurd (ground arith)
after-ok (aborted x) f s b e = absurd (ground arith)

module _ (os : Os) (px : Posix os) (sh : Sharing os) where
  -- Allocating and then mapping a key that the process has no object of.
  pub fresh-backs :
      (key : String) (size : ℕ) (p : Process os) (a : os.Address)
      → lookup key p.shared_object_list ≡ none
      → (allocate_shared_memory_internal os key size p).0 ≡ ok tt
      → (map_shared_memory_internal os key (allocate_shared_memory_internal os key size p).1).0
        ≡ ok a
      → sh.backs key a size
          (map_shared_memory_internal os key
            (allocate_shared_memory_internal os key size p).1).1.world
        ≡ true
  unfolding construct
  fresh-backs key size p a absent e m =
      let q = (allocate_shared_memory_internal os key size p).1 in
      let g = attempt os key size p in
      let begun : Frame os = frame os (construct os key size) p.world in
      let (open_now, same) =
        allocate-IsOpen os px sh size begun refl refl refl (omega arith)
          (sym (ghost_result os key size p absent) ∙ e) in
      let called : mapping os key q ≡ Methods.map_shared_memory os g =
        rw (ghost_lookup os key size p absent, ghost_world os key size p absent) refl in
      let mapped : (Methods.map_shared_memory os g).0 ≡ ok a =
        rw (← called) (sym (map_result os key q) ∙ m) in
      rw (map_world os key q, called) (rw same at (map-backs os sh size g a open_now mapped))

  world_of_set :
      (id : String) (own : Bool) (p : Process os)
      → (set_auto_release_after_use os id own p).1.world ≡ p.world
  unfolding set_auto_release_after_use
  world_of_set id own p = ground arith

  -- What is known of a vector that has just been made, and of its memory.
  pub record IsNew (type count size : ℕ) (cow : Bool) (v : SharedVector os) (w : os.World)
      : Type 0 where
    pub sized : get_type_size type ≡ ok size
    pub classed : get_alt_class type ≡ ok v.class
    pub counted : v.data_info.vector_length ≡ count
    pub totalled : v.data_info.total_size ≡ count * size % 2 ^ 64
    pub typed : v.data_info.data_type ≡ type
    pub named : v.tag ≡ v.data_info.data_id
    pub flagged : v.data_info.copy_on_write ≡ cow
    pub backed : sh.backs (get_key os v.tag) v.pointer (count * size % 2 ^ 64) w ≡ true

  -- What map_new_vector did where it succeeded.
  mapped_vector :
      (info : DataInfo) (p : Process os) (v : SharedVector os)
      → (map_new_vector os info p).0 ≡ ok v
      → (a : os.Address) × ((map_shared_memory os info.data_id p).0 ≡ ok a)
        × (v.pointer ≡ a)
        × (v.tag ≡ info.data_id)
        × (v.data_info ≡ info)
        × (get_alt_class info.data_type ≡ ok v.class)
        × ((map_new_vector os info p).1.world ≡ (map_shared_memory os info.data_id p).1.world)
  unfolding map_new_vector
  mapped_vector info p v e = grind (arith, world_of_set)

  next_id_keeps : (p : Process os) → (get_next_id os p).1.shared_object_list ≡ p.shared_object_list
  unfolding get_next_id
  next_id_keeps p = ground arith

  -- What an allocation under a new id did where it succeeded.
  allocated_id :
      (size : ℕ) (p : Process os) (id : String)
      → (allocate_shared_memory os size "" p).0 ≡ ok id
      → ((get_next_id os p).0 ≡ ok id)
        × ((allocate_shared_memory_internal os (get_key os id) size (get_next_id os p).1).0 ≡ ok tt)
        × ((allocate_shared_memory os size "" p).1
            ≡ (allocate_shared_memory_internal os (get_key os id) size (get_next_id os p).1).1)
  unfolding allocate_shared_memory
  allocated_id size p id e = ground arith

  module _ (type count : ℕ) (cow ss sc : Bool) where
    -- The list in data2 of a vector that is made by createEmptySharedObject.
    abbrev info_of : String → ℕ → DataInfo
    info_of id size = record {
      data_id = id;
      vector_length = count;
      total_size = count * size % 2 ^ 64;
      data_type = type;
      own_data = true;
      copy_on_write = cow;
      shared_subset = ss;
      shared_copy = sc;
    }

    created_vector :
        (p : Process os) (v : SharedVector os)
        → (create_empty_shared_object os type count cow ss sc p).0 ≡ ok v
        → (size : ℕ) × (id : String) × (get_type_size type ≡ ok size)
          × ((allocate_shared_memory os (count * size % 2 ^ 64) "" p).0 ≡ ok id)
          × (create_empty_shared_object os type count cow ss sc p
              ≡ map_new_vector os
                  (info_of id size)
                  (allocate_shared_memory os (count * size % 2 ^ 64) "" p).1)
    unfolding create_empty_shared_object
    created_vector p v e =
        let (size, es, at) = after-ok (get_type_size type) _ p v e in
        let (id, ea, at') =
          after-ok (allocate_shared_memory os (count * size % 2 ^ 64) "" p).0 _ _ v
            (ap (λ r. r.0) (sym at) ∙ e) in
        (size, id, es, ea, at ∙ at')

    -- Its memory is not one that the process knew.
    pub create_empty-absent :
        (p : Process os) (v : SharedVector os)
        → ((id : String)
            → (get_next_id os p).0 ≡ ok id
            → lookup (get_key os id) p.shared_object_list ≡ none)
        → (create_empty_shared_object os type count cow ss sc p).0 ≡ ok v
        → lookup (get_key os v.tag) p.shared_object_list ≡ none
    create_empty-absent p v absent e =
        let (size, id, es, ea, at) = created_vector p v e in
        let total = count * size % 2 ^ 64 in
        let q = (allocate_shared_memory os total "" p).1 in
        let (en, ei, same) = allocated_id total p id ea in
        let (a, em, to, tag, info, class, last) =
          mapped_vector (info_of id size) q v (ap (λ r. r.0) (sym at) ∙ e) in
        rw tag (absent id en)

    -- A vector that createEmptySharedObject gives is the one it was asked for, and its pointer is that
    -- of the whole of the new object.
    pub create_empty-IsNew :
        (p : Process os) (v : SharedVector os)
        → ((id : String)
            → (get_next_id os p).0 ≡ ok id
            → lookup (get_key os id) p.shared_object_list ≡ none)
        → (create_empty_shared_object os type count cow ss sc p).0 ≡ ok v
        → (size : ℕ) × IsNew type count size cow v
            (create_empty_shared_object os type count cow ss sc p).1.world
    unfolding map_shared_memory
    create_empty-IsNew p v absent e =
        let (size, id, es, ea, at) = created_vector p v e in
        let total = count * size % 2 ^ 64 in
        let q = (allocate_shared_memory os total "" p).1 in
        let (en, ei, same) = allocated_id total p id ea in
        let (a, em, to, tag, info, class, last) =
          mapped_vector (info_of id size) q v (ap (λ r. r.0) (sym at) ∙ e) in
        let r = (get_next_id os p).1 in
        let shown =
          fresh-backs (get_key os id) total r a (rw (next_id_keeps p) (absent id en)) ei
            (rw same at em) in
        (
          size,
          record {
            sized = es;
            classed = class;
            counted = ap (λ i. i.vector_length) info;
            totalled = ap (λ i. i.total_size) info;
            typed = ap (λ i. i.data_type) info;
            named = rw (tag, info) refl;
            flagged = ap (λ i. i.copy_on_write) info;
            backed = rw (at, last, tag, to, same) shown;
          },
        )
