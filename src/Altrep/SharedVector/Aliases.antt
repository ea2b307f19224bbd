-- ===== src/Altrep/SharedVector/Aliases.antt =====
-- sharedVector_duplicate of src/numericAltrepOperations.cpp where it does not make a shared copy.
use native.Mathlib.Nat.{mul_comm}
use shared_object.Prelude.{
  ℕ, ◌*◌, ◌%◌, ◌^◌, ◌<◌, String, ◌≡◌, refl, ap, ◌∙◌, true, false, some, arith, ok, increment,
}
use shared_object.Dict.{lookup}
use shared_object.Os.{Os, Posix, Sharing}
use shared_object.SharedObjectClass.{SharedObjectClass}
use shared_object.SharedObjectClass.Methods
use shared_object.SharedMemory.{Process, frame, counter_at, map_shared_memory_internal}
use shared_object.SharedMemory.Keys.{get_key}
use shared_object.SharedMemory.Public.{map_shared_memory}
use shared_object.SharedMemory.RefCount.Steps.{mapping, map_result, map_world, map_counter_self}
use shared_object.Altrep.Types.{AltClass, get_alt_class}
use shared_object.Altrep.Registration.{base_type-get_alt_class}
use shared_object.Altrep.SharedVector.{DataInfo, SharedVector, read_shared_object}
use shared_object.Altrep.SharedVector.Operations.{PlainVector, unshare, plain, shared, duplicate}
use shared_object.Altrep.SharedVector.Contents.{IsNew}
use shared_object.Altrep.SharedVector.RoundTrip.{unshare-IsNew}

module _ (os : Os) (px : Posix os) (sh : Sharing os) where
  -- A vector that is copied on write, but not to shared memory, is duplicated to the vector that
  -- unshare gives, and nothing changes.
  pub duplicate-plain-unshare :
      (type count size : ℕ) (v : SharedVector os) (p : Process os)
      → IsNew os px sh type count size true v p.world
      → size * count < 2 ^ 64
      → v.data_info.shared_copy ≡ false
      → (x : PlainVector) × (duplicate os v p ≡ (ok (plain x), p)) × (unshare os v p ≡ (ok x, p))
  unfolding duplicate
  duplicate-plain-unshare type count size v p new bound copied =
      let total : count * size % 2 ^ 64 ≡ size * count =
        rw (mul_comm count size) (omega (arith, bound)) in
      (
        record { data_type = type; bytes = os.read_memory v.pointer (size * count) p.world },
        rw
            (
              new.flagged,
              copied,
              base_type-get_alt_class type v.class new.classed,
              new.totalled,
              total,
            )
            refl,
        unshare-IsNew os px sh type count size true v p p.world new bound,
      )

  mapped_again :
      (key : String) (p : Process os) (o : SharedObjectClass os) (a : os.Address)
      → lookup key p.shared_object_list ≡ some o
      → o.shared_ptr ≡ some a
      → mapping os key p ≡ (ok a, frame os o p.world)
  unfolding Methods.map_shared_memory
  mapped_again key p o a held at = rw (held, at) refl

  read_mapped :
      (info : DataInfo) (p : Process os) (a : os.Address) (c : AltClass)
      → (map_shared_memory_internal os (get_key os info.data_id) p).0 ≡ ok a
      → get_alt_class info.data_type ≡ ok c
      → read_shared_object os info p ≡ (
        ok (record { class = c; pointer = a; tag = info.data_id; data_info = info }),
        (map_shared_memory_internal os (get_key os info.data_id) p).1,
      )
  unfolding read_shared_object map_shared_memory
  read_mapped info p a c e f = ground arith

  not_copied :
      (v : SharedVector os) (p q : Process os)
      → v.data_info.copy_on_write ≡ false
      → read_shared_object os v.data_info p ≡ (ok v, q)
      → duplicate os v p ≡ (ok (shared v), q)
  unfolding duplicate
  not_copied v p q cow read = ground arith

  -- A mapped vector that is not copied on write, and whose memory the process has an object of with
  -- the vector's pointer, is its own duplicate: memory stays as it is, and the memory's key is
  -- counted as mapped once more.
  pub duplicate-aliases :
      (type count size : ℕ) (v : SharedVector os) (p : Process os) (o : SharedObjectClass os)
      → IsNew os px sh type count size false v p.world
      → lookup (get_key os v.tag) p.shared_object_list ≡ some o
      → o.shared_ptr ≡ some v.pointer
      → ((duplicate os v p).0 ≡ ok (shared v))
        × ((duplicate os v p).1.world ≡ p.world)
        × (counter_at os (get_key os v.tag) (duplicate os v p).1
            ≡ increment (counter_at os (get_key os v.tag) p))
  duplicate-aliases type count size v p o new held at =
      let key = get_key os v.tag in
      let again = mapped_again key p o v.pointer held at in
      let result : (map_shared_memory_internal os key p).0 ≡ ok v.pointer =
        map_result os key p ∙ ap (λ r. r.0) again in
      let read : read_shared_object os v.data_info p
          ≡ (ok v, (map_shared_memory_internal os key p).1) =
        rw new.named (
          read_mapped v.data_info p v.pointer v.class (rw (← new.named) result)
            (rw new.typed new.classed)) in
      rw (not_copied v p (map_shared_memory_internal os key p).1 new.flagged read) (
        refl,
        map_world os key p ∙ ap (λ r. r.1.world) again,
        map_counter_self os key p (λ none_there. absurd (ground arith)) ∙ rw again refl,
      )
