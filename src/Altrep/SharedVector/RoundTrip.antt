-- ===== src/Altrep/SharedVector/RoundTrip.antt =====
-- createSharedObjectFromSource and unshare of src/altrep.cpp together.
use native.Mathlib.Nat.{mul_comm}
use shared_object.Prelude.{
  ℕ, ◌*◌, ◌%◌, ◌^◌, ◌<◌, String, ◌≡◌, refl, sym, subst, ◌∙◌, Bool, none, length, arith, ok,
}
use shared_object.Dict.{lookup}
use shared_object.Os.{Os, Posix, Sharing}
use shared_object.SharedMemory.{Process}
use shared_object.SharedMemory.Keys.{get_key}
use shared_object.SharedMemory.NextId.{get_next_id}
use shared_object.Altrep.CopyData.{concat}
use shared_object.Altrep.Registration.{base_type-get_alt_class}
use shared_object.Altrep.SharedVector.{SharedVector, create_empty_shared_object, length_of}
use shared_object.Altrep.SharedVector.Operations.{Source, create_shared_object_from_source, unshare}
use shared_object.Altrep.SharedVector.Contents.{IsNew, create_empty-IsNew, create_empty-absent}
use shared_object.Altrep.SharedVector.Filling.{
  IsSource, ok-injective, object_size, created_and_filled,
}

module _ (os : Os) (px : Posix os) (sh : Sharing os) where
  -- unshare gives the type of a vector and the bytes of its memory.
  pub unshare-IsNew :
      (type count size : ℕ) (cow : Bool) (v : SharedVector os) (p : Process os) (w : os.World)
      → IsNew os px sh type count size cow v w
      → size * count < 2 ^ 64
      → unshare os v p ≡ (
        ok (record { data_type = type; bytes = os.read_memory v.pointer (size * count) p.world }),
        p,
      )
  unfolding unshare length_of
  unshare-IsNew type count size cow v p w new h =
      rw
        (
          base_type-get_alt_class type v.class new.classed,
          new.counted,
          object_size type count size new.sized h,
        )
        refl

  -- What is known of a vector of that memory elsewhere, too, where the memory is still mapped.
  pub moved :
      (type count size : ℕ) (cow : Bool) (v : SharedVector os) (w w' : os.World)
      → sh.backs (get_key os v.tag) v.pointer (count * size % 2 ^ 64) w'
        ≡ sh.backs (get_key os v.tag) v.pointer (count * size % 2 ^ 64) w
      → IsNew os px sh type count size cow v w
      → IsNew os px sh type count size cow v w'
  moved type count size cow v w w' e new = record {
    sized = new.sized;
    classed = new.classed;
    counted = new.counted;
    totalled = new.totalled;
    typed = new.typed;
    named = new.named;
    flagged = new.flagged;
    backed = e ∙ new.backed;
  }

  module _ (x : Source) (cow ss sc : Bool) (size : ℕ) (p : Process os) (v : SharedVector os) where
    -- A vector that is made from a source has the source's bytes in its memory.
    pub from_source-IsNew :
        IsSource size x
        → ((id : String)
            → (get_next_id os p).0 ≡ ok id
            → lookup (get_key os id) p.shared_object_list ≡ none)
        → (create_shared_object_from_source os x cow ss sc p).0 ≡ ok v
        → IsNew os px sh x.data_type
            (length x.elements)
            size
            cow
            v
            (create_shared_object_from_source os x cow ss sc p).1.world
          × (os.read_memory v.pointer
                (size * length x.elements)
                (create_shared_object_from_source os x cow ss sc p).1.world
              ≡ concat x.elements)
    from_source-IsNew s absent e =
        let n = length x.elements in
        let bytes = concat x.elements in
        let (made, filled) = created_and_filled os x cow ss sc size p v s e in
        let q = (create_empty_shared_object os x.data_type n cow ss sc p).1 in
        let (size', new') = create_empty-IsNew os px sh x.data_type n cow ss sc p v absent made in
        let new : IsNew os px sh x.data_type n size cow v q.world =
          subst (λ m. IsNew os px sh x.data_type n m cow v q.world)
            (ok-injective (sym new'.sized ∙ s.sized)) new' in
        let long : n * size % 2 ^ 64 ≡ length bytes =
          rw (mul_comm n size, s.uniform) (omega (arith, s.bounded)) in
        let key = get_key os v.tag in
        let kept = sh.backs-write key v.pointer v.pointer (n * size % 2 ^ 64) bytes q.world in
        let shown = sh.write_reads key v.pointer bytes q.world (rw (← long) new.backed) in
        rw filled (
          moved x.data_type n size cow v q.world (os.write_memory v.pointer bytes q.world) kept new,
          rw (← s.uniform) shown,
        )

    pub from_source-absent :
        IsSource size x
        → ((id : String)
            → (get_next_id os p).0 ≡ ok id
            → lookup (get_key os id) p.shared_object_list ≡ none)
        → (create_shared_object_from_source os x cow ss sc p).0 ≡ ok v
        → lookup (get_key os v.tag) p.shared_object_list ≡ none
    from_source-absent s absent e =
        create_empty-absent os px sh x.data_type (length x.elements) cow ss sc p v absent
          (created_and_filled os x cow ss sc size p v s e).0

    -- A source whose elements have together the bytes that its type and length ask for, fewer than
    -- 2^64, has a data pointer or is of integers that its regions hand out completely. Where
    -- createSharedObjectFromSource makes a vector of it, under an id whose key the process has no
    -- object of, unshare then gives the type and the bytes of the source.
    pub unshare-create_shared_object_from_source :
        IsSource size x
        → ((id : String)
            → (get_next_id os p).0 ≡ ok id
            → lookup (get_key os id) p.shared_object_list ≡ none)
        → (create_shared_object_from_source os x cow ss sc p).0 ≡ ok v
        → (unshare os v (create_shared_object_from_source os x cow ss sc p).1).0
          ≡ ok (record { data_type = x.data_type; bytes = concat x.elements })
    unshare-create_shared_object_from_source s absent e =
        let (new, shown) = from_source-IsNew s absent e in
        let q = (create_shared_object_from_source os x cow ss sc p).1 in
        rw (unshare-IsNew x.data_type (length x.elements) size cow v q q.world new s.bounded, shown)
          refl
