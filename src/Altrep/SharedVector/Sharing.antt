-- ===== src/Altrep/SharedVector/Sharing.antt =====
-- Several vectors on the same memory: readSharedObject in another process, and what each vector then
-- shows of what is written through the other (src/altrep.cpp, src/numericAltrepOperations.cpp).
use native.Mathlib.Nat.{mul_comm}
use shared_object.Prelude.{
  ℕ, ◌*◌, ◌%◌, ◌^◌, ◌<◌, String, ◌≡◌, refl, sym, ap, ◌∙◌, Bool, true, none, List, length, arith, ok,
}
use shared_object.Dict.{lookup}
use shared_object.Os.{Os, Posix, Sharing}
use shared_object.SharedObjectClass.{construct}
use shared_object.SharedObjectClass.Backing.{open-backs}
use shared_object.SharedMemory.{Process, frame}
use shared_object.SharedMemory.Keys.{get_key}
use shared_object.SharedMemory.NextId.{get_next_id}
use shared_object.SharedMemory.Public.{map_shared_memory}
use shared_object.SharedMemory.RefCount.Steps.{mapping, map_result, map_world}
use shared_object.Altrep.Types.{get_alt_class}
use shared_object.Altrep.CopyData.{concat}
use shared_object.Altrep.SharedVector.{DataInfo, SharedVector, read_shared_object, dataptr}
use shared_object.Altrep.SharedVector.Operations.{Source, create_shared_object_from_source, unshare}
use shared_object.Altrep.SharedVector.Contents.{IsNew}
use shared_object.Altrep.SharedVector.Filling.{IsSource}
use shared_object.Altrep.SharedVector.RoundTrip.{unshare-IsNew, moved, from_source-IsNew}

-- The caller's write of bytes from the data pointer of a vector on.
unfoldable pub write_data : (os : Os) → SharedVector os → List ℕ → Process os → Process os
write_data os u bytes p = record p { world = os.write_memory (dataptr os u) bytes p.world }

module _ (os : Os) (px : Posix os) (sh : Sharing os) where
  -- Mapping a key that the process has no object of shows the memory that others have mapped.
  pub joined :
      (key : String) (n : ℕ) (b : Process os) (a at : os.Address)
      → lookup key b.shared_object_list ≡ none
      → sh.backs key at n b.world ≡ true
      → (mapping os key b).0 ≡ ok a
      → (sh.backs key a n (mapping os key b).1.world ≡ true)
        × (sh.backs key at n (mapping os key b).1.world ≡ true)
        × (os.read_memory at n (mapping os key b).1.world ≡ os.read_memory at n b.world)
  unfolding construct
  joined key n b a at absent held e = rw absent (
      open-backs os sh n (frame os (construct os key 0) b.world) a at refl refl refl held
        (rw absent at e))

  read_vector :
      (info : DataInfo) (p : Process os) (u : SharedVector os)
      → (read_shared_object os info p).0 ≡ ok u
      → ((mapping os (get_key os info.data_id) p).0 ≡ ok u.pointer)
        × (u.tag ≡ info.data_id)
        × (u.data_info ≡ info)
        × (get_alt_class info.data_type ≡ ok u.class)
        × ((read_shared_object os info p).1.world
            ≡ (mapping os (get_key os info.data_id) p).1.world)
  unfolding read_shared_object map_shared_memory
  read_vector info p u e = grind (arith, map_result, map_world)

  module _ (type count size : ℕ) (cow : Bool) (v : SharedVector os) (b : Process os)
      (u : SharedVector os) where
    pub read-IsNew :
        IsNew os px sh type count size cow v b.world
        → lookup (get_key os v.tag) b.shared_object_list ≡ none
        → (read_shared_object os v.data_info b).0 ≡ ok u
        → IsNew os px sh type count size cow u (read_shared_object os v.data_info b).1.world
          × IsNew os px sh type count size cow v (read_shared_object os v.data_info b).1.world
          × (u.tag ≡ v.tag)
          × (os.read_memory u.pointer
                (count * size % 2 ^ 64)
                (read_shared_object os v.data_info b).1.world
              ≡ os.read_memory v.pointer (count * size % 2 ^ 64) b.world)
    read-IsNew new absent e =
        let total = count * size % 2 ^ 64 in
        let (em, tag, info, class, last) = read_vector v.data_info b u e in
        let key = get_key os v.tag in
        let em' : (mapping os key b).0 ≡ ok u.pointer = rw new.named em in
        let (shown, kept, same) = joined key total b u.pointer v.pointer absent new.backed em' in
        let w' = (read_shared_object os v.data_info b).1.world in
        let last' : w' ≡ (mapping os key b).1.world = rw new.named last in
        let now =
          sh.same_object key u.pointer v.pointer total (mapping os key b).1.world shown kept in
        let own : IsNew os px sh type count size cow u w' = record {
          sized = new.sized;
          classed = sym (ap get_alt_class new.typed) ∙ class;
          counted = ap (λ i. i.vector_length) info ∙ new.counted;
          totalled = ap (λ i. i.total_size) info ∙ new.totalled;
          typed = ap (λ i. i.data_type) info ∙ new.typed;
          named = tag ∙ sym (ap (λ i. i.data_id) info);
          flagged = ap (λ i. i.copy_on_write) info ∙ new.flagged;
          backed = rw (last', tag, ← new.named) shown;
        } in
        (
          own,
          moved os px sh type count size cow v b.world w' (rw last' kept ∙ sym new.backed) new,
          tag ∙ sym new.named,
          rw last' (now ∙ same),
        )

  -- What one vector shows of bytes that are written through another one on the same memory.
  pub write-unshare :
      (type count size : ℕ) (cow : Bool) (u v : SharedVector os) (w : os.World) (bytes : List ℕ)
      (q : Process os)
      → IsNew os px sh type count size cow u w
      → IsNew os px sh type count size cow v w
      → u.tag ≡ v.tag
      → size * count < 2 ^ 64
      → length bytes ≡ size * count
      → q.world ≡ os.write_memory (dataptr os u) bytes w
      → (unshare os v q).0 ≡ ok (record { data_type = type; bytes = bytes })
  unfolding dataptr
  write-unshare type count size cow u v w bytes q hu hv same bound long at =
      let key = get_key os v.tag in
      let w' = os.write_memory u.pointer bytes w in
      let total : count * size % 2 ^ 64 ≡ length bytes =
        rw (mul_comm count size, long) (omega (arith, bound)) in
      let bu : sh.backs key u.pointer (length bytes) w ≡ true = rw (← total, ← same) hu.backed in
      let bv : sh.backs key v.pointer (length bytes) w ≡ true = rw (← total) hv.backed in
      let now =
        sh.same_object key v.pointer u.pointer (length bytes) w'
          (sh.backs-write key v.pointer u.pointer (length bytes) bytes w ∙ bv)
          (sh.backs-write key u.pointer u.pointer (length bytes) bytes w ∙ bu) in
      rw
        (
          unshare-IsNew os px sh type count size cow v q w hv bound,
          at,
          ← long,
          now,
          sh.write_reads key u.pointer bytes w bu,
        )
        refl

  module _ (x : Source) (cow ss sc : Bool) (size : ℕ) (p b : Process os) (v u : SharedVector os)
      (source : IsSource size x)
      (fresh : (id : String)
        → (get_next_id os p).0 ≡ ok id
        → lookup (get_key os id) p.shared_object_list ≡ none)
      (made : (create_shared_object_from_source os x cow ss sc p).0 ≡ ok v)
      (world : b.world ≡ (create_shared_object_from_source os x cow ss sc p).1.world)
      (absent : lookup (get_key os v.tag) b.shared_object_list ≡ none)
      (read : (read_shared_object os v.data_info b).0 ≡ ok u) where
    both_new :
        IsNew os px sh x.data_type
          (length x.elements)
          size
          cow
          u
          (read_shared_object os v.data_info b).1.world
        × IsNew os px sh x.data_type
            (length x.elements)
            size
            cow
            v
            (read_shared_object os v.data_info b).1.world
        × (u.tag ≡ v.tag)
        × (os.read_memory u.pointer
              (length x.elements * size % 2 ^ 64)
              (read_shared_object os v.data_info b).1.world
            ≡ concat x.elements)
    both_new =
        let n = length x.elements in
        let (new, shown) = from_source-IsNew os px sh x cow ss sc size p v source fresh made in
        let (hu, hv, same, now) =
          read-IsNew x.data_type n size cow v b u (rw world new) absent read in
        let total : n * size % 2 ^ 64 ≡ size * n =
          rw (mul_comm n size) (omega (arith, source.bounded)) in
        (hu, hv, same, now ∙ rw (world, total) shown)

    -- A process makes a vector of a source that has a data pointer, or is of integers that its
    -- regions hand out completely, of the bytes that its type and length ask for, fewer than 2^64,
    -- under an id whose key it has no object of. Where another process, with no object of the
    -- vector's key and the memory as the first one left it, reads the vector's list, its vector
    -- unshares to the type and the bytes of the source.
    read_elsewhere :
        (unshare os u (read_shared_object os v.data_info b).1).0
        ≡ ok (record { data_type = x.data_type; bytes = concat x.elements })
    read_elsewhere =
        let n = length x.elements in
        let (hu, hv, same, now) = both_new in
        let q = (read_shared_object os v.data_info b).1 in
        let total : n * size % 2 ^ 64 ≡ size * n =
          rw (mul_comm n size) (omega (arith, source.bounded)) in
        rw
          (
            unshare-IsNew os px sh x.data_type n size cow u q q.world hu source.bounded,
            ← total,
            now,
          )
          refl

    -- What the other process then writes to all of its vector is what the first one's vector shows.
    pub write_elsewhere :
        (bytes : List ℕ)
        → length bytes ≡ size * length x.elements
        → (unshare os v (
            write_data os u bytes (record (create_shared_object_from_source os x cow ss sc p).1 {
              world = (read_shared_object os v.data_info b).1.world;
            }))).0
          ≡ ok (record { data_type = x.data_type; bytes = bytes })
    unfolding write_data
    write_elsewhere bytes long =
        let (hu, hv, same, now) = both_new in
        write-unshare x.data_type (length x.elements) size cow u v
          (read_shared_object os v.data_info b).1.world bytes _ hu hv same source.bounded long refl
