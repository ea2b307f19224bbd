-- ===== src/Altrep/StringVector/Written.antt =====
-- sharedString_set_elt of src/stringAltrepOperations.cpp on an index in shared memory.
use shared_object.Prelude.{
  ◌≤◌, ◌*◌, ◌%◌, map, none, some, if◌then◌else◌, ◌==◌, ℕ, ◌^◌, ◌<◌, ◌≡◌, refl, sym, ap, ◌∙◌, List,
  Bool, arith, length, ok, inl, inr,
}
use shared_object.Os.{Os, Posix, Sharing}
use shared_object.SharedMemory.{Process}
use shared_object.Altrep.Bytes.{length-write_cell}
use shared_object.Altrep.Types.{rawsxp}
use shared_object.Altrep.SharedVector.{SharedVector, length_of}
use shared_object.Altrep.SharedVector.Operations.{shared}
use shared_object.Altrep.SharedVector.Contents.{IsNew}
use shared_object.Altrep.SharedVector.Filling.{ok-injective}
use shared_object.Altrep.SharedVector.Serialization.{result_cases}
use shared_object.Altrep.StringVector.Created.{written_index}
use shared_object.Altrep.StringVector.{CharSxp, StringVector}
use shared_object.SharedMemory.Keys.{get_key}
use shared_object.Altrep.StringVector.Writes.{set_elt-Wrote, find_offset-position, elt-written}
use shared_object.Altrep.StringVector.Renamed.{get_elem?-map-some}
use shared_object.Altrep.StringVector.Operations as Methods
use shared_object.Altrep.StringVector.InMemory.{
  SharedString, index_bytes, view, set_elt, elt, put_index,
}

module _ (os : Os) where
  put_index-shared :
      (v : SharedString os) (u : SharedVector os) (w : StringVector) (p : Process os)
      → v.index ≡ shared u
      → put_index os v (ok w) p
        ≡ (ok v, record p { world = os.write_memory u.pointer w.index p.world })
  put_index-shared v u w p on = rw on refl

  -- What the method did to the process where it succeeded
  stored :
      (v v' : SharedString os) (u : SharedVector os) (i : ℕ) (c : CharSxp) (p : Process os)
      → v.index ≡ shared u
      → (set_elt os v i c p).0 ≡ ok v'
      → (w : StringVector) × (Methods.set_elt (view os v p) i c ≡ ok w)
        × (v' ≡ v)
        × ((set_elt os v i c p).1.world ≡ os.write_memory u.pointer w.index p.world)
  unfolding set_elt
  stored v v' u i c p on e = elim (result_cases (Methods.set_elt (view os v p) i c)) [
    | inl (w, done) ↦
        let run = ap (λ r. put_index os v r p) done ∙ put_index-shared v u w p on in
        (w, done, ok-injective (sym e ∙ ap (λ r. r.0) run), ap (λ r. r.1.world) run)
    | inr failed ↦ absurd (ground arith)
  ]

  module _ (px : Posix os) (sh : Sharing os) (n : ℕ) (cow : Bool) (p : Process os)
      (v t : SharedString os) (u m : SharedVector os) (on : v.index ≡ shared u)
      (same_on : t.index ≡ shared m) (hu : IsNew os px sh rawsxp n 1 cow u p.world)
      (hm : IsNew os px sh rawsxp n 1 cow m p.world) (same : m.tag ≡ u.tag)
      (bound : n < 2 ^ 64) where
    same_bytes : index_bytes os t.index p ≡ index_bytes os v.index p
    unfolding index_bytes length_of
    same_bytes =
        let key = get_key os u.tag in
        let total : n * 1 % 2 ^ 64 ≡ n = omega (arith, bound) in
        rw (same_on, on, hm.counted, hu.counted)
          (sh.same_object key m.pointer u.pointer n p.world (rw (total, same) at hm.backed)
            (rw total at hu.backed))

    bytes_after :
        (index : List ℕ) (o : Process os)
        → length index ≡ n
        → o.world ≡ os.write_memory u.pointer index p.world
        → index_bytes os t.index o ≡ index
    unfolding index_bytes
    bytes_after index o long now =
        rw (same_on, now) (written_index os px sh u m n cow p.world index hu hm same bound long)

    length-bytes : length (index_bytes os v.index p) ≡ n
    unfolding index_bytes
    length-bytes =
        rw on (sh.read_length u.pointer (length_of os u) p.world ∙ (unfold length_of in hu.counted))

    -- Two vectors of one-byte cells are on the mapped memory of one index, of fewer than 2^64
    -- bytes. The set of the one has at most 256 strings, and that of the other has for each of them
    -- the string that `f` gives; the other has no cached strings. After a write of a string through
    -- the one that succeeds, in every process with the memory that this leaves, the other reads at
    -- the position what `f` gives for the string, and at every other position what it read before.
    pub set_elt-elsewhere :
        (f : CharSxp → CharSxp) (i j : ℕ) (c : CharSxp) (v' : SharedString os) (o : Process os)
        → v.unit_size ≡ 1
        → length v.charset ≤ 256
        → t.unit_size ≡ 1
        → t.strvec ≡ none
        → t.charset ≡ map f v.charset
        → (set_elt os v i c p).0 ≡ ok v'
        → o.world ≡ (set_elt os v i c p).1.world
        → elt os t j o ≡ (if i == j then ok (some (f c)) else elt os t j p)
    unfolding elt view
    set_elt-elsewhere f i j c v' o narrow small narrow_t uncached chars e world =
        let (w, done, _, left) = stored v v' u i c p on e in
        let (k, index, found, wrote, is) = set_elt-Wrote (view os v p) w i c (rw narrow) done in
        let (below, at) = find_offset-position c v.charset k found in
        let long = length-write_cell 1 i k (index_bytes os v.index p) index wrote ∙ length-bytes in
        let now : o.world ≡ os.write_memory u.pointer index p.world =
          world ∙ left ∙ ap (λ (z : StringVector). os.write_memory u.pointer z.index p.world) is in
        rw (bytes_after index o long now) (
          elt-written (view os t p) i j k (f c) index uncached narrow_t
            (omega (arith, below, small)) (rw chars (get_elem?-map-some f v.charset k c at))
            (rw same_bytes wrote))
