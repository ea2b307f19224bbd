-- ===== src/Altrep/StringVector/Elsewhere.antt =====
-- sharedString_serialized_state and sharedString_unserialize of src/stringAltrepOperations.cpp, one
-- after the other in two processes that have the same memory.
use mathlib.Core.Option.{some-injective}
use mathlib.Core.Option
use shared_object.Prelude.{
  ℕ, Option-cases, ◌*◌, ◌%◌, ◌^◌, ◌<◌, ◌≡◌, refl, sym, ap, subst, ◌∙◌, String, List, [], map, Bool,
  true, none, some, arith, length, length-map, get_elem?, Result, ok, inl, inr,
}
use shared_object.Dict.{lookup}
use shared_object.Os.{Os, Posix, Counting, Sharing}
use shared_object.SharedMemory.{Process}
use shared_object.SharedMemory.Keys.{get_key}
use shared_object.SharedMemory.NextId.{get_next_id}
use shared_object.Altrep.Types.{rawsxp}
use shared_object.Altrep.SharedVector.{SharedVector, length_of, read_shared_object}
use shared_object.Altrep.SharedVector.Operations as Numeric
use shared_object.Altrep.SharedVector.Operations.{
  State, Made, plain, shared, Restored, missing, vector, PlainVector, unshared, listed,
  unserialize_state, unshare,
}
use shared_object.Altrep.SharedVector.Contents.{IsNew, after-ok}
use shared_object.Altrep.SharedVector.RoundTrip.{unshare-IsNew}
use shared_object.Altrep.SharedVector.Sharing.{read-IsNew}
use shared_object.Altrep.SharedVector.Filling.{ok-injective}
use shared_object.Altrep.SharedVector.Serialization.{state-cases, restored-cases}
use shared_object.Altrep.StringVector.{CharSxp, unique_chars}
use shared_object.Altrep.StringVector.RoundTrip.{Decoded}
use shared_object.Altrep.StringVector.InMemory.{
  SharedString, StringState, index_bytes, index_state, state_on, serialized_state, unserialize,
  on_index, made_of, create_shared_string_from_source, unshare_string, elt, create_index,
}
use shared_object.Altrep.StringVector.Shown.{Shows, elt-Shows, unshare_string-Shows}
use shared_object.Altrep.StringVector.Created.{create-Shows, made_on, index_size}
use shared_object.Altrep.StringVector.Renamed.{get_elem?-map-some, Decoded-map}

module _ (os : Os) where
  index_bytes-counted :
      (u : SharedVector os) (n : ℕ) (p : Process os)
      → length_of os u ≡ n
      → index_bytes os (shared u) p ≡ os.read_memory u.pointer n p.world
  unfolding index_bytes
  index_bytes-counted u n p e = ap (λ m. os.read_memory u.pointer m p.world) e

  -- What is written for a vector on a shared index
  written_state :
      (v : SharedString os) (u : SharedVector os) (p : Process os) (s : StringState)
      → v.index ≡ shared u
      → (serialized_state os v p).0 ≡ ok s
      → (index : State) × ((Numeric.serialized_state os u p).0 ≡ ok index)
        × ((serialized_state os v p).1 ≡ (Numeric.serialized_state os u p).1)
        × (s ≡ state_on os v index)
  unfolding serialized_state index_state
  written_state v u p s on e =
      let (index, written, at) =
        after-ok (index_state os v.index p).0 _ (index_state os v.index p).1 s e in
      (
        index,
        ap (λ m. (index_state os m p).0) (sym on) ∙ written,
        ap (λ r. r.1) at ∙ ap (λ m. (index_state os m p).1) on,
        ok-injective (sym e ∙ ap (λ r. r.0) at),
      )

  -- What is restored is a vector on the index that is restored.
  restored_on :
      (read_char : CharSxp → CharSxp) (s : StringState) (b : Process os) (r : SharedString os)
      → (unserialize os read_char s b).0 ≡ ok (some r)
      → (index : Restored os) × (made : Made os) × ((unserialize_state os s.index b).0 ≡ ok index)
        × ((unserialize os read_char s b).1 ≡ (unserialize_state os s.index b).1)
        × (made_of os index ≡ some made)
        × (r ≡ on_index os read_char s made)
  unfolding unserialize
  restored_on read_char s b r e =
      let (index, restored, at) = after-ok (unserialize_state os s.index b).0 _ _ (some r) e in
      let whole = ok-injective (sym e ∙ ap (λ q. q.0) at) in
      elim (Option-cases (made_of os index)) [
        | inl none_made ↦ absurd (ground (arith, whole))
        | inr (made, is) ↦ (
          index,
          made,
          restored,
          ap (λ q. q.1) at,
          is,
          some-injective _ _ (whole ∙ ap (Option.map (on_index os read_char s)) is),
        )
      ]

  module _ (co : Counting os) (px : Posix os) (sh : Sharing os) (n : ℕ) (cow : Bool)
      (u : SharedVector os) (p b : Process os) (st : State) (index : Restored os) (made : Made os)
      (new : IsNew os px sh rawsxp n 1 cow u p.world) (bound : n < 2 ^ 64)
      (written : (Numeric.serialized_state os u p).0 ≡ ok st)
      (world : b.world ≡ (Numeric.serialized_state os u p).1.world)
      (absent : lookup (get_key os u.tag) b.shared_object_list ≡ none)
      (restored : (unserialize_state os st b).0 ≡ ok index)
      (is : made_of os index ≡ some made) where
    -- Where the list of the index was written, its memory is mapped.
    listed_bytes :
        st ≡ listed u.data_info
        → (Numeric.serialized_state os u p).1 ≡ p
        → index_bytes os made (unserialize_state os st b).1 ≡ os.read_memory u.pointer n p.world
    unfolding index_bytes length_of
    listed_bytes list same =
        let now : b.world ≡ p.world = world ∙ ap (λ (q : Process os). q.world) same in
        let (t, e, read, after) =
          restored-cases os co px sh u.data_info b index
            (ap (λ s. (unserialize_state os s b).0) (sym list) ∙ restored)
            (λ gone. absurd (ground (arith, is))) in
        let (ht, hu, tags, shows) =
          read-IsNew os px sh rawsxp n 1 cow u b t (rw now new) absent read in
        let on : made ≡ shared t = some-injective _ _ (sym is ∙ ap (made_of os) e) in
        let total : n * 1 % 2 ^ 64 ≡ n = omega (arith, bound) in
        let from_here = shows ∙ ap (λ w. os.read_memory u.pointer (n * 1 % 2 ^ 64) w) now in
        rw (on, list, after, ht.counted)
          (subst
            (λ m.
              os.read_memory t.pointer m (read_shared_object os u.data_info b).1.world
              ≡ os.read_memory u.pointer m p.world)
            total from_here)

    copied_bytes :
        (x : PlainVector)
        → st ≡ unshared x
        → (unshare os u p).0 ≡ ok x
        → index_bytes os made (unserialize_state os st b).1 ≡ os.read_memory u.pointer n p.world
    unfolding index_bytes unserialize_state
    copied_bytes x copy e =
        let bound' : 1 * n < 2 ^ 64 = omega (arith, bound) in
        let is_plain : index ≡ Restored.plain x =
          ok-injective (sym restored ∙ ap (λ s. (unserialize_state os s b).0) copy) in
        let on : made ≡ plain x = some-injective _ _ (sym is ∙ ap (made_of os) is_plain) in
        let shown =
          ap (λ (r : Result PlainVector × Process os). r.0)
            (unshare-IsNew os px sh rawsxp n 1 cow u p p.world new bound') in
        let bytes : x
            ≡ record { data_type = rawsxp; bytes = os.read_memory u.pointer (1 * n) p.world } =
          ok-injective (sym e ∙ shown) in
        let one : 1 * n ≡ n = omega arith in
        rw on (
          ap (λ (y : PlainVector). y.bytes) bytes
          ∙ ap (λ m. os.read_memory u.pointer m p.world) one)

    same_bytes :
        index_bytes os made (unserialize_state os st b).1 ≡ os.read_memory u.pointer n p.world
    same_bytes =
        let (same, c) = state-cases os co u p st written in
        elim c [ inl list ↦ listed_bytes list same | inr (x, copy, e) ↦ copied_bytes x copy e ]

  module _ (co : Counting os) (px : Posix os) (sh : Sharing os) (blank : CharSxp) (x : List CharSxp)
      (cow : Bool) (p b : Process os) (u : SharedVector os)
      (small : length (unique_chars x []) < 2 ^ 64) (bound : index_size x < 2 ^ 64)
      (fresh : (id : String)
        → (get_next_id os p).0 ≡ ok id
        → lookup (get_key os id) p.shared_object_list ≡ none)
      (made : (create_index os (index_size x % 2 ^ 64) p).0 ≡ ok u) (s : StringState)
      (written : (serialized_state os
          (made_on os blank x cow u)
          (create_shared_string_from_source os blank x cow p).1).0
        ≡ ok s)
      (world : b.world
        ≡ (serialized_state os
            (made_on os blank x cow u)
            (create_shared_string_from_source os blank x cow p).1).1.world)
      (absent : lookup (get_key os u.tag) b.shared_object_list ≡ none)
      (read_char : CharSxp → CharSxp) (r : SharedString os)
      (restored : (unserialize os read_char s b).0 ≡ ok (some r)) where
    -- The restored vector keeps no strings and shows the source.
    pub restored-Shows :
        (r.strvec ≡ none) × Shows os r (map read_char x) (unserialize os read_char s b).1
    restored-Shows =
        let q = (create_shared_string_from_source os blank x cow p).1 in
        let v = made_on os blank x cow u in
        let (run, shows, new) = create-Shows os px sh p blank x cow u small bound fresh made in
        let (st, written', left, e) = written_state v u q s refl written in
        let (index, on, restored', after, is, e') = restored_on read_char s b r restored in
        let bytes =
          same_bytes co px sh (index_size x) true u q b st index on new bound written'
            (world ∙ ap (λ (z : Process os). z.world) left) absent
            (ap (λ (z : StringState). (unserialize_state os z.index b).0) (sym e) ∙ restored') is in
        let there = (unserialize os read_char s b).1 in
        let left_there : there ≡ (unserialize_state os st b).1 =
          after ∙ ap (λ (z : StringState). (unserialize_state os z.index b).1) e in
        let same =
          ap (index_bytes os on) left_there
          ∙ bytes
          ∙ sym (index_bytes-counted u (index_size x) q (unfold length_of in new.counted)) in
        let whole : r ≡ on_index os read_char (state_on os v st) on =
          e' ∙ ap (λ z. on_index os read_char z on) e in
        (
          ap (λ (z : SharedString os). z.strvec) whole,
          subst (λ z. Shows os z (map read_char x) there) (sym whole)
              (record {
                known = shows.known;
                counted = sym (length-map x read_char);
                decoded =
                    subst (λ i. Decoded v.unit_size (map read_char v.charset) i 0 (map read_char x))
                      (sym same)
                      (Decoded-map read_char v.unit_size v.charset (index_bytes os v.index q) 0 x
                        shows.decoded);
              }),
        )

    -- A process makes a shared vector of the strings `x`, of which fewer than 2^64 are different and
    -- whose index has fewer than 2^64 bytes, its index under an id whose key it has no object of, and
    -- serializes it. Another process, with the same memory and no object of the index's key,
    -- unserializes what was written. Where this gives a vector, it unshares to the strings of `x`, and
    -- each of them is read at its position, as the other process has them.
    pub unserialize-serialized_string :
        (unshare_string os r (unserialize os read_char s b).1 ≡ ok (map read_char x))
        × ((i : ℕ) (c : CharSxp)
            → get_elem? x i ≡ some c
            → elt os r i (unserialize os read_char s b).1 ≡ ok (some (read_char c)))
    unserialize-serialized_string =
        let (uncached, shows) = restored-Shows in
        let there = (unserialize os read_char s b).1 in
        (
          unshare_string-Shows os r (map read_char x) there shows,
          λ i c at.
              elt-Shows os r (map read_char x) there i (read_char c) uncached shows
                (get_elem?-map-some read_char x i c at),
        )
