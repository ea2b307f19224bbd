-- ===== src/Altrep/StringVector/Created.antt =====
-- createSharedStringFromSource and unshareString of src/altrep.cpp, with the index in shared memory.
use shared_object.Prelude.{
  ℕ, ◌+◌, ◌*◌, ◌%◌, ◌^◌, ◌≤◌, ◌<◌, ◌≡◌, refl, sym, ap, subst, ◌∙◌, String, List, [], ◌∷◌, Bool,
  true, false, none, some, arith, length, replicate, ok, Option-cases, Bool-cases, inl, inr, suc,
}
use native.Mathlib.Nat.{mul_comm}
use shared_object.Dict.{lookup}
use shared_object.Os.{Os, Posix, Sharing}
use shared_object.SharedMemory.{Process}
use shared_object.SharedMemory.Keys.{get_key}
use shared_object.SharedMemory.NextId.{get_next_id}
use shared_object.Altrep.Bytes.{write_cell, length-write_cell}
use shared_object.Altrep.Types.{rawsxp, strsxp, get_type_size}
use shared_object.Altrep.SharedVector.{SharedVector, length_of}
use shared_object.Altrep.SharedVector.Operations.{shared, read_bytes}
use shared_object.Altrep.SharedVector.Contents.{IsNew, create_empty-IsNew}
use shared_object.Altrep.SharedVector.Filling.{ok-injective}
use shared_object.Altrep.SharedVector.Serialization.{result_cases}
use shared_object.Altrep.SharedVector.RoundTrip.{moved}
use shared_object.Altrep.StringVector.{
  CharSxp, is_unit, unit_size_of, unique_chars, find_char, write_index, fill_charset,
}
use shared_object.Altrep.StringVector.Charset.{source-Coded}
use shared_object.Altrep.StringVector.Units.{unit_size_of-fits}
use shared_object.Altrep.StringVector.RoundTrip.{write_index-Written}
use shared_object.Altrep.StringVector.Shown.{Shows, unshare_string-Shows}
use shared_object.Altrep.StringVector.InMemory.{
  SharedString, index_bytes, create_index, create_shared_string_from_source, unshare_string,
}

-- One round of the loop
index_round :
    (unit i : ℕ) (c : CharSxp) (x : List CharSxp) (chars : List (CharSxp × ℕ))
    (index index' : List ℕ)
    → write_index unit i (c ∷ x) chars index ≡ ok index'
    → (mid : List ℕ) × (length mid ≡ length index)
      × (write_index unit (suc i) x chars mid ≡ ok index')
unfolding write_index
index_round unit i c x chars index index' e = elim (Option-cases (find_char c chars)) [
  | inl absent ↦ absurd (ground arith)
  | inr (k, at) ↦ elim (Bool-cases (is_unit unit)) [
    | inl known ↦ elim (result_cases (write_cell unit i k index)) [
      | inl (mid, w) ↦ (mid, length-write_cell unit i k index mid w, ground arith)
      | inr failed ↦ absurd (ground arith)
    ]
    | inr unknown ↦ (index, refl, ground arith)
  ]
]

length-write_index :
    (unit i : ℕ) (x : List CharSxp) (chars : List (CharSxp × ℕ)) (index index' : List ℕ)
    → write_index unit i x chars index ≡ ok index'
    → length index' ≡ length index
unfolding write_index
length-write_index unit i [] chars index index' e = ground arith
length-write_index unit i (c ∷ x) chars index index' e =
    let (mid, same, rest) = index_round unit i c x chars index index' e in
    length-write_index unit (suc i) x chars mid index' rest ∙ same

-- The bytes that the index of a vector of `x` takes.
abbrev pub index_size : List CharSxp → ℕ
index_size x = unit_size_of (length (unique_chars x [])) * length x

module _ (os : Os) where
  -- The vector that is made on an index.
  abbrev pub made_on : CharSxp → List CharSxp → Bool → SharedVector os → SharedString os
  made_on blank x copy_on_write u =
      let chars = unique_chars x [] in
      let unit = unit_size_of (length chars) in
      record {
        strvec = some x;
        index = shared u;
        charset = fill_charset chars (replicate (length chars) blank);
        vector_length = length x;
        unit_size = unit;
        total_size = unit * length x % 2 ^ 64;
        data_type = strsxp;
        unique_char = length chars;
        copy_on_write = copy_on_write;
      }

  created :
      (blank : CharSxp) (x : List CharSxp) (cow : Bool) (p : Process os) (u : SharedVector os)
      (index : List ℕ)
      → let chars = unique_chars x [] in
        let unit = unit_size_of (length chars) in
        let q = (create_index os (index_size x % 2 ^ 64) p).1 in
        is_unit unit ≡ true
        → (create_index os (index_size x % 2 ^ 64) p).0 ≡ ok u
        → write_index unit 0 x chars (read_bytes os u (length_of os u) q) ≡ ok index
        → create_shared_string_from_source os blank x cow p ≡ (
          ok (made_on blank x cow u),
          record q { world = os.write_memory u.pointer index q.world },
        )
  unfolding create_shared_string_from_source
  created blank x cow p u index known made done = rw (known, made, done) refl

  -- What a vector on an index shows after the whole index is written through another vector on it.
  pub written_index :
      (px : Posix os) (sh : Sharing os) (u m : SharedVector os) (n : ℕ) (cow : Bool) (w : os.World)
      (index : List ℕ)
      → IsNew os px sh rawsxp n 1 cow u w
      → IsNew os px sh rawsxp n 1 cow m w
      → m.tag ≡ u.tag
      → n < 2 ^ 64
      → length index ≡ n
      → os.read_memory m.pointer (length_of os m) (os.write_memory u.pointer index w) ≡ index
  unfolding length_of
  written_index px sh u m n cow w index hu hm same bound long =
      let key = get_key os u.tag in
      let w' = os.write_memory u.pointer index w in
      let total : n * 1 % 2 ^ 64 ≡ length index = omega (arith, bound, long) in
      let bu : sh.backs key u.pointer (length index) w ≡ true = rw (← total) hu.backed in
      let bm : sh.backs key m.pointer (length index) w ≡ true = rw (← total, ← same) hm.backed in
      rw (hm.counted, ← long)
        (sh.same_object key m.pointer u.pointer (length index) w'
            (sh.backs-write key m.pointer u.pointer (length index) index w ∙ bm)
            (sh.backs-write key u.pointer u.pointer (length index) index w ∙ bu)
          ∙ sh.write_reads key u.pointer index w bu)

  module _ (px : Posix os) (sh : Sharing os) (p : Process os) where
    module _ (blank : CharSxp) (x : List CharSxp) (cow : Bool) (u : SharedVector os)
        (small : length (unique_chars x []) < 2 ^ 64) (bound : index_size x < 2 ^ 64)
        (fresh : (id : String)
          → (get_next_id os p).0 ≡ ok id
          → lookup (get_key os id) p.shared_object_list ≡ none)
        (made : (create_index os (index_size x % 2 ^ 64) p).0 ≡ ok u) where
      -- The index of the new vector, and the vector
      create-IsNew :
          IsNew os px sh rawsxp
            (index_size x)
            1
            true
            u
            (create_index os (index_size x % 2 ^ 64) p).1.world
      unfolding get_type_size
      create-IsNew =
          let (size, new) =
            create_empty-IsNew os px sh rawsxp (index_size x % 2 ^ 64) true false false p u fresh
              made in
          let one : size ≡ 1 = ok-injective (sym new.sized) in
          let whole : index_size x % 2 ^ 64 ≡ index_size x = omega (arith, bound) in
          subst
            (λ n.
              IsNew os px sh rawsxp n 1 true u (create_index os (index_size x % 2 ^ 64) p).1.world)
            whole
            (subst
              (λ s.
                IsNew os px sh rawsxp (index_size x % 2 ^ 64) s true u
                  (create_index os (index_size x % 2 ^ 64) p).1.world)
              one new)

      pub create-Shows :
          (create_shared_string_from_source os blank x cow p).0 ≡ ok (made_on blank x cow u)
          × Shows os (made_on blank x cow u) x (create_shared_string_from_source os blank x cow p).1
          × IsNew os px sh rawsxp
              (index_size x)
              1
              true
              u
              (create_shared_string_from_source os blank x cow p).1.world
      unfolding index_bytes length_of
      create-Shows =
          let unit = unit_size_of (length (unique_chars x [])) in
          let q = (create_index os (index_size x % 2 ^ 64) p).1 in
          let (known, fits, _) = unit_size_of-fits (length (unique_chars x [])) small in
          let before = read_bytes os u (length_of os u) q in
          let long : length before ≡ index_size x =
            sh.read_length u.pointer (length_of os u) q.world ∙ create-IsNew.counted in
          let room : (0 + length x) * unit ≤ length before =
            rw long (omega (arith, mul_comm unit (length x))) in
          let (index, done, _, decoded) =
            write_index-Written unit (unique_chars x []) _ known fits 0 x before
              (source-Coded blank x) room in
          let run = created blank x cow p u index known made done in
          let size : length index ≡ index_size x =
            length-write_index unit 0 x (unique_chars x []) before index done ∙ long in
          let now =
            written_index px sh u u (index_size x) true q.world index create-IsNew create-IsNew refl
              bound size in
          (
            ap (λ r. r.0) run,
            record { known = known; counted = refl; decoded = rw (run, now) decoded },
            rw run (
                moved os px sh rawsxp (index_size x) 1 true u q.world
                  (os.write_memory u.pointer index q.world)
                  (sh.backs-write (get_key os u.tag) u.pointer u.pointer (index_size x * 1 % 2 ^ 64)
                    index q.world)
                  create-IsNew),
          )

      -- A process shares the strings `x`, of which fewer than 2^64 are different and whose index has
      -- fewer than 2^64 bytes, under an id whose key it has no object of. Where the raw vector for the
      -- index is made, the shared vector is made on it, and unshareString gives `x` back from the
      -- memory that the process then has.
      pub unshare_string-create_in_memory :
          (v : SharedString os) × ((create_shared_string_from_source os blank x cow p).0 ≡ ok v)
          × (unshare_string os v (create_shared_string_from_source os blank x cow p).1 ≡ ok x)
      unshare_string-create_in_memory =
          let (run, shows, new) = create-Shows in
          (made_on blank x cow u, run, unshare_string-Shows os (made_on blank x cow u) x _ shows)
