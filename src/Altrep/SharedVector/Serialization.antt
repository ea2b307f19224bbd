-- ===== src/Altrep/SharedVector/Serialization.antt =====
-- sharedVector_serialized_state and sharedVector_unserialize of src/numericAltrepOperations.cpp, one
-- after the other in two processes.
use native.Mathlib.Nat.{mul_comm}
use shared_object.Prelude.{
  ℕ, ◌*◌, ◌%◌, ◌^◌, ◌<◌, ◌≡◌, ◌≢◌, refl, sym, ap, ◌∙◌, Bool, Option, none, some, arith, Error,
  Fault, Option-cases, Result, ok, threw, aborted, inl, inr, ◌⊎◌,
}
use shared_object.Dict.{lookup}
use shared_object.Os.{Os, Posix, Counting, Sharing}
use shared_object.SharedObjectClass.Methods
use shared_object.SharedMemory.{Process}
use shared_object.SharedMemory.Keys.{get_key}
use shared_object.SharedMemory.NextId.{probe_keeps}
use shared_object.SharedMemory.Public.{has_shared_memory}
use shared_object.Altrep.SharedVector.{SharedVector, DataInfo, read_shared_object, unserialize}
use shared_object.Altrep.SharedVector.Operations.{
  PlainVector, unshare, State, listed, unshared, serialized_state, Restored, missing, vector, plain,
  unserialize_state,
}
use shared_object.Altrep.SharedVector.Contents.{IsNew}
use shared_object.Altrep.SharedVector.RoundTrip.{unshare-IsNew}
use shared_object.Altrep.SharedVector.Sharing.{read-IsNew}

pub result_cases :
    {A : Type 0} (r : Result A)
    → ((a : A) × (r ≡ ok a)) ⊎ (((e : Error) × (r ≡ threw e)) ⊎ ((f : Fault) × (r ≡ aborted f)))
result_cases (ok a) = inl (a, refl)
result_cases (threw e) = inr (inl (e, refl))
result_cases (aborted f) = inr (inr (f, refl))

module _ (os : Os) where
  -- What a restored vector shows, none where nothing was restored.
  unfoldable pub shown : Restored os → Process os → Option (Result PlainVector)
  shown missing p = none
  shown (vector v) p = some (unshare os v p).0
  shown (plain x) p = some (ok x)

  -- What is written: the list where the memory has a name, an unshared copy where it has none
  abbrev pub WritesState : SharedVector os → Process os → State → Type 0
  WritesState v p s =
      ((made : os.Handle × os.World) × (os.open_only (get_key os v.data_info.data_id) p.world
          ≡ some made)
        × (s ≡ listed v.data_info))
      ⊎ ((x : PlainVector) × (os.open_only (get_key os v.data_info.data_id) p.world ≡ none)
          × (s ≡ unshared x)
          × ((unshare os v p).0 ≡ ok x))

  serialized_state-WritesState :
      (v : SharedVector os) (p : Process os) (s : State)
      → (serialized_state os v p).0 ≡ ok s
      → WritesState v p s
  unfolding serialized_state has_shared_memory Methods.has_shared_memory
  serialized_state-WritesState v p s e =
      elim (Option-cases (os.open_only (get_key os v.data_info.data_id) p.world)) [
        | inr (made, named) ↦ inl (made, named, ground arith)
        | inl absent ↦ elim (result_cases (unshare os v p).0) [
          | inl (x, done) ↦ inr (x, absent, ground arith, done)
          | inr (inl (x, failed)) ↦ absurd (ground arith)
          | inr (inr (x, failed)) ↦ absurd (ground arith)
        ]
      ]

  module _ (co : Counting os) where
    -- Memory stays as it is, and what is written is the list or an unshared copy.
    pub state-cases :
        (v : SharedVector os) (p : Process os) (s : State)
        → (serialized_state os v p).0 ≡ ok s
        → ((serialized_state os v p).1 ≡ p)
          × ((s ≡ listed v.data_info)
              ⊎ ((x : PlainVector) × (s ≡ unshared x) × ((unshare os v p).0 ≡ ok x)))
    unfolding serialized_state has_shared_memory unshare
    state-cases v p s e = grind (arith, probe_keeps)

    module _ (px : Posix os) (sh : Sharing os) where
      pub restored-cases :
          (info : DataInfo) (b : Process os) (r : Restored os)
          → (unserialize_state os (listed info) b).0 ≡ ok r
          → r ≢ missing
          → (u : SharedVector os) × (r ≡ vector u)
            × ((read_shared_object os info b).0 ≡ ok u)
            × ((unserialize_state os (listed info) b).1 ≡ (read_shared_object os info b).1)
      unfolding unserialize_state unserialize
      restored-cases info b r e found = elim (result_cases (read_shared_object os info b).0) [
        | inl (u, read) ↦ (u, ground arith, read, ground arith)
        | inr (inl (x, failed)) ↦ absurd (found (ground arith))
        | inr (inr (x, failed)) ↦ absurd (ground arith)
      ]

      restored_shown :
          (type count size : ℕ) (cow : Bool) (v : SharedVector os) (p b : Process os)
          (u : SharedVector os)
          → IsNew os px sh type count size cow v p.world
          → b.world ≡ p.world
          → size * count < 2 ^ 64
          → lookup (get_key os v.tag) b.shared_object_list ≡ none
          → (read_shared_object os v.data_info b).0 ≡ ok u
          → shown (vector u) (read_shared_object os v.data_info b).1 ≡ some (unshare os v p).0
      unfolding shown
      restored_shown type count size cow v p b u new now bound absent read =
          let (hu, hv, same, shows) =
            read-IsNew os px sh type count size cow v b u (rw now new) absent read in
          let q = (read_shared_object os v.data_info b).1 in
          let total : count * size % 2 ^ 64 ≡ size * count =
            rw (mul_comm count size) (omega (arith, bound)) in
          rw
            (
              unshare-IsNew os px sh type count size cow u q q.world hu bound,
              unshare-IsNew os px sh type count size cow v p p.world new bound,
              ← total,
              shows,
              now,
            )
            refl

      -- A mapped vector of fewer than 2^64 bytes is serialized, and what is written is unserialized
      -- in a process that has the same memory but no object of the vector's. Where the vector's id
      -- has a name, the list was written, and where it has none, what the vector unshares to. Where
      -- the other process gets a vector, it shows what the vector shows.
      pub unserialize-serialized_state :
          (type count size : ℕ) (cow : Bool) (v : SharedVector os) (p b : Process os) (s : State)
          (r : Restored os)
          → IsNew os px sh type count size cow v p.world
          → size * count < 2 ^ 64
          → (serialized_state os v p).0 ≡ ok s
          → b.world ≡ (serialized_state os v p).1.world
          → lookup (get_key os v.tag) b.shared_object_list ≡ none
          → (unserialize_state os s b).0 ≡ ok r
          → r ≢ missing
          → WritesState v p s × (shown r (unserialize_state os s b).1 ≡ some (unshare os v p).0)
      unfolding shown unserialize_state
      unserialize-serialized_state type count size cow v p b s r new bound written world absent
            restored found =
          (
            serialized_state-WritesState v p s written,
            let (same, c) = state-cases v p s written in
                elim c [
                  | inl list ↦
                      let (u, e, read, after) =
                        restored-cases v.data_info b r
                          (ap (λ t. (unserialize_state os t b).0) (sym list) ∙ restored) found in
                      let now : b.world ≡ p.world = world ∙ ap (λ (q : Process os). q.world) same in
                      rw (list, e, after)
                        (restored_shown type count size cow v p b u new now bound absent read)
                  | inr (x, copy, e) ↦ ground arith
                ],
          )
