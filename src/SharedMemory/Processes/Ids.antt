-- ===== src/SharedMemory/Processes/Ids.antt =====
-- Which ids the allocations of several processes give.
use text.Mathlib.TextPositions.{eq_refl}
use shared_object.Prelude.{
  ℕ, String, ◌≡◌, ◌≢◌, refl, sym, subst, ◌∙◌, true, false, none, List, [], ◌∷◌, ◌==◌, arith, ok,
  Bool-cases, inl, inr,
}
use shared_object.Dict.{lookup}
use shared_object.Os.{Os, Posix}
use shared_object.SharedObjectClass.{Frame, construct}
use shared_object.SharedObjectClass.Effects.{Allocated, allocate_Allocated}
use shared_object.SharedObjectClass.Methods
use shared_object.SharedMemory.{Process, frame, allocate_shared_memory_internal}
use shared_object.SharedMemory.Keys.{get_key}
use shared_object.SharedMemory.Public.{allocate_shared_memory}
use shared_object.SharedMemory.Ghosts.{ghost_result, ghost_world}
use shared_object.SharedMemory.RefCount.Invariant.{chosen}
use shared_object.SharedMemory.Processes.{
  PublicCall, allocating, perform, ends, Host, process, turn, turns,
}
use shared_object.SharedMemory.Processes.Keyed.{Keyed, perform-Keyed, chosen_keeps}
use shared_object.SharedMemory.Processes.Names.{perform-named, chosen-named}

-- None of the calls unmaps or frees the id.
abbrev pub Quiet : String → List (ℕ × PublicCall) → Type 0
Quiet id [] = Unit
Quiet id ((i, c) ∷ ts) = (ends id c ≡ false) × Quiet id ts

module _ (os : Os) where
  -- Each process keeps its objects under their own keys.
  abbrev pub AllKeyed : Host os → Type 0
  AllKeyed m = (i : ℕ) → Keyed os (m.own i)

  pub turn-AllKeyed : (t : ℕ × PublicCall) (m : Host os) → AllKeyed m → AllKeyed (turn os t m)
  unfolding turn
  turn-AllKeyed (i, c) m h k = elim (Bool-cases (k == i)) [
    | inl same ↦ rw same (perform-Keyed os c (process os i m) (h i))
    | inr other ↦ rw other (h k)
  ]

  pub allocated_ok :
      (size : ℕ) (asked id : String) (p : Process os)
      → (allocate_shared_memory os size asked p).0 ≡ ok id
      → ((chosen os asked p).0 ≡ ok id)
        × ((allocate_shared_memory_internal os (get_key os id) size (chosen os asked p).1).0
            ≡ ok tt)
        × ((allocate_shared_memory os size asked p).1
            ≡ (allocate_shared_memory_internal os (get_key os id) size (chosen os asked p).1).1)
  unfolding allocate_shared_memory chosen
  allocated_ok size asked id p e = ground arith

  module _ (px : Posix os) where
    -- Any processes make any calls, one after the other, none of which unmaps or frees a certain id.
    -- Where each process keeps its objects under their own keys and the id has a name in shared
    -- memory, it has one afterwards.
    pub named-turns :
        (ts : List (ℕ × PublicCall)) (m : Host os) (id : String)
        → AllKeyed m
        → Quiet id ts
        → px.named (get_key os id) m.world ≡ true
        → px.named (get_key os id) (turns os ts m).world ≡ true
    unfolding turns turn
    named-turns [] m id k quiet h = h
    named-turns ((i, c) ∷ ts) m id k quiet h =
        named-turns ts (turn os (i, c) m) id (turn-AllKeyed (i, c) m k) quiet.1
          (perform-named os px c (process os i m) id (k i) quiet.0 h)

    -- An id that is given was free, and has a name then.
    pub allocated-named :
        (size : ℕ) (asked id : String) (p : Process os)
        → (allocate_shared_memory os size asked p).0 ≡ ok id
        → lookup (get_key os id) p.shared_object_list ≡ none
        → (px.named (get_key os id) p.world ≡ false)
          × (px.named (get_key os id) (allocate_shared_memory os size asked p).1.world ≡ true)
    unfolding construct
    allocated-named size asked id p e absent =
        let q = (chosen os asked p).1 in
        let key = get_key os id in
        let (chose, made, left) = allocated_ok size asked id p e in
        let absent' : lookup key q.shared_object_list ≡ none =
          rw (chosen_keeps os asked p) absent in
        let begun : Frame os = frame os (construct os key size) q.world in
        let done = sym (ghost_result os key size q absent') ∙ made in
        let r = Methods.allocate_shared_memory os begun in
        let (free, _, _, taken) : Allocated os px begun key (ok tt) r.1 =
          subst (λ z. Allocated os px begun key z r.1) done
            (allocate_Allocated os px begun key refl) in
        (
          sym (chosen-named os px asked p key) ∙ free,
          rw (left, ghost_world os key size q absent') (taken ∙ ground (arith, eq_refl key)),
        )

    -- A process is given an id whose key it has no object of, and then any processes make any calls,
    -- none of which unmaps or frees that id. Where a process is then given an id whose key it has no
    -- object of, whether it asked for one or not, this is another id. At the start each process keeps
    -- its objects under their own keys.
    pub ids_differ :
        (m : Host os) (i k size size' : ℕ) (asked asked' id id' : String)
        (ts : List (ℕ × PublicCall))
        → AllKeyed m
        → (allocate_shared_memory os size asked (process os i m)).0 ≡ ok id
        → lookup (get_key os id) (m.own i).shared_object_list ≡ none
        → Quiet id ts
        → (allocate_shared_memory os size' asked'
            (process os k (turns os ts (turn os (i, allocating size asked) m)))).0
          ≡ ok id'
        → lookup
            (get_key os id')
            ((turns os ts (turn os (i, allocating size asked) m)).own k).shared_object_list
          ≡ none
        → id ≢ id'
    unfolding turn perform
    ids_differ m i k size size' asked asked' id id' ts keyed given absent quiet given' absent'
          same =
        let m₁ = turn os (i, allocating size asked) m in
        let taken = (allocated-named size asked id (process os i m) given absent).1 in
        let still =
          named-turns ts m₁ id (turn-AllKeyed (i, allocating size asked) m keyed) quiet taken in
        let free =
          (allocated-named size' asked' id' (process os k (turns os ts m₁)) given' absent').0 in
        ground (arith, still, free, same)
