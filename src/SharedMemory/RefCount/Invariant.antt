-- ===== src/SharedMemory/RefCount/Invariant.antt =====
-- Reference counting: whatever the callers map, allocate, unmap, own and measure, in any order and
-- with whatever failures, every pointer that one of them still holds stays mapped.
use text.Mathlib.TextPositions.{eq_refl}
use shared_object.Prelude.{
  ℕ, String, ◌≡◌, refl, Bool, none, some, List, [], ◌∷◌, arith, Option-cases, Bool-cases, inl, inr,
  str_eq, if◌then◌else◌, ltb, Result, ok, threw, aborted, Exec, pure,
}
use shared_object.Dict.{lookup, lookup-insert, lookup-empty, empty}
use shared_object.Os.{Os}
use shared_object.SharedObjectClass.{SharedObjectClass}
use shared_object.SharedMemory.{
  Process, get_shared_memory_size_internal, allocate_shared_memory_internal,
}
use shared_object.SharedMemory.Keys.{get_key}
use shared_object.SharedMemory.NextId.{get_next_id}
use shared_object.SharedMemory.Public.{
  allocate_shared_memory, map_shared_memory, unmap_shared_memory, set_auto_release_after_use,
  get_shared_memory_size, has_shared_memory,
}
use shared_object.SharedMemory.RefCount.Mappings.{
  Mappings, count, remove_one, Tracks, AllHeld-change,
}
use shared_object.SharedMemory.RefCount.Mapping.{after_map, map-Tracks}
use shared_object.SharedMemory.RefCount.Allocating.{allocate-Tracks}
use shared_object.SharedMemory.RefCount.Unmapping.{unmap-Tracks}

pub data Call : Type 0 where
  mapping unmapping measuring probing : String → Call
  allocating : ℕ → String → Call
  owning : String → Bool → Call

module _ (os : Os) where
  abbrev pub start : os.World → Process os
  start w = record { map_counter = empty; shared_object_list = empty; last_id = none; world = w }

  -- The process and the mappings of its callers after a call. Nobody unmaps what he has not mapped.
  step : Process os × Mappings os → Call → Process os × Mappings os
  step (p, live) (mapping id) =
      let (r, q) = map_shared_memory os id p in (q, after_map os (get_key os id) r live)
  step (p, live) (unmapping id) =
      if ltb 0 (count os (get_key os id) live)
      then (unmap_shared_memory os id p, remove_one os (get_key os id) live)
      else (p, live)
  step (p, live) (measuring id) = ((get_shared_memory_size os id p).1, live)
  step (p, live) (probing id) = ((has_shared_memory os id p).1, live)
  step (p, live) (allocating size id) = ((allocate_shared_memory os size id p).1, live)
  step (p, live) (owning id own) = ((set_auto_release_after_use os id own p).1, live)

  pub run : Process os × Mappings os → List Call → Process os × Mappings os
  run s [] = s
  run s (c ∷ calls) = run (step s c) calls

  unfoldable pub after_choice : ℕ → Result String → Process os → Process os
  after_choice size (ok id) q = (allocate_shared_memory_internal os (get_key os id) size q).1
  after_choice size _ q = q

  -- What depends on the list and the counters alone.
  pub same_Tracks :
      (p q : Process os) (live : Mappings os)
      → q.map_counter ≡ p.map_counter
      → q.shared_object_list ≡ p.shared_object_list
      → Tracks os p live
      → Tracks os q live
  same_Tracks p q live counters objects t = record {
    counted = λ k. rw counters (t.counted k);
    held = AllHeld-change os p q "" live (λ j h. rw objects) (λ a h. rw objects h) t.held;
    valid = λ k o e. t.valid k o (rw objects at e);
  }

  measuring-Tracks :
      (p : Process os) (live : Mappings os) (id : String)
      → Tracks os p live
      → Tracks os (get_shared_memory_size os id p).1 live
  unfolding get_shared_memory_size get_shared_memory_size_internal
  measuring-Tracks p live id t =
      same_Tracks p (get_shared_memory_size os id p).1 live (ground arith) (ground arith) t

  -- The id that allocateSharedMemory works with.
  unfoldable pub chosen : String → Exec (Process os) String
  chosen id p = (if str_eq id "" then get_next_id os else pure id) p

  chosen-Tracks :
      (p : Process os) (live : Mappings os) (id : String)
      → Tracks os p live
      → Tracks os (chosen id p).1 live
  unfolding chosen get_next_id
  chosen-Tracks p live id t = same_Tracks p (chosen id p).1 live (ground arith) (ground arith) t

  pub allocated_as :
      (p : Process os) (size : ℕ) (id : String) (r : Result String)
      → (chosen id p).0 ≡ r
      → (allocate_shared_memory os size id p).1 ≡ after_choice size r (chosen id p).1
  unfolding allocate_shared_memory chosen after_choice
  allocated_as p size id r e = ground arith

  pub allocating-Tracks :
      (p : Process os) (live : Mappings os) (size : ℕ) (id : String)
      → Tracks os p live
      → Tracks os (allocate_shared_memory os size id p).1 live
  unfolding after_choice
  allocating-Tracks p live size id t =
      rw (allocated_as p size id (chosen id p).0 refl) (go (chosen id p).0)
    where
      go : (r : Result String) → Tracks os (after_choice size r (chosen id p).1) live
      go (ok new) =
          allocate-Tracks os (get_key os new) size (chosen id p).1 live (chosen-Tracks p live id t)
      go (threw e) = chosen-Tracks p live id t
      go (aborted x) = chosen-Tracks p live id t

  owned_lookup :
      (p : Process os) (id : String) (own : Bool) (j : String) (o : SharedObjectClass os)
      → lookup (get_key os id) p.shared_object_list ≡ some o
      → lookup j (set_auto_release_after_use os id own p).1.shared_object_list ≡ (
          if str_eq (get_key os id) j
          then some (record o { own_data = own })
          else lookup j p.shared_object_list)
  unfolding set_auto_release_after_use
  owned_lookup p id own j o e = grind (arith, lookup-insert)

  owning_unknown :
      (p : Process os) (id : String) (own : Bool)
      → lookup (get_key os id) p.shared_object_list ≡ none
      → (set_auto_release_after_use os id own p).1 ≡ p
  unfolding set_auto_release_after_use
  owning_unknown p id own e = ground arith

  owning_counters :
      (p : Process os) (id : String) (own : Bool)
      → (set_auto_release_after_use os id own p).1.map_counter ≡ p.map_counter
  unfolding set_auto_release_after_use
  owning_counters p id own = ground arith

  pub owning-Tracks :
      (p : Process os) (live : Mappings os) (id : String) (own : Bool)
      → Tracks os p live
      → Tracks os (set_auto_release_after_use os id own p).1 live
  owning-Tracks p live id own t =
      elim (Option-cases (lookup (get_key os id) p.shared_object_list)) [
        | inl e ↦ rw (owning_unknown p id own e) t
        | inr (o, e) ↦ record {
          counted = λ k. rw (owning_counters p id own) (t.counted k);
          held =
              AllHeld-change os p q (get_key os id) live
                (λ j h. ground (arith, owned_lookup p id own j o e))
                (λ a h.
                  ground
                    (arith, owned_lookup p id own (get_key os id) o e, eq_refl (get_key os id)))
                t.held;
          valid = λ k o' e'.
              ground (arith, owned_lookup p id own k o e, t.valid k o', t.valid (get_key os id) o);
        }
      ]
    where
      q : Process os
      q = (set_auto_release_after_use os id own p).1

  step-Tracks :
      (p : Process os) (live : Mappings os) (c : Call)
      → Tracks os p live
      → Tracks os (step (p, live) c).0 (step (p, live) c).1
  unfolding step map_shared_memory unmap_shared_memory has_shared_memory
  step-Tracks p live (mapping id) t = map-Tracks os (get_key os id) p live t
  step-Tracks p live (unmapping id) t = elim (Bool-cases (ltb 0 (count os (get_key os id) live))) [
    | inl holds ↦ rw holds (unmap-Tracks os (get_key os id) p live t (ground arith))
    | inr nothing ↦ rw nothing t
  ]
  step-Tracks p live (measuring id) t = measuring-Tracks p live id t
  step-Tracks p live (probing id) t = same_Tracks p (has_shared_memory os id p).1 live refl refl t
  step-Tracks p live (allocating size id) t = allocating-Tracks p live size id t
  step-Tracks p live (owning id own) t = owning-Tracks p live id own t

  -- A process that has just begun has nothing mapped.
  pub start-Tracks : (w : os.World) → Tracks os (start w) []
  start-Tracks w = record {
    counted = λ k. rw lookup-empty;
    held = tt;
    valid = λ k o e. cc (lookup-empty {V = SharedObjectClass os} k);
  }

  -- Every sequence of calls that map, allocate, measure, probe, set the ownership, and unmap what
  -- is mapped, whatever fails in it, keeps the counters equal to the numbers of mappings that the
  -- callers hold, every held pointer the address of a region that is still mapped, and every object
  -- valid.
  pub run-Tracks :
      (p : Process os) (live : Mappings os) (calls : List Call)
      → Tracks os p live
      → Tracks os (run (p, live) calls).0 (run (p, live) calls).1
  unfolding run
  run-Tracks p live [] t = t
  run-Tracks p live (c ∷ calls) t =
      run-Tracks (step (p, live) c).0 (step (p, live) c).1 calls (step-Tracks p live c t)
