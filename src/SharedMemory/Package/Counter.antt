-- ===== src/SharedMemory/Package/Counter.antt =====
-- What initialPkgData leaves behind: the counter's memory is mapped once, or lastId is null.
use shared_object.Prelude.{
  String, ◌≡◌, refl, Bool, true, false, none, some, ◌∷◌, arith, Result, ok, threw, aborted, Exec,
  if◌then◌else◌, os_exception, handled, throw_error, initial_failed, Option-cases, after_result,
  modify, pure, ◌>>=◌, ◌>>◌, inl, inr,
}
use shared_object.Os.{Os}
use shared_object.SharedObjectClass.Methods.{has_shared_memory}
use shared_object.SharedMemory.{
  Process, map_shared_memory_internal, allocate_shared_memory_internal,
}
use shared_object.SharedMemory.Keys.{shared_object_counter}
use shared_object.SharedMemory.Package.{
  leave_block, AutoSemophore, new_auto_semophore, lock, probe_counter, write_zero, create_counter,
  open_counter, locked_open, initial_pkg_data,
}
use shared_object.SharedMemory.RefCount.Mappings.{Mappings, Tracks}
use shared_object.SharedMemory.RefCount.Mapping.{after_map, map-Tracks}
use shared_object.SharedMemory.RefCount.Allocating.{allocate-Tracks}
use shared_object.SharedMemory.RefCount.Invariant.{same_Tracks}

module _ (os : Os) where
  abbrev key : String
  key = shared_object_counter

  -- The counter's mapping is held after a result that gives its address.
  abbrev Mapped : Result os.Address → Process os → Mappings os → Type 0
  Mapped r q live = Tracks os q (after_map os key r live)

  -- lastId and the mappings of the callers, by how the call ends.
  abbrev pub Initialised : Mappings os → Result (Unit {0}) → Process os → Type 0
  Initialised live (ok _) q =
      (a : os.Address) × (q.last_id ≡ some a) × Tracks os q ((key, a) ∷ live)
  Initialised live (threw e) q = (q.last_id ≡ none) × Tracks os q live
  Initialised live (aborted x) q = Tracks os q live

  -- The same after the part that runs under the lock, before the handler.
  abbrev Opened : Mappings os → Result (Unit {0}) → Process os → Type 0
  Opened live (ok _) q = (a : os.Address) × (q.last_id ≡ some a) × Tracks os q ((key, a) ∷ live)
  Opened live (threw e) q = Tracks os q live
  Opened live (aborted x) q = Tracks os q live

  abbrev map_and_write : Exec (Process os) os.Address
  map_and_write = do ptr ← map_shared_memory_internal os key; modify (write_zero os ptr); pure ptr

  written :
      (live : Mappings os) (r : Result os.Address) (q : Process os)
      → Tracks os q (after_map os key r live)
      → let done : Result os.Address × Process os =
          after_result r (λ ptr. modify (write_zero os ptr) >> pure ptr) q in
        Mapped done.0 done.1 live
  unfolding write_zero
  written live (ok a) q t = same_Tracks os q (write_zero os a q) ((key, a) ∷ live) refl refl t
  written live (threw e) q t = t
  written live (aborted x) q t = t

  map_and_write-Mapped :
      (p : Process os) (live : Mappings os)
      → Tracks os p live
      → Mapped (map_and_write p).0 (map_and_write p).1 live
  map_and_write-Mapped p live t =
      written live (map_shared_memory_internal os key p).0 (map_shared_memory_internal os key p).1
        (map-Tracks os key p live t)

  after_allocation :
      (live : Mappings os) (r : Result (Unit {0})) (q : Process os)
      → Tracks os q live
      → let done : Result os.Address × Process os = after_result r (λ _. map_and_write) q in
        Mapped done.0 done.1 live
  after_allocation live (ok _) q t = map_and_write-Mapped q live t
  after_allocation live (threw e) q t = t
  after_allocation live (aborted x) q t = t

  create-Mapped :
      (p : Process os) (live : Mappings os)
      → Tracks os p live
      → Mapped (create_counter os p).0 (create_counter os p).1 live
  unfolding create_counter
  create-Mapped p live t =
      after_allocation live (allocate_shared_memory_internal os key 8 p).0
        (allocate_shared_memory_internal os key 8 p).1 (allocate-Tracks os key 8 p live t)

  stored :
      (live : Mappings os) (r : Result os.Address) (q : Process os)
      → Mapped r q live
      → let done : Result (Unit {0}) × Process os =
          after_result r (λ ptr. modify (λ p. record p { last_id = some ptr })) q in
        Opened live done.0 done.1
  stored live (ok a) q t =
      (a, refl, same_Tracks os q (record q { last_id = some a }) ((key, a) ∷ live) refl refl t)
  stored live (threw e) q t = t
  stored live (aborted x) q t = t

  -- after the probe
  abbrev probed : Process os → Process os
  probed p = record p { world = (has_shared_memory os key p.world).1 }

  choice-Mapped :
      (p : Process os) (live : Mappings os) (found : Bool)
      → Tracks os p live
      → let done : Result os.Address × Process os =
          (if found then map_shared_memory_internal os key else create_counter os) (probed p) in
        Mapped done.0 done.1 live
  choice-Mapped p live true t =
      map-Tracks os key (probed p) live (same_Tracks os p (probed p) live refl refl t)
  choice-Mapped p live false t =
      create-Mapped (probed p) live (same_Tracks os p (probed p) live refl refl t)

  open-Opened :
      (p : Process os) (live : Mappings os)
      → Tracks os p live
      → Opened live (open_counter os p).0 (open_counter os p).1
  unfolding open_counter probe_counter
  open-Opened p live t =
      let found = (has_shared_memory os key p.world).0 in
      let (r, q) =
        (if found then map_shared_memory_internal os key else create_counter os) (probed p) in
      stored live r q (choice-Mapped p live found t)

  left-Opened :
      (sem : AutoSemophore os) (live : Mappings os) (r : Result (Unit {0})) (q : Process os)
      → Opened live r q
      → Opened live r (leave_block os sem r q)
  unfolding leave_block
  left-Opened sem live (ok _) q (a, e, t) =
      (a, e, same_Tracks os q (leave_block os sem (ok tt) q) ((key, a) ∷ live) refl refl t)
  left-Opened sem live (threw x) q t =
      same_Tracks os q (leave_block os sem (threw x) q) live refl refl t
  left-Opened sem live (aborted x) q t = t

  -- the block, begun with the lock held
  begun : Process os → AutoSemophore os × os.World → Process os
  begun p made = record p { world = (lock os made.0 made.1).1 }

  locked_none :
      (p : Process os)
      → new_auto_semophore os p.world ≡ none
      → locked_open os p ≡ (threw os_exception, p)
  unfolding locked_open
  locked_none p e = ground arith

  locked_some :
      (p : Process os) (made : AutoSemophore os × os.World)
      → new_auto_semophore os p.world ≡ some made
      → locked_open os p ≡ (
        (open_counter os (begun p made)).0,
        leave_block os
            (lock os made.0 made.1).0
            (open_counter os (begun p made)).0
            (open_counter os (begun p made)).1,
      )
  unfolding locked_open begun
  locked_some p made e = ground arith

  locked-Opened :
      (p : Process os) (live : Mappings os)
      → Tracks os p live
      → Opened live (locked_open os p).0 (locked_open os p).1
  unfolding begun
  locked-Opened p live t = elim (Option-cases (new_auto_semophore os p.world)) [
    | inl e ↦ rw (locked_none p e) t
    | inr (made, e) ↦
        let (r, q) = open_counter os (begun p made) in
        rw (locked_some p made e) (
          left-Opened (lock os made.0 made.1).0 live r q
            (open-Opened (begun p made) live (same_Tracks os p (begun p made) live refl refl t)))
  ]

  handled-Initialised :
      (live : Mappings os) (r : Result (Unit {0})) (q : Process os)
      → Opened live r q
      → let done : Result (Unit {0}) × Process os =
          handled r
            (λ e. do modify (λ s. record s { last_id = none }); throw_error (initial_failed e))
            q in
        Initialised live done.0 done.1
  handled-Initialised live (ok _) q opened = opened
  handled-Initialised live (threw e) q t =
      (refl, same_Tracks os q (record q { last_id = none }) live refl refl t)
  handled-Initialised live (aborted x) q t = t

  initial_none :
      (p : Process os)
      → p.last_id ≡ none
      → initial_pkg_data os p
        ≡ handled
            (locked_open os p).0
            (λ e. do modify (λ s. record s { last_id = none }); throw_error (initial_failed e))
            (locked_open os p).1
  unfolding initial_pkg_data
  initial_none p e = rw e refl

  -- Initialising a process without a counter maps the counter's memory once and stores its address,
  -- or throws and leaves lastId null; where the memory test faults, or it throws, no mapping is added.
  -- The counters still track the callers' mappings, and every object is valid.
  pub initial_pkg_data-Initialised :
      (p : Process os) (live : Mappings os)
      → Tracks os p live
      → p.last_id ≡ none
      → Initialised live (initial_pkg_data os p).0 (initial_pkg_data os p).1
  initial_pkg_data-Initialised p live t e =
      rw (initial_none p e) (
        handled-Initialised live (locked_open os p).0 (locked_open os p).1 (locked-Opened p live t))
