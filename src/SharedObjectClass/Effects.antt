-- ===== src/SharedObjectClass/Effects.antt =====
-- What the methods of one object do to the names of the operating system.
use shared_object.Prelude.{
  ◌≤◌, String, ◌≡◌, true, false, none, some, arith, Error, Result, ok, threw, aborted, Exec,
  try_catch, handled, after_result, ◌>>=◌, ◌>>◌, ◌∙◌, str_eq, eq_iff, if◌then◌else◌, Option-cases,
  inl, inr,
}
use shared_object.Os.{Os, Posix}
use shared_object.SharedObjectClass.{
  Frame, validate_shared_memory, store_handle, refresh_size, open_shared_memory_handle,
}
use shared_object.SharedObjectClass.Methods.{
  has_shared_memory, allocate_shared_memory, map_shared_memory, destroy, truncate_and_validate,
  undo_allocation, open_if_needed, create_region, undo_mapping,
}

module _ (os : Os) (px : Posix os) where
  -- The probe of hasSharedMemory leaves every name as it is, and finds only names that are there.
  pub has_shared_memory_named :
      (key : String) (w : os.World) (j : String)
      → ((has_shared_memory os key w).0 ≡ true → px.named key w ≡ true)
        × (px.named j (has_shared_memory os key w).1 ≡ px.named j w)
  unfolding has_shared_memory
  has_shared_memory_named key w j = grind (arith, px.open_named, px.open_keeps, px.named-close)

  -- An action that changes no name, on whatever path.
  record Keeps {A : Type 0} (m : Exec (Frame os) A) : Type 0 where
    pub at : (f : Frame os) (j : String) → px.named j (m f).1.world ≡ px.named j f.world

  Keeps-bind :
      {A B : Type 0} (m : Exec (Frame os) A) (k : A → Exec (Frame os) B)
      → Keeps m
      → ((a : A) → Keeps (k a))
      → Keeps (m >>= k)
  Keeps-bind {A} m k hm hk = record { at = λ f j. go f j (m f).0 }
    where
      go :
          (f : Frame os) (j : String) (r : Result A)
          → px.named j (after_result r k (m f).1).1.world ≡ px.named j f.world
      go f j (ok a) = (hk a).at (m f).1 j ∙ hm.at f j
      go f j (threw e) = hm.at f j
      go f j (aborted x) = hm.at f j

  Keeps-try :
      {A : Type 0} (m : Exec (Frame os) A) (h : Error → Exec (Frame os) A)
      → Keeps m
      → ((e : Error) → Keeps (h e))
      → Keeps (try_catch m h)
  Keeps-try {A} m h hm hh = record { at = λ f j. go f j (m f).0 }
    where
      go :
          (f : Frame os) (j : String) (r : Result A)
          → px.named j (handled r h (m f).1).1.world ≡ px.named j f.world
      go f j (ok a) = hm.at f j
      go f j (threw e) = (hh e).at (m f).1 j ∙ hm.at f j
      go f j (aborted x) = hm.at f j

  open-Keeps : Keeps (open_shared_memory_handle os)
  unfolding open_shared_memory_handle
  open-Keeps = record { at = λ f j. grind (arith, px.open_keeps) }

  open_if_needed-Keeps : Keeps (open_if_needed os)
  unfolding open_if_needed
  open_if_needed-Keeps = record { at = λ f j. ground (arith, open-Keeps.at f j) }

  create_region-Keeps : Keeps (create_region os)
  unfolding create_region
  create_region-Keeps = record { at = λ f j. grind (arith, px.region_keeps) }

  undo_mapping-Keeps : (e : Error) → Keeps (undo_mapping os e)
  unfolding undo_mapping
  undo_mapping-Keeps e = record { at = λ f j. grind (arith, px.named-free_region) }

  attempt-Keeps : Keeps (try_catch (do open_if_needed os; create_region os) (undo_mapping os))
  attempt-Keeps =
      search (Keeps-try, Keeps-bind, open_if_needed-Keeps, create_region-Keeps, undo_mapping-Keeps)

  -- mapSharedMemory changes no name, whether it succeeds or throws.
  pub named-map :
      (f : Frame os) (j : String) → px.named j (map_shared_memory os f).1.world ≡ px.named j f.world
  unfolding map_shared_memory
  named-map f j = ground (arith, attempt-Keeps.at f j)

  -- After the destructor an owned name is gone, and no other name has changed.
  pub named-destroy :
      (f : Frame os) (j : String)
      → px.named j (destroy os f) ≡ (
          if f.this.own_data
          then (if str_eq f.this.key j then false else px.named j f.world)
          else px.named j f.world)
  unfolding destroy
  named-destroy f j = grind (arith, px.named-remove, px.named-close, px.named-free_region)

  validate-Keeps :
      (h : os.Handle) (w : os.World) (j : String)
      → px.named j (validate_shared_memory os h w).1 ≡ px.named j w
  unfolding validate_shared_memory
  validate-Keeps h w j = grind (arith, px.region_keeps, px.named-free_region, px.named-fill_zero)

  truncate_and_validate-Keeps : Keeps (truncate_and_validate os)
  unfolding truncate_and_validate
  truncate_and_validate-Keeps = record {
    at = λ f j. grind (arith, px.truncate_keeps, validate-Keeps);
  }

  pub truncate_and_validate-this : (f : Frame os) → (truncate_and_validate os f).1.this ≡ f.this
  unfolding truncate_and_validate
  truncate_and_validate-this f = ground arith

  validate-size :
      (h : os.Handle) (w : os.World)
      → os.get_size h (validate_shared_memory os h w).1 ≡ os.get_size h w
  unfolding validate_shared_memory
  validate-size h w = grind (arith, px.region_size, px.get_size-free_region, px.get_size-fill_zero)

  pub truncate_and_validate-size :
      (f : Frame os) (h : os.Handle)
      → f.this.shared_memory_handle ≡ some h
      → (truncate_and_validate os f).0 ≡ ok tt
      → (f.this.size ≤ os.get_size h (truncate_and_validate os f).1.world)
        × (1 ≤ os.get_size h (truncate_and_validate os f).1.world)
  unfolding truncate_and_validate
  truncate_and_validate-size f h e r = grind (arith, px.truncate_size, validate-size)

  -- What allocateSharedMemory promises of an object with no handle, for each way to leave it: `j` is
  -- any name.
  abbrev pub Allocated : Frame os → String → Result (Unit {0}) → Frame os → Type 0
  Allocated f j (ok _) g =
      (px.named f.this.key f.world ≡ false)
      × (f.this.size ≤ g.this.size)
      × (1 ≤ g.this.size)
      × (px.named j g.world ≡ (if str_eq f.this.key j then true else px.named j f.world))
  Allocated f j (threw e) g = (g.this ≡ f.this) × (px.named j g.world ≡ px.named j f.world)
  Allocated f j (aborted x) g =
      (px.named f.this.key f.world ≡ false)
      × (px.named j g.world ≡ (if str_eq f.this.key j then true else px.named j f.world))

  -- the object once its name is created
  abbrev pub created : Frame os → os.Handle × os.World → Frame os
  created f made = record {
    this = record f.this { shared_memory_handle = some made.0 };
    world = made.1;
  }

  finish_Allocated :
      (f : Frame os) (j : String) (made : os.Handle × os.World)
      → f.this.shared_memory_handle ≡ none
      → os.create_only f.this.key f.world ≡ some made
      → Allocated f j (allocate_shared_memory os f).0 (allocate_shared_memory os f).1
  unfolding allocate_shared_memory undo_allocation store_handle refresh_size
  finish_Allocated f j made none_open e = ground (
    arith,
    px.create_fresh f.this.key f.world made,
    px.create_names f.this.key f.world j made,
    truncate_and_validate-Keeps.at (created f made) j,
    truncate_and_validate-this (created f made),
    truncate_and_validate-size (created f made) made.0,
    px.named-remove f.this.key (truncate_and_validate os (created f made)).1.world j,
    px.named-close made.0 (os.remove f.this.key (truncate_and_validate os (created f made)).1.world)
        j,
    eq_iff f.this.key j,
  )

  -- allocateSharedMemory on an object with no handle: it succeeds only where the name was free, with
  -- at least the requested bytes and the name taken; where it throws, the object and every name are
  -- as before; where the memory test faults, the name was free and stays behind.
  pub allocate_Allocated :
      (f : Frame os) (j : String)
      → f.this.shared_memory_handle ≡ none
      → Allocated f j (allocate_shared_memory os f).0 (allocate_shared_memory os f).1
  allocate_Allocated f j none_open = elim (Option-cases (os.create_only f.this.key f.world)) [
    | inl e ↦
        unfold allocate_shared_memory undo_allocation store_handle refresh_size in ground arith
    | inr (made, e) ↦ finish_Allocated f j made none_open e
  ]
