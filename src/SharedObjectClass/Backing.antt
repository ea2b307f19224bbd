-- ===== src/SharedObjectClass/Backing.antt =====
-- Which memory the handle and the pointer of an object belong to.
use shared_object.Prelude.{
  ℕ, ◌≤◌, String, ◌≡◌, ◌∙◌, true, none, some, arith, ok, Option-cases, inl, inr,
}
use shared_object.Os.{Os, Posix, Sharing}
use shared_object.SharedObjectClass.{
  Frame, validate_shared_memory, store_handle, refresh_size, open_shared_memory_handle,
}
use shared_object.SharedObjectClass.Methods.{
  allocate_shared_memory, map_shared_memory, truncate_and_validate, undo_allocation, open_if_needed,
  create_region, undo_mapping,
}
use shared_object.SharedObjectClass.Effects.{
  created, truncate_and_validate-size, truncate_and_validate-this,
}

module _ (os : Os) (sh : Sharing os) where
  -- The object has its handle open on what is named by its key, of that many bytes at least, and
  -- nothing is mapped.
  pub record IsOpen (n : ℕ) (f : Frame os) : Type 0 where
    pub handle : os.Handle
    pub held : f.this.shared_memory_handle ≡ some handle
    pub opened : sh.opens handle f.this.key f.world ≡ true
    pub large : n ≤ os.get_size handle f.world
    pub unmapped : f.this.mapped_region_handle ≡ none
    pub no_pointer : f.this.shared_ptr ≡ none

  opens-validate :
      (h : os.Handle) (k : String) (w : os.World)
      → sh.opens h k (validate_shared_memory os h w).1 ≡ sh.opens h k w
  unfolding validate_shared_memory
  opens-validate h k w = grind (arith, sh.opens-fill_zero, sh.opens-free_region, sh.region_opens)

  opens-truncate_and_validate :
      (f : Frame os) (h : os.Handle) (k : String)
      → f.this.shared_memory_handle ≡ some h
      → (truncate_and_validate os f).0 ≡ ok tt
      → sh.opens h k (truncate_and_validate os f).1.world ≡ sh.opens h k f.world
  unfolding truncate_and_validate
  opens-truncate_and_validate f h k e r = grind (arith, sh.truncate_opens, opens-validate)

  -- The memory of an object that is not mapped yet is mapped at the pointer that it gets.
  pub map-backs :
      (n : ℕ) (f : Frame os) (a : os.Address)
      → IsOpen n f
      → (map_shared_memory os f).0 ≡ ok a
      → sh.backs f.this.key a n (map_shared_memory os f).1.world ≡ true
  unfolding map_shared_memory open_if_needed create_region undo_mapping
  map-backs n f a o e = grind (arith, sh.region_backs)

  -- What a successful mapping of an object with neither a handle nor a region did.
  opened_and_mapped :
      (f : Frame os) (a : os.Address)
      → f.this.shared_memory_handle ≡ none
      → f.this.mapped_region_handle ≡ none
      → f.this.shared_ptr ≡ none
      → (map_shared_memory os f).0 ≡ ok a
      → (opened : os.Handle × os.World) × (mapped : os.Region × os.World) × (os.open_only f.this.key
            f.world
          ≡ some opened)
        × (os.new_region opened.0 opened.1 ≡ some mapped)
        × (os.get_address mapped.0 ≡ a)
        × ((map_shared_memory os f).1.world ≡ mapped.1)
  unfolding map_shared_memory open_if_needed create_region undo_mapping open_shared_memory_handle
      refresh_size store_handle
  opened_and_mapped f a eh er ep e = elim (Option-cases (os.open_only f.this.key f.world)) [
    | inl no_name ↦ absurd (ground arith)
    | inr (opened, o) ↦ elim (Option-cases (os.new_region opened.0 opened.1)) [
      | inl refused ↦ absurd (ground arith)
      | inr (mapped, m) ↦ (opened, mapped, o, m, ground arith, ground arith)
    ]
  ]

  -- An object with neither a handle nor a region is opened first, and then shows the memory that
  -- others have mapped under its key.
  pub open-backs :
      (n : ℕ) (f : Frame os) (a b : os.Address)
      → f.this.shared_memory_handle ≡ none
      → f.this.mapped_region_handle ≡ none
      → f.this.shared_ptr ≡ none
      → sh.backs f.this.key b n f.world ≡ true
      → (map_shared_memory os f).0 ≡ ok a
      → (sh.backs f.this.key a n (map_shared_memory os f).1.world ≡ true)
        × (sh.backs f.this.key b n (map_shared_memory os f).1.world ≡ true)
        × (os.read_memory b n (map_shared_memory os f).1.world ≡ os.read_memory b n f.world)
  open-backs n f a b eh er ep held e =
      let (opened, mapped, o, m, at, last) = opened_and_mapped f a eh er ep e in
      let key = f.this.key in
      let (kept, same) = sh.open_backs key f.world key b n opened o held in
      let (kept', same') = sh.map_backs opened.0 opened.1 key b n mapped m kept in
      let open_now = sh.open_opens key f.world opened o in
      let shown =
        sh.region_backs opened.0 opened.1 key n mapped m open_now
          (sh.backs_size opened.0 opened.1 key b n open_now kept) in
      rw (last, ← at) (shown, kept', same' ∙ same)

module _ (os : Os) (px : Posix os) (sh : Sharing os) where
  finish-IsOpen :
      (n : ℕ) (f : Frame os) (made : os.Handle × os.World)
      → f.this.shared_memory_handle ≡ none
      → f.this.mapped_region_handle ≡ none
      → f.this.shared_ptr ≡ none
      → n ≤ f.this.size
      → os.create_only f.this.key f.world ≡ some made
      → (allocate_shared_memory os f).0 ≡ ok tt
      → ((allocate_shared_memory os f).1.this.shared_memory_handle ≡ some made.0)
        × (sh.opens made.0 f.this.key (allocate_shared_memory os f).1.world ≡ true)
        × (n ≤ os.get_size made.0 (allocate_shared_memory os f).1.world)
        × ((allocate_shared_memory os f).1.this.key ≡ f.this.key)
        × ((allocate_shared_memory os f).1.this.mapped_region_handle ≡ none)
        × ((allocate_shared_memory os f).1.this.shared_ptr ≡ none)
  unfolding allocate_shared_memory undo_allocation store_handle refresh_size
  finish-IsOpen n f made eh er ep le c e = ground (
    arith,
    sh.create_opens f.this.key f.world made,
    opens-truncate_and_validate os sh (created os px f made) made.0 f.this.key,
    truncate_and_validate-this os px (created os px f made),
    truncate_and_validate-size os px (created os px f made) made.0,
  )

  allocate_needs_name :
      (f : Frame os)
      → f.this.shared_memory_handle ≡ none
      → (allocate_shared_memory os f).0 ≡ ok tt
      → (made : os.Handle × os.World) × (os.create_only f.this.key f.world ≡ some made)
  unfolding allocate_shared_memory undo_allocation store_handle refresh_size
  allocate_needs_name f eh e = elim (Option-cases (os.create_only f.this.key f.world)) [
    | inl refused ↦ absurd (ground arith)
    | inr (made, c) ↦ (made, c)
  ]

  -- A successful allocation leaves the object open on its memory.
  pub allocate-IsOpen :
      (n : ℕ) (f : Frame os)
      → f.this.shared_memory_handle ≡ none
      → f.this.mapped_region_handle ≡ none
      → f.this.shared_ptr ≡ none
      → n ≤ f.this.size
      → (allocate_shared_memory os f).0 ≡ ok tt
      → IsOpen os sh n (allocate_shared_memory os f).1
        × ((allocate_shared_memory os f).1.this.key ≡ f.this.key)
  allocate-IsOpen n f eh er ep le e =
      let (made, c) = allocate_needs_name f eh e in
      let (held, opened, large, same, region, pointer) = finish-IsOpen n f made eh er ep le c e in
      (
        record {
          handle = made.0;
          held = held;
          opened = rw same opened;
          large = large;
          unmapped = region;
          no_pointer = pointer;
        },
        same,
      )
