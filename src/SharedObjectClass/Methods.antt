-- ===== src/SharedObjectClass/Methods.antt =====
-- The methods of src/sharedObjectClass.cpp that create, open, map and free.
use shared_object.Prelude.{
  ℕ, String, Bool, true, false, Option, none, some, ltb, if◌then◌else◌, Error, os_exception,
  get_size_failed, allocate_failed, map_failed, null_dereference, ok, threw, aborted, Exec,
  throw_error, modify, try_catch, ◌>>◌,
}
use shared_object.Os.{Os}
use shared_object.SharedObjectClass.{
  Frame, on_world, validate_shared_memory, has_shared_memory_handle, has_mapped_region_handle,
  free_shared_memory_handle, free_mapped_region_handle, store_handle, refresh_size,
  open_shared_memory_handle,
}

module _ (os : Os) where
  -- static bool hasSharedMemory: the probe is opened and closed again.
  unfoldable pub has_shared_memory : String → os.World → Bool × os.World
  has_shared_memory key w = elim (os.open_only key w) [
    | none ↦ (false, w)
    | some (h, w') ↦ (true, os.close h w')
  ]

  -- static void freeSharedMemory
  unfoldable pub free_name : String → os.World → os.World
  free_name key w = os.remove key w

  probe_size : Option (os.Handle × os.World) → Exec (Frame os) ℕ
  probe_size none f = (threw os_exception, f)
  probe_size (some (h, w)) f = (ok (os.get_size h w), record f { world = os.close h w })

  -- the private getSharedMemorySize
  unfoldable pub get_shared_memory_size : Exec (Frame os) ℕ
  unfolding probe_size
  get_shared_memory_size f = elim f.this.shared_memory_handle [
    | some h ↦ (ok (os.get_size h f.world), f)
    | none ↦
        try_catch (λ g. probe_size (os.open_only g.this.key g.world) g)
          (λ e. throw_error (get_size_failed e)) f
  ]

  -- truncate(size > 0 ? size : 1), then the check of the memory
  unfoldable pub truncate_and_validate : Exec (Frame os) (Unit {0})
  truncate_and_validate f = elim f.this.shared_memory_handle [
    | none ↦ (aborted null_dereference, f)
    | some h ↦ elim (os.truncate h (if ltb 0 f.this.size then f.this.size else 1) f.world) [
      | none ↦ (threw os_exception, f)
      | some w ↦ on_world os (validate_shared_memory os h) (record f { world = w })
    ]
  ]

  -- The handler of allocateSharedMemory: only what this call created is removed.
  unfoldable pub undo_allocation : Error → Exec (Frame os) (Unit {0})
  unfolding free_name free_shared_memory_handle
  undo_allocation e f =
      let undone =
        free_shared_memory_handle os (record f { world = free_name f.this.key f.world }) in
      (threw (allocate_failed e), if has_shared_memory_handle os f.this then undone else f)

  unfoldable pub allocate_shared_memory : Exec (Frame os) (Unit {0})
  allocate_shared_memory f =
      if has_shared_memory_handle os f.this
      then (ok tt, f)
      else (do
        try_catch
            (do (λ g. store_handle os (os.create_only g.this.key g.world) g); truncate_and_validate)
            undo_allocation
        modify (refresh_size os))
          f

  unfoldable pub open_if_needed : Exec (Frame os) (Unit {0})
  unfolding open_shared_memory_handle
  open_if_needed f =
      if has_shared_memory_handle os f.this then (ok tt, f) else open_shared_memory_handle os f

  store_region : Option (os.Region × os.World) → Exec (Frame os) os.Address
  store_region none f = (threw os_exception, f)
  store_region (some (r, w)) f = (
    ok (os.get_address r),
    record {
      this = record f.this { mapped_region_handle = some r; shared_ptr = some (os.get_address r) };
      world = w;
    },
  )

  -- mappedRegionHandle = new mapped_region(*sharedMemoryHandle, read_write)
  unfoldable pub create_region : Exec (Frame os) os.Address
  unfolding store_region
  create_region f = elim f.this.shared_memory_handle [
    | none ↦ (aborted null_dereference, f)
    | some h ↦ store_region (os.new_region h f.world) f
  ]

  unfoldable pub undo_mapping : Error → Exec (Frame os) os.Address
  unfolding free_mapped_region_handle
  undo_mapping e f = (threw (map_failed e), free_mapped_region_handle os f)

  unfoldable pub map_shared_memory : Exec (Frame os) os.Address
  map_shared_memory f = elim f.this.shared_ptr [
    | some p ↦ (ok p, f)
    | none ↦ elim f.this.mapped_region_handle [
      | some r ↦ (
        ok (os.get_address r),
        record f { this = record f.this { shared_ptr = some (os.get_address r) } },
      )
      | none ↦ try_catch (do open_if_needed; create_region) undo_mapping f
    ]
  ]

  unfoldable pub unmap_shared_memory : Frame os → Frame os
  unfolding free_mapped_region_handle
  unmap_shared_memory f = free_mapped_region_handle os f

  -- the member freeSharedMemory
  unfoldable pub free_shared_memory : Frame os → Frame os
  unfolding free_mapped_region_handle free_shared_memory_handle free_name
  free_shared_memory f =
      let g = if has_mapped_region_handle os f.this then free_mapped_region_handle os f else f in
      let h = free_shared_memory_handle os g in
      if h.this.own_data then record h { world = free_name h.this.key h.world } else h

  -- ~SharedObjectClass: the object is gone, the world stays.
  unfoldable pub destroy : Frame os → os.World
  unfolding free_shared_memory
  destroy f = (free_shared_memory f).world

  unfoldable pub flush : Frame os → Frame os
  flush f = elim f.this.mapped_region_handle [
    | none ↦ f
    | some r ↦ record f { world = os.flush r f.world }
  ]
