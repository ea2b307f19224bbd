-- ===== src/SharedMemory/Package.antt =====
-- The package's own data in src/sharedMemory.cpp: the lock around its creation (`auto_semophore`),
-- `initialPkgData`, `releasePkgData` and `getLastIndex`.
pub mod Counter
pub mod Lock
pub mod Ordinary
pub mod Exclusion
pub mod Handover
use shared_object.Prelude.{
  ℕ, Bool, false, Option, none, some, if◌then◌else◌, os_exception, initial_failed, null_dereference,
  Result, ok, threw, aborted, Exec, pure, throw_error, modify, try_catch, ◌>>=◌, ◌>>◌,
}
use shared_object.Os.{Os}
use shared_object.SharedObjectClass.Methods.{has_shared_memory}
use shared_object.SharedMemory.{
  Process, allocate_shared_memory_internal, map_shared_memory_internal, free_shared_memory_internal,
}
use shared_object.SharedMemory.Keys.{shared_object_counter, semaphore_name}

-- class auto_semophore: `locked` is never set after its initialisation.
pub record AutoSemophore (os : Os) : Type 0 where
  pub semaphore : os.Semaphore
  pub locked : Bool

module _ (os : Os) where
  -- auto_semophore()
  unfoldable pub new_auto_semophore : os.World → Option (AutoSemophore os × os.World)
  new_auto_semophore w = elim (os.new_semaphore semaphore_name 1 w) [
    | none ↦ none
    | some (sem, w') ↦ some (record { semaphore = sem; locked = false }, w')
  ]

  -- lock(): a wait that times out gives a warning, and the caller goes on.
  unfoldable pub lock : AutoSemophore os → os.World → AutoSemophore os × os.World
  lock a w = (a, (os.timed_wait a.semaphore w).1)

  -- ~auto_semophore()
  unfoldable pub unlock : AutoSemophore os → os.World → os.World
  unlock a w =
      let w' = if a.locked then os.post a.semaphore w else w in
      os.remove_semaphore semaphore_name (os.delete_semaphore a.semaphore w')

  -- static_cast of the probe's answer; the world is that after the probe.
  unfoldable pub probe_counter : Exec (Process os) Bool
  probe_counter p =
      let (found, w) = has_shared_memory os shared_object_counter p.world in
      (ok found, record p { world = w })

  -- new (ptr) std::atomic_uint64_type(0)
  unfoldable pub write_zero : os.Address → Process os → Process os
  write_zero ptr p = record p { world = os.store_64 ptr 0 p.world }

  unfoldable pub create_counter : Exec (Process os) os.Address
  unfolding write_zero
  create_counter = do
    allocate_shared_memory_internal os shared_object_counter 8
    ptr ← map_shared_memory_internal os shared_object_counter
    modify (write_zero ptr)
    pure ptr

  unfoldable pub open_counter : Exec (Process os) (Unit {0})
  unfolding probe_counter create_counter
  open_counter = do
    found ← probe_counter
    ptr ← if found then map_shared_memory_internal os shared_object_counter else create_counter
    modify (λ p. record p { last_id = some ptr })

  -- The destructor runs on every way out but a long jump.
  unfoldable pub leave_block : AutoSemophore os → Result (Unit {0}) → Process os → Process os
  leave_block sem (ok _) q = record q { world = unlock sem q.world }
  leave_block sem (threw e) q = record q { world = unlock sem q.world }
  leave_block sem (aborted x) q = q

  -- The block under the lock
  unfoldable pub locked_open : Exec (Process os) (Unit {0})
  unfolding leave_block
  locked_open p = elim (new_auto_semophore p.world) [
    | none ↦ (threw os_exception, p)
    | some (sem, w) ↦
        let (held, w') = lock sem w in
        let (r, q) = open_counter (record p { world = w' }) in (r, leave_block held r q)
  ]

  unfoldable pub initial_pkg_data : Exec (Process os) (Unit {0})
  unfolding locked_open
  initial_pkg_data p = elim p.last_id [
    | some ptr ↦ (ok tt, p)
    | none ↦
        try_catch locked_open
          (λ e. do modify (λ q. record q { last_id = none }); throw_error (initial_failed e)) p
  ]

  unfoldable pub release_pkg_data : Process os → Process os
  release_pkg_data p = record (free_shared_memory_internal os shared_object_counter p) {
    last_id = none;
  }

  -- *lastId
  read_last_id : Exec (Process os) ℕ
  read_last_id p = elim p.last_id [
    | none ↦ (aborted null_dereference, p)
    | some ptr ↦ (ok (os.load_64 ptr p.world), p)
  ]

  unfoldable pub get_last_index : Exec (Process os) ℕ
  unfolding read_last_id
  get_last_index = do initial_pkg_data; read_last_id
