-- ===== src/SharedMemory/Processes.antt =====
-- The public functions of src/sharedMemory.h as calls, but for those that only read the process and
-- for initialPkgData and releasePkgData, and any number of processes that make them, one call at a
-- time, on one operating system.
pub mod Keyed
pub mod Names
pub mod Ids
use shared_object.Prelude.{ℕ, String, Bool, false, List, [], ◌∷◌, ◌==◌, ◌||◌, str_eq, if◌then◌else◌}
use shared_object.Os.{Os}
use shared_object.SharedMemory.{Process}
use shared_object.SharedMemory.Keys.{get_key}
use shared_object.SharedMemory.Public.{
  has_shared_memory, allocate_shared_memory, map_shared_memory, unmap_shared_memory,
  free_shared_memory, get_shared_memory_size, set_auto_release_after_use, get_shared_object_list,
}

pub data PublicCall : Type 0 where
  allocating : ℕ → String → PublicCall
  mapping unmapping freeing measuring probing : String → PublicCall
  owning : String → Bool → PublicCall
  listing : PublicCall

-- A call that may take the name of an id away.
abbrev pub ends : String → PublicCall → Bool
ends id (unmapping j) = str_eq j id
ends id (freeing j) = str_eq j id
ends id _ = false

module _ (os : Os) where
  unfoldable pub perform : PublicCall → Process os → Process os
  perform (allocating size id) p = (allocate_shared_memory os size id p).1
  perform (mapping id) p = (map_shared_memory os id p).1
  perform (unmapping id) p = unmap_shared_memory os id p
  perform (freeing id) p = free_shared_memory os id p
  perform (measuring id) p = (get_shared_memory_size os id p).1
  perform (probing id) p = (has_shared_memory os id p).1
  perform (owning id release) p = (set_auto_release_after_use os id release p).1
  perform listing p = (get_shared_object_list os p).1

  -- What each process has of its own, and what they share. The worlds in `own` are not used.
  pub record Host : Type 0 where
    pub own : ℕ → Process os
    pub world : os.World

  abbrev pub process : ℕ → Host → Process os
  process i m = record (m.own i) { world = m.world }

  -- Process `i` goes on as `q`.
  abbrev pub continued : ℕ → Process os → Host → Host
  continued i q m = record { own = λ k. if k == i then q else m.own k; world = q.world }

  unfoldable pub turn : ℕ × PublicCall → Host → Host
  turn (i, c) m = continued i (perform c (process i m)) m

  unfoldable pub turns : List (ℕ × PublicCall) → Host → Host
  turns [] m = m
  turns (t ∷ ts) m = turns ts (turn t m)
