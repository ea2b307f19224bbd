-- ===== src/Interface/RawMemory.antt =====
-- Memory that R allocates and maps through src/C_interface.cpp, in two processes.
use shared_object.Prelude.{ℕ, String, ◌≡◌, sym, ◌∙◌, true, none, List, length, arith, ok}
use shared_object.Dict.{lookup}
use shared_object.Os.{Os, Posix, Sharing}
use shared_object.SharedMemory.{Process, map_shared_memory_internal}
use shared_object.SharedMemory.Keys.{get_key}
use shared_object.SharedMemory.Public.{map_shared_memory}
use shared_object.SharedMemory.RefCount.Invariant.{chosen}
use shared_object.SharedMemory.RefCount.Steps.{map_result, map_world}
use shared_object.SharedMemory.Processes.Keyed.{chosen_keeps}
use shared_object.SharedMemory.Processes.Ids.{allocated_ok}
use shared_object.Altrep.SharedVector.Contents.{fresh-backs}
use shared_object.Altrep.SharedVector.Sharing.{joined}
use shared_object.Interface.Exports.{ExternalPtr, c_allocate_shared_memory, c_map_shared_memory}

module _ (os : Os) where
  mapped_ok :
      (id : String) (p : Process os) (x : ExternalPtr os)
      → (c_map_shared_memory os id p).0 ≡ ok x
      → ((map_shared_memory_internal os (get_key os id) p).0 ≡ ok x.address)
        × ((c_map_shared_memory os id p).1 ≡ (map_shared_memory_internal os (get_key os id) p).1)
  unfolding c_map_shared_memory map_shared_memory
  mapped_ok id p x e = ground arith

  module _ (px : Posix os) (sh : Sharing os) (size : ℕ) (asked id : String) (p b : Process os)
      (x y : ExternalPtr os) (given : (c_allocate_shared_memory os size asked p).0 ≡ ok id)
      (absent : lookup (get_key os id) p.shared_object_list ≡ none)
      (mapped : (c_map_shared_memory os id (c_allocate_shared_memory os size asked p).1).0 ≡ ok x)
      (world : b.world
        ≡ (c_map_shared_memory os id (c_allocate_shared_memory os size asked p).1).1.world)
      (absent_there : lookup (get_key os id) b.shared_object_list ≡ none)
      (mapped_there : (c_map_shared_memory os id b).0 ≡ ok y) where
    -- Both pointers are those of the whole memory.
    both_back :
        (sh.backs (get_key os id) y.address size (c_map_shared_memory os id b).1.world ≡ true)
        × (sh.backs (get_key os id) x.address size (c_map_shared_memory os id b).1.world ≡ true)
    unfolding c_allocate_shared_memory
    both_back =
        let key = get_key os id in
        let r = (chosen os asked p).1 in
        let (chose, made, left) = allocated_ok os size asked id p given in
        let (at, after) = mapped_ok id (c_allocate_shared_memory os size asked p).1 x mapped in
        let (there, last) = mapped_ok id b y mapped_there in
        let held : sh.backs key x.address size b.world ≡ true =
          rw (world, after, left)
            (fresh-backs os px sh key size r x.address (rw (chosen_keeps os asked p) absent) made
              (rw (← left) at)) in
        let (shown, kept, _) =
          joined os px sh key size b y.address x.address absent_there held
            (sym (map_result os key b) ∙ there) in
        (rw (last, map_world os key b) shown, rw (last, map_world os key b) kept)

    -- A process is given an id of memory of a size, whose key it has no object of, and maps it.
    -- Another process, with the memory as the first one left it and no object of the key, maps the id.
    -- As many bytes as the size, written from either of the two pointers on, are then read from the
    -- other one on.
    pub write-mapped_elsewhere :
        (bytes : List ℕ)
        → length bytes ≡ size
        → (os.read_memory y.address size
              (os.write_memory x.address bytes (c_map_shared_memory os id b).1.world)
            ≡ bytes)
          × (os.read_memory x.address size
                (os.write_memory y.address bytes (c_map_shared_memory os id b).1.world)
              ≡ bytes)
    write-mapped_elsewhere bytes long =
        let (by, bx) = both_back in (seen x.address y.address bx by, seen y.address x.address by bx)
      where
        key : String
        key = get_key os id

        w : os.World
        w = (c_map_shared_memory os id b).1.world

        seen :
            (a c : os.Address)
            → sh.backs key a size w ≡ true
            → sh.backs key c size w ≡ true
            → os.read_memory c size (os.write_memory a bytes w) ≡ bytes
        seen a c ba bc =
            sh.same_object key c a size (os.write_memory a bytes w)
              (sh.backs-write key c a size bytes w ∙ bc) (sh.backs-write key a a size bytes w ∙ ba)
            ∙ rw (← long) (sh.write_reads key a bytes w (rw long ba))
