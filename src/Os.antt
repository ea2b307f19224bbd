-- ===== src/Os.antt =====
-- What src/sharedObjectClass.cpp and src/sharedMemory.cpp take from outside the repository, on
-- Linux: the shared memory objects and mapped regions of boost::interprocess, statvfs, the weak
-- symbol __shm_directory, SIGBUS, and the memory behind an address. Nothing is assumed of them
-- here; `Posix`, `Counting` and `Sharing` list the documented behaviour that some theorems take as a
-- hypothesis.
use shared_object.Prelude.{
  ℕ, String, ◌≡◌, ◌↔◌, ◌≤◌, ◌<◌, ◌^◌, none, Bool, true, false, Option, some, str_eq, if◌then◌else◌,
  List, length, ◌+◌, ◌-◌, ltb, ◌==◌,
}

-- An operation that may throw gives `none` where it throws.
pub record Os : Type 1 where
  -- everything outside the process's own C++ objects: names, sizes, descriptors, memory
  pub World : Type 0
  pub Handle : Type 0
  pub Region : Type 0
  pub Address : Type 0
  -- shared_memory_object(open_only, key, read_write) and (create_only, key, read_write, perm)
  pub open_only : String → World → Option (Handle × World)
  pub create_only : String → World → Option (Handle × World)
  pub truncate : Handle → ℕ → World → Option World
  pub get_size : Handle → World → ℕ
  -- the destructor of shared_memory_object, and the static shared_memory_object::remove
  pub close : Handle → World → World
  pub remove : String → World → World
  -- mapped_region(handle, read_write), its get_address and its destructor
  pub new_region : Handle → World → Option (Region × World)
  pub get_address : Region → Address
  pub free_region : Region → World → World
  pub flush : Region → World → World
  -- memset(ptr, 0, n): false where SIGBUS stops it
  pub fill_zero : Address → ℕ → World → Bool × World
  -- whether signal(SIGBUS, handler) is not SIG_ERR
  pub can_handle_bus_error : World → Bool
  -- __shm_directory, null where the symbol is missing; access(path, F_OK) == 0
  pub shm_directory : Option String
  pub can_access : String → World → Bool
  -- f_bsize and f_bfree of a statvfs that returns 0
  pub statvfs : String → World → Option (ℕ × ℕ)
  -- a uint64_t in memory
  pub load_64 : Address → World → ℕ
  pub store_64 : Address → ℕ → World → World
  -- memcpy of that many bytes from an address, and of bytes to one
  pub read_memory : Address → ℕ → World → List ℕ
  pub write_memory : Address → List ℕ → World → World
  -- named_semaphore(open_or_create, name, count, perm), timed_wait (false: timed out), post, the
  -- destructor, and the static named_semaphore::remove
  pub Semaphore : Type 0
  pub new_semaphore : String → ℕ → World → Option (Semaphore × World)
  pub timed_wait : Semaphore → World → Bool × World
  pub post : Semaphore → World → World
  pub delete_semaphore : Semaphore → World → World
  pub remove_semaphore : String → World → World
  -- sizeof(void*)
  pub pointer_size : ℕ

-- POSIX shared memory: `named` is the directory of names. A name goes only by `remove`, and comes
-- only by `create_only`, which refuses one that is there.
pub record Posix (os : Os) : Type 0 where
  pub named : String → os.World → Bool
  -- opening needs the name, and changes none
  pub open_named :
      (k : String) (w : os.World) (made : os.Handle × os.World)
      → os.open_only k w ≡ some made
      → named k w ≡ true
  pub open_keeps :
      (k : String) (w : os.World) (j : String) (made : os.Handle × os.World)
      → os.open_only k w ≡ some made
      → named j made.1 ≡ named j w
  -- creation is exclusive
  pub create_fresh :
      (k : String) (w : os.World) (made : os.Handle × os.World)
      → os.create_only k w ≡ some made
      → named k w ≡ false
  pub create_names :
      (k : String) (w : os.World) (j : String) (made : os.Handle × os.World)
      → os.create_only k w ≡ some made
      → named j made.1 ≡ (if str_eq k j then true else named j w)
  pub truncate_size :
      (h : os.Handle) (n : ℕ) (w w' : os.World) → os.truncate h n w ≡ some w' → n ≤ os.get_size h w'
  pub truncate_keeps :
      (h : os.Handle) (n : ℕ) (w w' : os.World) (j : String)
      → os.truncate h n w ≡ some w'
      → named j w' ≡ named j w
  pub named-close : (h : os.Handle) (w : os.World) (j : String) → named j (os.close h w) ≡ named j w
  pub named-remove :
      (k : String) (w : os.World) (j : String)
      → named j (os.remove k w) ≡ (if str_eq k j then false else named j w)
  -- mapping, unmapping, filling and storing change no name, and the first three no size
  pub named-store :
      (a : os.Address) (v : ℕ) (w : os.World) (j : String) → named j (os.store_64 a v w) ≡ named j w
  pub region_size :
      (h : os.Handle) (w : os.World) (g : os.Handle) (made : os.Region × os.World)
      → os.new_region h w ≡ some made
      → os.get_size g made.1 ≡ os.get_size g w
  pub region_keeps :
      (h : os.Handle) (w : os.World) (j : String) (made : os.Region × os.World)
      → os.new_region h w ≡ some made
      → named j made.1 ≡ named j w
  pub get_size-free_region :
      (r : os.Region) (w : os.World) (g : os.Handle)
      → os.get_size g (os.free_region r w) ≡ os.get_size g w
  pub named-free_region :
      (r : os.Region) (w : os.World) (j : String) → named j (os.free_region r w) ≡ named j w
  pub get_size-fill_zero :
      (a : os.Address) (n : ℕ) (w : os.World) (g : os.Handle)
      → os.get_size g (os.fill_zero a n w).1 ≡ os.get_size g w
  pub named-fill_zero :
      (a : os.Address) (n : ℕ) (w : os.World) (j : String)
      → named j (os.fill_zero a n w).1 ≡ named j w

-- What the search for an unused id relies on: an object opened and closed again leaves the world as
-- it was, and the counter in shared memory is an ordinary uint64_t that no name depends on.
pub record Counting (os : Os) : Type 0 where
  pub close-open :
      (k : String) (w : os.World) (made : os.Handle × os.World)
      → os.open_only k w ≡ some made
      → os.close made.0 made.1 ≡ w
  pub open-store_none :
      (k : String) (a : os.Address) (v : ℕ) (w : os.World)
      → (os.open_only k (os.store_64 a v w) ≡ none) ↔ (os.open_only k w ≡ none)
  pub load-store :
      (a : os.Address) (v : ℕ) (w : os.World) → v < 2 ^ 64 → os.load_64 a (os.store_64 a v w) ≡ v
  pub load-lt : (a : os.Address) (w : os.World) → os.load_64 a w < 2 ^ 64

-- What vectors in shared memory rely on. `opens h k` says that a handle is of the object that is now
-- named k, `backs k a n` that the first n bytes of that object are those from the address a on.
pub record Sharing (os : Os) : Type 0 where
  pub opens : os.Handle → String → os.World → Bool
  pub backs : String → os.Address → ℕ → os.World → Bool
  pub create_opens :
      (k : String) (w : os.World) (made : os.Handle × os.World)
      → os.create_only k w ≡ some made
      → opens made.0 k made.1 ≡ true
  pub open_opens :
      (k : String) (w : os.World) (made : os.Handle × os.World)
      → os.open_only k w ≡ some made
      → opens made.0 k made.1 ≡ true
  -- sizing, testing and mapping leave a handle on its object
  pub truncate_opens :
      (h : os.Handle) (n : ℕ) (w w' : os.World) (k : String)
      → os.truncate h n w ≡ some w'
      → opens h k w' ≡ opens h k w
  pub opens-fill_zero :
      (h : os.Handle) (k : String) (a : os.Address) (n : ℕ) (w : os.World)
      → opens h k (os.fill_zero a n w).1 ≡ opens h k w
  pub opens-free_region :
      (h : os.Handle) (k : String) (r : os.Region) (w : os.World)
      → opens h k (os.free_region r w) ≡ opens h k w
  pub region_opens :
      (h : os.Handle) (w : os.World) (k : String) (made : os.Region × os.World)
      → os.new_region h w ≡ some made
      → opens h k made.1 ≡ opens h k w
  -- a region is the whole object of its handle, and no object is shorter than what is mapped of it
  pub region_backs :
      (h : os.Handle) (w : os.World) (k : String) (n : ℕ) (made : os.Region × os.World)
      → os.new_region h w ≡ some made
      → opens h k w ≡ true
      → n ≤ os.get_size h w
      → backs k (os.get_address made.0) n made.1 ≡ true
  pub backs_size :
      (h : os.Handle) (w : os.World) (k : String) (a : os.Address) (n : ℕ)
      → opens h k w ≡ true
      → backs k a n w ≡ true
      → n ≤ os.get_size h w
  -- opening and mapping, in whatever process, leave the mapped memory as it is
  pub open_backs :
      (j : String) (w : os.World) (k : String) (a : os.Address) (n : ℕ)
      (made : os.Handle × os.World)
      → os.open_only j w ≡ some made
      → backs k a n w ≡ true
      → (backs k a n made.1 ≡ true) × (os.read_memory a n made.1 ≡ os.read_memory a n w)
  pub map_backs :
      (h : os.Handle) (w : os.World) (k : String) (a : os.Address) (n : ℕ)
      (made : os.Region × os.World)
      → os.new_region h w ≡ some made
      → backs k a n w ≡ true
      → (backs k a n made.1 ≡ true) × (os.read_memory a n made.1 ≡ os.read_memory a n w)
  -- a copy of n bytes is n bytes; memory reads back what is written to it, and stays mapped
  pub read_length : (a : os.Address) (n : ℕ) (w : os.World) → length (os.read_memory a n w) ≡ n
  pub write_reads :
      (k : String) (a : os.Address) (bytes : List ℕ) (w : os.World)
      → backs k a (length bytes) w ≡ true
      → os.read_memory a (length bytes) (os.write_memory a bytes w) ≡ bytes
  pub backs-write :
      (k : String) (a b : os.Address) (n : ℕ) (bytes : List ℕ) (w : os.World)
      → backs k a n (os.write_memory b bytes w) ≡ backs k a n w
  -- two addresses of one object show the same bytes, and those of two objects do not touch
  pub same_object :
      (k : String) (a b : os.Address) (n : ℕ) (w : os.World)
      → backs k a n w ≡ true
      → backs k b n w ≡ true
      → os.read_memory a n w ≡ os.read_memory b n w
  pub other_object :
      (k j : String) (a b : os.Address) (n : ℕ) (bytes : List ℕ) (w : os.World)
      → backs k a n w ≡ true
      → backs j b (length bytes) w ≡ true
      → str_eq k j ≡ false
      → os.read_memory a n (os.write_memory b bytes w) ≡ os.read_memory a n w

-- named_semaphore, by a number for each semaphore that was ever made: `bound` is the semaphore that a
-- name has. A name is taken from its semaphore by `remove_semaphore` alone, and the semaphore stays.
pub record Semaphores (os : Os) : Type 0 where
  pub number : os.Semaphore → ℕ
  pub bound : String → os.World → Option ℕ
  pub existed : ℕ → os.World → Bool
  pub count : ℕ → os.World → ℕ
  pub bound_existed :
      (name : String) (i : ℕ) (w : os.World) → bound name w ≡ some i → existed i w ≡ true
  -- open_or_create gives the semaphore of the name, or a new one with the count asked for
  pub open_bound :
      (name : String) (n i : ℕ) (w : os.World) (made : os.Semaphore × os.World)
      → os.new_semaphore name n w ≡ some made
      → bound name w ≡ some i
      → (number made.0 ≡ i) × (bound name made.1 ≡ some i)
  pub open_count :
      (name : String) (n i j : ℕ) (w : os.World) (made : os.Semaphore × os.World)
      → os.new_semaphore name n w ≡ some made
      → bound name w ≡ some i
      → (count j made.1 ≡ count j w) × (existed j made.1 ≡ existed j w)
  pub create_bound :
      (name : String) (n : ℕ) (w : os.World) (made : os.Semaphore × os.World)
      → os.new_semaphore name n w ≡ some made
      → bound name w ≡ none
      → (bound name made.1 ≡ some (number made.0)) × (existed (number made.0) w ≡ false)
  pub create_count :
      (name : String) (n j : ℕ) (w : os.World) (made : os.Semaphore × os.World)
      → os.new_semaphore name n w ≡ some made
      → bound name w ≡ none
      → (count j made.1 ≡ (if j == number made.0 then n else count j w))
        × (existed j made.1 ≡ (if j == number made.0 then true else existed j w))
  -- a wait takes one of the count, or times out where it stays 0
  pub wait_result :
      (s : os.Semaphore) (w : os.World) → (os.timed_wait s w).0 ≡ ltb 0 (count (number s) w)
  pub wait_count :
      (s : os.Semaphore) (w : os.World) (j : ℕ)
      → count j (os.timed_wait s w).1 ≡ (if j == number s then count j w - 1 else count j w)
  pub wait_bound :
      (s : os.Semaphore) (w : os.World) (name : String) (j : ℕ)
      → (bound name (os.timed_wait s w).1 ≡ bound name w)
        × (existed j (os.timed_wait s w).1 ≡ existed j w)
  pub post_count :
      (s : os.Semaphore) (w : os.World) (j : ℕ)
      → count j (os.post s w) ≡ (if j == number s then count j w + 1 else count j w)
  pub post_bound :
      (s : os.Semaphore) (w : os.World) (name : String) (j : ℕ)
      → (bound name (os.post s w) ≡ bound name w) × (existed j (os.post s w) ≡ existed j w)
  pub delete_keeps :
      (s : os.Semaphore) (w : os.World) (name : String) (j : ℕ)
      → (bound name (os.delete_semaphore s w) ≡ bound name w)
        × (count j (os.delete_semaphore s w) ≡ count j w)
        × (existed j (os.delete_semaphore s w) ≡ existed j w)
  pub remove_unbinds :
      (name : String) (w : os.World) (j : ℕ)
      → (bound name (os.remove_semaphore name w) ≡ none)
        × (count j (os.remove_semaphore name w) ≡ count j w)
        × (existed j (os.remove_semaphore name w) ≡ existed j w)
