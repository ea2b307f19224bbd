-- ===== src/Tests/Platform.antt =====
-- A small operating system that meets the assumptions of `Os`: names with their sizes and numbers
-- in memory. It is for tests alone.
use shared_object.Prelude.{
  ℕ, ◌+◌, ◌-◌, ◌==◌, ==_iff, ◌%◌, ◌^◌, ◌≤◌, ◌<◌, String, ◌≡◌, refl, Bool, true, false, Option, none,
  some, ltb, leb, ◌&&◌, str_eq, eq_iff, if◌then◌else◌, arith, List, [], ◌∷◌, ◌++◌, length, take,
  drop, replicate, suc, ap, length-take, length-append, length-replicate,
}
use mathlib.Core.List.{append_assoc}
use shared_object.Dict.{Dict, lookup, insert, erase, empty, lookup-insert, lookup-erase}
use shared_object.Os.{Os, Posix, Counting, Sharing, Semaphores}

pub record Machine : Type 0 where
  pub names : Dict ℕ
  pub memory : Dict ℕ
  pub bytes : Dict (List ℕ)
  pub semaphores : Dict ℕ
  pub counts : ℕ → ℕ
  pub semaphores_made : ℕ

abbrev value_or_zero : Option ℕ → ℕ
value_or_zero none = 0
value_or_zero (some n) = n

abbrev pub bytes_of : Option (List ℕ) → List ℕ
bytes_of none = []
bytes_of (some content) = content

-- The semaphore of a name, among those that were made.
abbrev among : ℕ → Option ℕ → Option ℕ
among made none = none
among made (some i) = if ltb i made then some i else none

abbrev set_count : ℕ → ℕ → (ℕ → ℕ) → ℕ → ℕ
set_count i n counts j = if j == i then n else counts j

abbrev bound_semaphore : String → Machine → Option ℕ
bound_semaphore name w = among w.semaphores_made (lookup name w.semaphores)

-- A handle is a name, a region and its address too. There are 1000 bytes.
abbrev pub machine : Os
machine = record {
  World = Machine;
  Handle = String;
  Region = String;
  Address = String;
  open_only = λ k w. elim (lookup k w.names) [ none ↦ none | some n ↦ some (k, w) ];
  create_only = λ k w. elim (lookup k w.names) [
    | none ↦ some (k, record w { names = insert k 0 w.names })
    | some n ↦ none
  ];
  truncate = λ h n w. elim (lookup h w.names) [
    | none ↦ none
    | some old ↦ if ltb 1000 n then none else some (record w { names = insert h n w.names })
  ];
  get_size = λ h w. value_or_zero (lookup h w.names);
  close = λ h w. w;
  remove = λ k w. record w { names = erase k w.names };
  new_region = λ h w. some (h, w);
  get_address = λ r. r;
  free_region = λ r w. w;
  flush = λ r w. w;
  fill_zero = λ a n w. (true, w);
  can_handle_bus_error = λ w. true;
  shm_directory = some "/dev/shm";
  can_access = λ path w. true;
  statvfs = λ path w. some (10, 50);
  load_64 = λ a w. value_or_zero (lookup a w.memory) % 2 ^ 64;
  store_64 = λ a v w. record w { memory = insert a v w.memory };
  read_memory = λ a n w. take n (bytes_of (lookup a w.bytes) ++ replicate n 0);
  write_memory = λ a content w. record w {
    bytes = insert a (content ++ drop (length content) (bytes_of (lookup a w.bytes))) w.bytes;
  };
  Semaphore = ℕ;
  new_semaphore = λ name n w. elim (bound_semaphore name w) [
    | some i ↦ some (i, w)
    | none ↦ some (
      w.semaphores_made,
      record w {
        semaphores = insert name w.semaphores_made w.semaphores;
        counts = set_count w.semaphores_made n w.counts;
        semaphores_made = suc w.semaphores_made;
      },
    )
  ];
  timed_wait = λ s w.
      if ltb 0 (w.counts s)
      then (true, record w { counts = set_count s (w.counts s - 1) w.counts })
      else (false, w);
  post = λ s w. record w { counts = set_count s (w.counts s + 1) w.counts };
  delete_semaphore = λ s w. w;
  remove_semaphore = λ name w. record w { semaphores = erase name w.semaphores };
  pointer_size = 8;
}

abbrev pub blank : Machine
blank = record {
  names = empty;
  memory = empty;
  bytes = empty;
  semaphores = empty;
  counts = λ j. 0;
  semaphores_made = 0;
}

abbrev is_named : Option ℕ → Bool
is_named none = false
is_named (some n) = true

create_names_lem :
    (k : String) (w : Machine) (j : String) (made : String × Machine)
    → machine.create_only k w ≡ some made
    → is_named (lookup j made.1.names) ≡ (if str_eq k j then true else is_named (lookup j w.names))
create_names_lem k w j made e = ground (arith, lookup-insert k j 0 w.names)

truncate_keeps_lem :
    (h : String) (n : ℕ) (w w' : Machine) (j : String)
    → machine.truncate h n w ≡ some w'
    → is_named (lookup j w'.names) ≡ is_named (lookup j w.names)
truncate_keeps_lem h n w w' j e = ground (arith, lookup-insert h j n w.names, eq_iff h j)

truncate_size_lem :
    (h : String) (n : ℕ) (w w' : Machine)
    → machine.truncate h n w ≡ some w'
    → n ≤ machine.get_size h w'
truncate_size_lem h n w w' e = ground (arith, lookup-insert h h n w.names, eq_iff h h)

pub machine-Posix : Posix machine
machine-Posix = record {
  named = λ k w. is_named (lookup k w.names);
  open_named = λ k w made e. ground arith;
  open_keeps = λ k w j made e. ground arith;
  create_fresh = λ k w made e. ground arith;
  create_names = create_names_lem;
  truncate_size = truncate_size_lem;
  truncate_keeps = truncate_keeps_lem;
  named-close = λ h w j. refl;
  named-remove = λ k w j. ground (arith, lookup-erase k j w.names);
  named-store = λ a v w j. refl;
  region_size = λ h w g made e. ground arith;
  region_keeps = λ h w j made e. ground arith;
  get_size-free_region = λ r w g. refl;
  named-free_region = λ r w j. refl;
  get_size-fill_zero = λ a n w g. refl;
  named-fill_zero = λ a n w j. refl;
}

load-store_lem :
    (a : String) (v : ℕ) (w : Machine) → v < 2 ^ 64 → machine.load_64 a (machine.store_64 a v w) ≡ v
load-store_lem a v w h = ground (arith, lookup-insert a a v w.memory, eq_iff a a)

pub machine-Counting : Counting machine
machine-Counting = record {
  close-open = λ k w made e. ground arith;
  open-store_none = λ k a v w. ((λ e. ground arith), λ e. ground arith);
  load-store = load-store_lem;
  load-lt = λ a w. omega arith;
}

-- The first n bytes of the object k are there, and at its own address.
abbrev holds_bytes : String → String → ℕ → Machine → Bool
holds_bytes k a n w = str_eq k a && leb n (value_or_zero (lookup k w.names))

take-append : (content rest : List ℕ) → take (length content) (content ++ rest) ≡ content
take-append [] rest = refl
take-append (b ∷ content) rest = ap (λ (l : List ℕ). b ∷ l) (take-append content rest)

read_length_lem : (n : ℕ) (content : List ℕ) → length (take n (content ++ replicate n 0)) ≡ n
read_length_lem n content = omega (
  arith,
  length-take n (content ++ replicate n 0),
  length-append content (replicate n 0),
  length-replicate {A = ℕ} n 0,
)

write_reads_lem :
    (a : String) (content : List ℕ) (w : Machine)
    → machine.read_memory a (length content) (machine.write_memory a content w) ≡ content
write_reads_lem a content w =
    let rest = drop (length content) (bytes_of (lookup a w.bytes)) in
    rw (lookup-insert, (eq_iff a a).1 refl, append_assoc)
      (take-append content (rest ++ replicate (length content) 0))

other_object_lem :
    (k j a b : String) (n m : ℕ) (content : List ℕ) (w : Machine)
    → holds_bytes k a n w ≡ true
    → holds_bytes j b m w ≡ true
    → str_eq k j ≡ false
    → machine.read_memory a n (machine.write_memory b content w) ≡ machine.read_memory a n w
other_object_lem k j a b n m content w e f ne = rw (lookup-insert, apart) refl
  where
    apart : str_eq b a ≡ false
    apart = ground (arith, eq_iff k a, eq_iff j b, eq_iff b a, eq_iff k j)

pub machine-Sharing : Sharing machine
machine-Sharing = record {
  opens = λ h k w. str_eq h k;
  backs = holds_bytes;
  create_opens = λ k w made e. ground (arith, eq_iff k k);
  open_opens = λ k w made e. ground (arith, eq_iff k k);
  truncate_opens = λ h n w w' k e. refl;
  opens-fill_zero = λ h k a n w. refl;
  opens-free_region = λ h k r w. refl;
  region_opens = λ h w k made e. refl;
  region_backs = λ h w k n made e o le. ground (arith, eq_iff h k, eq_iff k h);
  backs_size = λ h w k a n o b. ground (arith, eq_iff h k, eq_iff k a);
  open_backs = λ j w k a n made e b. (ground (arith, b), ground arith);
  map_backs = λ h w k a n made e b. (ground (arith, b), ground arith);
  read_length = λ a n w. read_length_lem n (bytes_of (lookup a w.bytes));
  write_reads = λ k a content w b. write_reads_lem a content w;
  backs-write = λ k a b n content w. refl;
  same_object = λ k a b n w e f. ground (arith, eq_iff k a, eq_iff k b);
  other_object = λ k j a b n content w. other_object_lem k j a b n (length content) content w;
}

-- The semaphores, of which there are none at first.
pub machine-Semaphores :
    (sem : Semaphores machine) × ((name : String) → sem.bound name blank ≡ none)
    × ((j : ℕ) → sem.count j blank ≡ 0)
unfolding lookup
machine-Semaphores = (
  record {
    number = λ s. s;
    bound = bound_semaphore;
    existed = λ j w. ltb j w.semaphores_made;
    count = λ j w. w.counts j;
    bound_existed = λ name i w e. ground arith;
    open_bound = λ name n i w made e t. ground arith;
    open_count = λ name n i j w made e t. ground arith;
    create_bound = λ name n w made e t.
        ground (arith, lookup-insert name name w.semaphores_made w.semaphores, eq_iff name name);
    create_count = λ name n j w made e t. ground (arith, ==_iff j w.semaphores_made);
    wait_result = λ s w. ground arith;
    wait_count = λ s w j. ground (arith, ==_iff j s);
    wait_bound = λ s w name j. ground arith;
    post_count = λ s w j. ground (arith, ==_iff j s);
    post_bound = λ s w name j. (refl, refl);
    delete_keeps = λ s w name j. (refl, refl, refl);
    remove_unbinds = λ name w j.
        (ground (arith, lookup-erase name name w.semaphores, eq_iff name name), refl, refl);
  },
  (λ name. refl),
  λ j. refl,
)
