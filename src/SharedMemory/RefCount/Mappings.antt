-- ===== src/SharedMemory/RefCount/Mappings.antt =====
-- The list of mappings that the callers hold, and what the process keeps for them.
use shared_object.Prelude.{
  ℕ, suc, ◌-◌, String, ◌≡◌, refl, false, none, some, List, [], ◌∷◌, pos, arith, str_eq, eq_iff,
  if◌then◌else◌,
}
use shared_object.Dict.{lookup}
use shared_object.Os.{Os}
use shared_object.SharedObjectClass.{SharedObjectClass}
use shared_object.SharedObjectClass.Validity.{IsValid}
use shared_object.SharedMemory.{Process, counter_at}
use shared_object.SharedMemory.RefCount.Objects.{Holds}

module _ (os : Os) where
  -- A key, and the pointer that mapSharedMemory returned for it.
  abbrev pub Mappings : Type 0
  Mappings = List (String × os.Address)

  abbrev pub count : String → Mappings → ℕ
  count key [] = 0
  count key ((j, a) ∷ live) = if str_eq j key then suc (count key live) else count key live

  abbrev pub remove_one : String → Mappings → Mappings
  remove_one key [] = []
  remove_one key ((j, a) ∷ live) = if str_eq j key then live else (j, a) ∷ remove_one key live

  -- Every pointer that is held is the address of a region that is still mapped.
  abbrev pub AllHeld : Process os → Mappings → Type 0
  AllHeld p [] = Unit
  AllHeld p ((key, a) ∷ live) = Holds os (lookup key p.shared_object_list) a × AllHeld p live

  -- The counters are the numbers of mappings, and every object in the list is valid.
  pub record Tracks (p : Process os) (live : Mappings) : Type 0 where
    pub counted : (key : String) → counter_at os key p ≡ pos (count key live)
    pub held : AllHeld p live
    pub valid :
        (key : String) (o : SharedObjectClass os)
        → lookup key p.shared_object_list ≡ some o
        → IsValid os o

  pub count-absent :
      (p : Process os) (key : String) (live : Mappings)
      → AllHeld p live
      → lookup key p.shared_object_list ≡ none
      → count key live ≡ 0
  count-absent p key [] h e = refl
  count-absent p key ((j, a) ∷ live) h e =
      ground (arith, count-absent p key live h.1 e, eq_iff j key)

  -- The other keys' objects are as before.
  abbrev SameBut : String → Process os → Process os → Type 0
  SameBut key p q =
      (j : String)
      → str_eq key j ≡ false
      → lookup j q.shared_object_list ≡ lookup j p.shared_object_list

  pub AllHeld-change :
      (p q : Process os) (key : String) (live : Mappings)
      → SameBut key p q
      → ((a : os.Address)
          → Holds os (lookup key p.shared_object_list) a
          → Holds os (lookup key q.shared_object_list) a)
      → AllHeld p live
      → AllHeld q live
  AllHeld-change p q key [] same keep h = tt
  AllHeld-change p q key ((j, a) ∷ live) same keep h =
      ground (arith, AllHeld-change p q key live same keep h.1, eq_iff key j, same j, keep a)

  pub AllHeld-drop :
      (p q : Process os) (key : String) (live : Mappings)
      → SameBut key p q
      → count key live ≡ 0
      → AllHeld p live
      → AllHeld q live
  AllHeld-drop p q key [] same none_left h = tt
  AllHeld-drop p q key ((j, a) ∷ live) same none_left h =
      ground (arith, AllHeld-drop p q key live same, eq_iff key j, eq_iff j key, same j)

  pub AllHeld-remove_one :
      (p : Process os) (key : String) (live : Mappings)
      → AllHeld p live
      → AllHeld p (remove_one key live)
  AllHeld-remove_one p key [] h = tt
  AllHeld-remove_one p key ((j, a) ∷ live) h = ground (arith, AllHeld-remove_one p key live h.1)

  pub count-remove_one :
      (key j : String) (live : Mappings)
      → count j (remove_one key live) ≡ (if str_eq key j then count j live - 1 else count j live)
  count-remove_one key j [] = ground arith
  count-remove_one key j ((i, a) ∷ live) =
      ground (arith, count-remove_one key j live, eq_iff i key, eq_iff i j, eq_iff key j)
