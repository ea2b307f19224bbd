-- ===== src/Interface.antt =====
-- src/C_interface.cpp: whether an object is shared, the ownership of a shared vector, and the last
-- index. The functions that pass on to the other files are in Exports.
pub mod Exports
pub mod RawMemory
use shared_object.Prelude.{
  ℕ, ◌-◌, ◌%◌, ◌^◌, ◌≡◌, ◌↔◌, refl, sym, ap, ◌∙◌, Bool, true, false, Option, none, some, ℤ, pos,
  negsuc, ltb, ◌==◌, if◌then◌else◌, arith, Result, ok, threw, aborted, Exec, pure, ◌>>=◌,
  Bool-cases, inl, inr, ==_iff,
}
use text.Mathlib.TextPositions.{eq_refl}
use shared_object.Dict.{lookup-insert}
use shared_object.Os.{Os}
use shared_object.SharedMemory.{Process}
use shared_object.SharedMemory.Public.{auto_release_after_use, set_auto_release_after_use}
use shared_object.SharedMemory.Package.{get_last_index}
use shared_object.Altrep.Types.{
  AltClass, shared_real, shared_integer, shared_logical, shared_raw, shared_complex, shared_string,
  get_alt_class,
}
use shared_object.Altrep.SharedVector.{SharedVector}

-- What C_isShared sees of an object: its type, and of an altrep its class, none where it is not one
-- of this package, and its data1.
pub data Sexp : Type 0 where
  plain : ℕ → Sexp
  altrep : ℕ → Option AltClass → Sexp → Sexp

class_code : AltClass → ℕ
class_code shared_real = 0
class_code shared_integer = 1
class_code shared_logical = 2
class_code shared_raw = 3
class_code shared_complex = 4
class_code shared_string = 5

-- R_altrep_inherits(x, getAltClass(type)); a type that is not in the switch is not shared.
abbrev inherits : Option AltClass → Result AltClass → Bool
inherits (some c) (ok d) = class_code c == class_code d
inherits _ _ = false

unfoldable pub is_shared : Sexp → Bool
unfolding class_code
is_shared (plain type) = false
is_shared (altrep type class data1) =
    let wrapped = is_shared data1 in if inherits class (get_alt_class type) then true else wrapped

-- A vector of this package, of the class of its type, or one that wraps such a vector.
pub data IsSharedWithin : Sexp → Type 0 where
  itself :
      {type : ℕ} {c : AltClass} {data1 : Sexp}
      → get_alt_class type ≡ ok c
      → IsSharedWithin (altrep type (some c) data1)
  wrapped :
      {type : ℕ} {class : Option AltClass} {data1 : Sexp}
      → IsSharedWithin data1
      → IsSharedWithin (altrep type class data1)

class_of : ℕ → AltClass
class_of n =
    if n == 0
    then shared_real
    else if n == 1
    then shared_integer
    else if n == 2
    then shared_logical
    else if n == 3
    then shared_raw
    else if n == 4
    then shared_complex
    else shared_string

class_of-class_code : (c : AltClass) → class_of (class_code c) ≡ c
unfolding class_of class_code
class_of-class_code shared_real = refl
class_of-class_code shared_integer = refl
class_of-class_code shared_logical = refl
class_of-class_code shared_raw = refl
class_of-class_code shared_complex = refl
class_of-class_code shared_string = refl

inherits-class :
    (class : Option AltClass) (r : Result AltClass)
    → inherits class r ≡ true
    → (c : AltClass) × (class ≡ some c) × (r ≡ ok c)
inherits-class (some c) (ok d) e = (
  c,
  refl,
  ap ok (
      sym (class_of-class_code d)
      ∙ ap class_of (sym ((==_iff (class_code c) (class_code d)).0 e))
      ∙ class_of-class_code c),
)
inherits-class (some c) (threw x) e = cc
inherits-class (some c) (aborted x) e = cc
inherits-class none r e = cc

inherits_self : (c : AltClass) (r : Result AltClass) → r ≡ ok c → inherits (some c) r ≡ true
inherits_self c r e = rw e ((==_iff (class_code c) (class_code c)).1 refl)

is_shared-IsSharedWithin : (x : Sexp) → is_shared x ≡ true → IsSharedWithin x
unfolding is_shared
is_shared-IsSharedWithin (plain type) e = cc
is_shared-IsSharedWithin (altrep type class data1) e =
    elim (Bool-cases (inherits class (get_alt_class type))) [
      | inl own ↦
          let (c, same, known) = inherits-class class (get_alt_class type) own in
          rw same (itself known)
      | inr other ↦ wrapped (is_shared-IsSharedWithin data1 (ground arith))
    ]

IsSharedWithin-is_shared : (x : Sexp) → IsSharedWithin x → is_shared x ≡ true
unfolding is_shared
IsSharedWithin-is_shared _ (itself {type} {c} {data1} known) =
    rw (inherits_self c (get_alt_class type) known) refl
IsSharedWithin-is_shared _ (wrapped {type} {class} {data1} within) =
    ground (arith, IsSharedWithin-is_shared data1 within)

-- C_isShared finds a vector of this package of the class of its type, behind any number of wrappers,
-- and nothing else.
pub is_shared_iff : (x : Sexp) → (is_shared x ≡ true) ↔ IsSharedWithin x
is_shared_iff x = (is_shared-IsSharedWithin x, IsSharedWithin-is_shared x)

module _ (os : Os) where
  -- C_setSharedObjectOwership and C_getSharedObjectOwership
  unfoldable pub set_shared_object_ownership : SharedVector os → Bool → Exec (Process os) (Unit {0})
  set_shared_object_ownership v own_data = set_auto_release_after_use os v.tag own_data

  unfoldable pub get_shared_object_ownership : SharedVector os → Exec (Process os) Bool
  get_shared_object_ownership v = auto_release_after_use os v.tag

  -- The conversion of a uint64_t to int32_t
  abbrev to_int32 : ℕ → ℤ
  to_int32 n =
      let low = n % 2 ^ 32 in if ltb low (2 ^ 31) then pos low else negsuc (2 ^ 32 - 1 - low)

  unfoldable pub get_last_index32 : Exec (Process os) ℤ
  get_last_index32 = do n ← get_last_index os; pure (to_int32 n)

  -- After the ownership of a shared vector is set, with success, every vector of the same id has it.
  get_ownership-set :
      (u v : SharedVector os) (own_data : Bool) (p : Process os)
      → u.tag ≡ v.tag
      → (set_shared_object_ownership v own_data p).0 ≡ ok tt
      → (get_shared_object_ownership u (set_shared_object_ownership v own_data p).1).0 ≡ ok own_data
  unfolding set_shared_object_ownership get_shared_object_ownership auto_release_after_use
      set_auto_release_after_use
  get_ownership-set u v own_data p e done = grind (arith, lookup-insert, eq_refl)
