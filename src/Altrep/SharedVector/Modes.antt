-- ===== src/Altrep/SharedVector/Modes.antt =====
-- C_getDataTypeId of src/C_interface.cpp before createEmptySharedObject of src/altrep.cpp, as the R
-- function SharedObject calls them: from the name of a type to a vector of that type.
use native.Mathlib.Nat.{mul_comm}
use shared_object.Prelude.{
  ℕ, ◌*◌, ◌%◌, ◌^◌, ◌<◌, String, ◌≡◌, refl, ap, ◌∙◌, Bool, true, none, inl, inr, eq_iff, arith, ok,
  ◌⊎◌, sym, subst,
}
use shared_object.Dict.{lookup}
use shared_object.Os.{Os, Posix, Sharing}
use shared_object.SharedMemory.{Process}
use shared_object.SharedMemory.Keys.{get_key}
use shared_object.SharedMemory.NextId.{get_next_id}
use shared_object.Altrep.Types.{
  get_data_type_id, get_type_size, get_alt_class, AltClass, strsxp, rawsxp, lglsxp, intsxp, realsxp,
  cplxsxp, shared_raw, shared_logical, shared_integer, shared_real, shared_complex,
}
use shared_object.Altrep.SharedVector.Filling.{ok-injective}
use shared_object.Altrep.Registration.{registered}
use shared_object.Altrep.SharedVector.{SharedVector, create_empty_shared_object}
use shared_object.Altrep.SharedVector.Operations.{unshare}
use shared_object.Altrep.SharedVector.Contents.{IsNew, create_empty-IsNew}
use shared_object.Altrep.SharedVector.RoundTrip.{unshare-IsNew}

-- R's name of a type of fixed width, the name of the class of its shared vectors, and the bytes that
-- R has for an element.
pub data Mode : String → String → ℕ → Type 0 where
  raw_mode : Mode "raw" "shared_raw" 1
  logical_mode : Mode "logical" "shared_logical" 4
  integer_mode : Mode "integer" "shared_int" 4
  real_mode : Mode "real" "shared_real" 8
  numeric_mode : Mode "numeric" "shared_real" 8
  complex_mode : Mode "complex" "shared_complex" 16

-- What a name with a type id is
named_type :
    (mode : String) (type : ℕ)
    → get_data_type_id mode ≡ ok type
    → ((mode ≡ "raw") × (type ≡ rawsxp))
      ⊎ (((mode ≡ "logical") × (type ≡ lglsxp))
          ⊎ (((mode ≡ "integer") × (type ≡ intsxp))
              ⊎ (((mode ≡ "real") × (type ≡ realsxp))
                  ⊎ (((mode ≡ "numeric") × (type ≡ realsxp))
                      ⊎ (((mode ≡ "complex") × (type ≡ cplxsxp)) ⊎ (type ≡ strsxp))))))
unfolding get_data_type_id
named_type mode type e = ground (
  arith,
  eq_iff mode "raw",
  eq_iff mode "logical",
  eq_iff mode "integer",
  eq_iff mode "real",
  eq_iff mode "numeric",
  eq_iff mode "complex",
)

-- The size and the class of one type
known_type :
    (mode name : String) (type t size s : ℕ) (class c : AltClass)
    → mode ≡ name
    → type ≡ t
    → get_type_size type ≡ ok size
    → get_alt_class type ≡ ok class
    → get_type_size t ≡ ok s
    → get_alt_class t ≡ ok c
    → Mode name (registered c).class_name s
    → Mode mode (registered class).class_name size
known_type mode name type t size s class c is at es ec fs fc m =
    let one : size ≡ s = ok-injective (rw (← at) (sym es) ∙ fs) in
    let same : class ≡ c = ok-injective (rw (← at) (sym ec) ∙ fc) in rw (is, one, same) m

-- A name with a type id, where getTypeSize and getAltClass know the type
typed-Mode :
    (mode : String) (type size : ℕ) (class : AltClass)
    → get_data_type_id mode ≡ ok type
    → get_type_size type ≡ ok size
    → get_alt_class type ≡ ok class
    → Mode mode (registered class).class_name size
unfolding get_type_size get_alt_class registered
typed-Mode mode type size class e es ec = elim (named_type mode type e) [
  | inl (is, at) ↦
      known_type mode "raw" type rawsxp size 1 class shared_raw is at es ec refl refl raw_mode
  | inr (inl (is, at)) ↦
      known_type mode "logical" type lglsxp size 4 class shared_logical is at es ec refl refl
        logical_mode
  | inr (inr (inl (is, at))) ↦
      known_type mode "integer" type intsxp size 4 class shared_integer is at es ec refl refl
        integer_mode
  | inr (inr (inr (inl (is, at)))) ↦
      known_type mode "real" type realsxp size 8 class shared_real is at es ec refl refl real_mode
  | inr (inr (inr (inr (inl (is, at))))) ↦
      known_type mode "numeric" type realsxp size 8 class shared_real is at es ec refl refl
        numeric_mode
  | inr (inr (inr (inr (inr (inl (is, at)))))) ↦
      known_type mode "complex" type cplxsxp size 16 class shared_complex is at es ec refl refl
        complex_mode
  | inr (inr (inr (inr (inr (inr at))))) ↦ absurd (ground arith)
]

Mode-fits :
    {mode class : String} {width : ℕ}
    → Mode mode class width
    → (count : ℕ) → count < 2 ^ 60
    → width * count < 2 ^ 64
Mode-fits raw_mode count small = omega (arith, small)
Mode-fits logical_mode count small = omega (arith, small)
Mode-fits integer_mode count small = omega (arith, small)
Mode-fits real_mode count small = omega (arith, small)
Mode-fits numeric_mode count small = omega (arith, small)
Mode-fits complex_mode count small = omega (arith, small)

module _ (os : Os) (px : Posix os) (sh : Sharing os) where
  -- The type that a name stands for, in a process that has no object of the next id. A vector of
  -- fewer than 2^60 elements that is made for it has the name's class, its pointer is that of as many
  -- bytes of its memory as the elements of the name's width take, and these bytes, with the type, are
  -- what it unshares to. There is none for the name of the type of strings.
  pub create_empty-Mode :
      (mode : String) (type count : ℕ) (cow ss sc : Bool) (p q : Process os) (v : SharedVector os)
      → ((id : String)
          → (get_next_id os p).0 ≡ ok id
          → lookup (get_key os id) p.shared_object_list ≡ none)
      → get_data_type_id mode ≡ ok type
      → create_empty_shared_object os type count cow ss sc p ≡ (ok v, q)
      → count < 2 ^ 60
      → (width : ℕ) × Mode mode (registered v.class).class_name width
        × (sh.backs (get_key os v.tag) v.pointer (width * count) q.world ≡ true)
        × (unshare os v q ≡ (
          ok (record {
            data_type = type;
            bytes = os.read_memory v.pointer (width * count) q.world;
          }),
          q,
        ))
  create_empty-Mode mode type count cow ss sc p q v absent e made small =
      let (width, new') =
        create_empty-IsNew os px sh type count cow ss sc p v absent (ap (λ r. r.0) made) in
      let new : IsNew os px sh type count width cow v q.world =
        subst (λ (r : Process os). IsNew os px sh type count width cow v r.world)
          (ap (λ r. r.1) made) new' in
      let m = typed-Mode mode type width v.class e new.sized new.classed in
      let bound = Mode-fits m count small in
      let total : count * width % 2 ^ 64 ≡ width * count =
        rw (mul_comm count width) (omega (arith, bound)) in
      (
        width,
        m,
        rw (← total) new.backed,
        unshare-IsNew os px sh type count width cow v q q.world new bound,
      )
