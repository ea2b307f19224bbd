-- ===== src/Altrep/Registration.antt =====
-- src/altrepRegistration.cpp: the classes that the package registers with R, each with its name, its
-- vector type and the functions that R calls for it.
use shared_object.Prelude.{
  ℕ, String, ◌≡◌, refl, sym, ap, ◌∙◌, str_eq, List, [], ◌∷◌, if◌then◌else◌, arith, ok,
}
use shared_object.Altrep.Types.{
  AltClass, shared_real, shared_integer, shared_logical, shared_raw, shared_complex, shared_string,
  get_alt_class, lglsxp, intsxp, realsxp, cplxsxp, strsxp, rawsxp,
}

-- The entries of R's method tables that are set.
pub data Method : Type 0 where
  inspect length duplicate unserialize serialized_state : Method
  dataptr dataptr_or_null extract_subset : Method
  elt set_elt : Method

-- The functions that they are set to.
pub data Handler : Type 0 where
  shared_vector_inspect shared_vector_length shared_vector_duplicate : Handler
  shared_vector_unserialize shared_vector_serialized_state : Handler
  shared_vector_dataptr shared_vector_dataptr_or_null shared_vector_subset : Handler
  shared_string_inspect shared_string_length shared_string_duplicate : Handler
  shared_string_unserialize shared_string_serialized_state : Handler
  shared_string_dataptr shared_string_dataptr_or_null shared_string_elt shared_string_set_elt :
      Handler

-- What R_make_..._class is given, with the type of its vectors, and what is set afterwards.
pub record Registered : Type 0 where
  pub class_name : String
  pub base_type : ℕ
  pub methods : List (Method × Handler)

-- ALT_COMMOM_REGISTRATION
common_registration : String → ℕ → Registered
common_registration name type = record {
  class_name = name;
  base_type = type;
  methods =
      (inspect, shared_vector_inspect)
      ∷ (length, shared_vector_length)
      ∷ (duplicate, shared_vector_duplicate)
      ∷ (unserialize, shared_vector_unserialize)
      ∷ (serialized_state, shared_vector_serialized_state)
      ∷ (dataptr, shared_vector_dataptr)
      ∷ (dataptr_or_null, shared_vector_dataptr_or_null)
      ∷ (extract_subset, shared_vector_subset)
      ∷ [];
}

string_registration : Registered
string_registration = record {
  class_name = "shared_string";
  base_type = strsxp;
  methods =
      (inspect, shared_string_inspect)
      ∷ (length, shared_string_length)
      ∷ (duplicate, shared_string_duplicate)
      ∷ (unserialize, shared_string_unserialize)
      ∷ (serialized_state, shared_string_serialized_state)
      ∷ (dataptr, shared_string_dataptr)
      ∷ (dataptr_or_null, shared_string_dataptr_or_null)
      ∷ (elt, shared_string_elt)
      ∷ (set_elt, shared_string_set_elt)
      ∷ [];
}

-- init_real_class and the five others
unfoldable pub registered : AltClass → Registered
unfolding common_registration string_registration
registered shared_real = common_registration "shared_real" realsxp
registered shared_integer = common_registration "shared_int" intsxp
registered shared_logical = common_registration "shared_logical" lglsxp
registered shared_raw = common_registration "shared_raw" rawsxp
registered shared_complex = common_registration "shared_complex" cplxsxp
registered shared_string = string_registration

-- Every class is registered for the type that getAltClass gives it for.
pub base_type-get_alt_class :
    (type : ℕ) (c : AltClass) → get_alt_class type ≡ ok c → (registered c).base_type ≡ type
unfolding get_alt_class registered
base_type-get_alt_class type shared_real e = ground arith
base_type-get_alt_class type shared_integer e = ground arith
base_type-get_alt_class type shared_logical e = ground arith
base_type-get_alt_class type shared_raw e = ground arith
base_type-get_alt_class type shared_complex e = ground arith
base_type-get_alt_class type shared_string e = ground arith

class_named : String → AltClass
class_named name =
    if str_eq name "shared_real"
    then shared_real
    else if str_eq name "shared_int"
    then shared_integer
    else if str_eq name "shared_logical"
    then shared_logical
    else if str_eq name "shared_raw"
    then shared_raw
    else if str_eq name "shared_complex"
    then shared_complex
    else shared_string

class_named-registered : (c : AltClass) → class_named (registered c).class_name ≡ c
unfolding class_named registered
class_named-registered shared_real = refl
class_named-registered shared_integer = refl
class_named-registered shared_logical = refl
class_named-registered shared_raw = refl
class_named-registered shared_complex = refl
class_named-registered shared_string = refl

-- No two classes have one name.
class_name-injective :
    (c d : AltClass) → (registered c).class_name ≡ (registered d).class_name → c ≡ d
class_name-injective c d e =
    sym (class_named-registered c) ∙ ap class_named e ∙ class_named-registered d

-- The class that getAltClass gives for a type is registered for vectors of that type, and if the
-- classes of two types have one name, the types are the same.
pub class_name-determines_type :
    (s t : ℕ) (c d : AltClass)
    → get_alt_class s ≡ ok c
    → get_alt_class t ≡ ok d
    → (registered c).class_name ≡ (registered d).class_name
    → ((registered c).base_type ≡ s) × (s ≡ t)
class_name-determines_type s t c d e f same =
    let at_s = base_type-get_alt_class s c e in
    let at_t = base_type-get_alt_class t d f in
    let one : c ≡ d = class_name-injective c d same in
    (at_s, sym at_s ∙ ap (λ k. (registered k).base_type) one ∙ at_t)
