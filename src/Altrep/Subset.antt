-- ===== src/Altrep/Subset.antt =====
-- sharedVector_subset of src/numericAltrepOperations.cpp, on whole elements. The source pointer is
-- moved back by one element, so that the indices count from 1; reads outside of the source and an
-- `int` product that does not fit are faults. An index of type double is given as its `size_t` value.
pub mod Faults
use shared_object.Prelude.{
  ℕ, zero, suc, ◌*◌, ◌-◌, ◌^◌, ◌≤◌, ◌<◌, ◌≡◌, refl, List, [], ◌∷◌, none, some, Bool-cases, inl, inr,
  ◌↔◌, ℤ, pos, negsuc, leb, if◌then◌else◌, arith, length, get_elem?, Result, ok, threw, aborted, ap,
  out_of_bounds, int_overflow, Fault, ◌⊎◌, Option-cases, ◌++◌,
}

pub data Index : Type 0 where
  int_index : List ℤ → Index
  real_index : List ℕ → Index

module _ {A : Type 0} where
  abbrev element_at : List A → ℕ → Result A
  element_at source zero = aborted out_of_bounds
  element_at source (suc k) = elim (get_elem? source k) [
    | none ↦ aborted out_of_bounds
    | some a ↦ ok a
  ]

  -- ((int *)indx_ptr)[i] * typeSize is a product of type int.
  unfoldable pub fetch_int : ℕ → List A → ℤ → Result A
  fetch_int type_size source (negsuc n) = aborted out_of_bounds
  fetch_int type_size source (pos k) =
      if leb (2 ^ 31) (k * type_size) then aborted int_overflow else element_at source k

  unfoldable pub fetch_real : List A → ℕ → Result A
  fetch_real source k = element_at source k

  -- The loop, by what is fetched for one index.
  unfoldable pub fetch_all : {I : Type 0} → (I → Result A) → List I → Result (List A)
  fetch_all fetch [] = ok []
  fetch_all fetch (i ∷ indices) = elim (fetch i) [
    | ok a ↦ elim (fetch_all fetch indices) [
      | ok rest ↦ ok (a ∷ rest)
      | threw e ↦ threw e
      | aborted f ↦ aborted f
    ]
    | threw e ↦ threw e
    | aborted f ↦ aborted f
  ]

  unfoldable pub subset : ℕ → List A → Index → Result (List A)
  unfolding fetch_int fetch_real fetch_all
  subset type_size source (int_index indices) = fetch_all (fetch_int type_size source) indices
  subset type_size source (real_index indices) = fetch_all (fetch_real source) indices

  -- One element: the index counts from 1, and lies in the source.
  abbrev pub Selects : List A → ℕ → A → Type 0
  Selects source k a = (1 ≤ k) × (get_elem? source (k - 1) ≡ some a)

  -- Of an int index also the byte offset has to fit an `int`.
  abbrev pub SelectsInt : ℕ → List A → ℤ → A → Type 0
  SelectsInt type_size source (negsuc n) a = ⊥
  SelectsInt type_size source (pos k) a = (k * type_size < 2 ^ 31) × Selects source k a

  -- Index by index
  abbrev pub AllSelect : {I : Type 0} → (I → A → Type 0) → List I → List A → Type 0
  AllSelect P [] [] = Unit
  AllSelect P (i ∷ indices) (a ∷ values) = P i a × AllSelect P indices values
  AllSelect P _ _ = ⊥

  fetch_all-ok :
      {I : Type 0} (fetch : I → Result A) (P : I → A → Type 0)
      → ((i : I) (a : A) → (fetch i ≡ ok a → P i a) × (P i a → fetch i ≡ ok a))
      → (indices : List I) (values : List A)
      → (fetch_all fetch indices ≡ ok values → AllSelect P indices values)
        × (AllSelect P indices values → fetch_all fetch indices ≡ ok values)
  unfolding fetch_all
  fetch_all-ok fetch P one [] [] = (λ e. tt, λ s. refl)
  fetch_all-ok fetch P one [] (a ∷ values) = (λ e. cc, λ s. absurd s)
  fetch_all-ok fetch P one (i ∷ indices) [] = (λ e. absurd (ground arith), λ s. absurd s)
  fetch_all-ok fetch P one (i ∷ indices) (a ∷ values) =
      let (to, from) = fetch_all-ok fetch P one indices values in
      (
        λ e. ((one i a).0 (ground arith), to (ground arith)),
        λ s. ground (arith, (one i a).1 s.0, from s.1),
      )

  element_at-Selects :
      (source : List A) (k : ℕ) (a : A)
      → (element_at source k ≡ ok a → Selects source k a)
        × (Selects source k a → element_at source k ≡ ok a)
  element_at-Selects source zero a = (λ e. cc, λ s. absurd (omega arith))
  element_at-Selects source (suc k) a =
      let z : suc k - 1 ≡ k = omega arith in
      ((λ e. (omega arith, rw z (ground arith))), λ s. ground (arith, z, s.1))

  pub fetch_int-SelectsInt :
      (type_size : ℕ) (source : List A) (i : ℤ) (a : A)
      → (fetch_int type_size source i ≡ ok a → SelectsInt type_size source i a)
        × (SelectsInt type_size source i a → fetch_int type_size source i ≡ ok a)
  unfolding fetch_int
  fetch_int-SelectsInt type_size source (negsuc n) a = (λ e. cc, λ s. absurd s)
  fetch_int-SelectsInt type_size source (pos k) a =
      let (to, from) = element_at-Selects source k a in
      elim (Bool-cases (leb (2 ^ 31) (k * type_size))) [
        | inl over ↦ (λ e. absurd (ground arith), λ s. absurd (ground arith))
        | inr fits ↦ rw fits ((λ e. (ground arith, to e)), λ s. from s.1)
      ]

  -- A subset by int indices succeeds exactly where every index is from 1 to the length and its byte
  -- offset fits an `int`, and then it holds the elements at the indices, in order.
  pub subset_int_iff :
      (type_size : ℕ) (source : List A) (indices : List ℤ) (values : List A)
      → (subset type_size source (int_index indices) ≡ ok values)
        ↔ AllSelect (SelectsInt type_size source) indices values
  unfolding subset
  subset_int_iff type_size source indices values =
      fetch_all-ok (fetch_int type_size source) (SelectsInt type_size source)
        (fetch_int-SelectsInt type_size source) indices values

  -- A subset by double indices succeeds exactly where every index is from 1 to the length, and then
  -- it holds the elements at the indices, in order.
  pub subset_real_iff :
      (type_size : ℕ) (source : List A) (indices : List ℕ) (values : List A)
      → (subset type_size source (real_index indices) ≡ ok values)
        ↔ AllSelect (Selects source) indices values
  unfolding subset fetch_real
  subset_real_iff type_size source indices values =
      fetch_all-ok (fetch_real source) (Selects source) (element_at-Selects source) indices values
