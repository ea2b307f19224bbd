-- ===== src/Altrep/Subset/Faults.antt =====
-- sharedVector_subset of src/numericAltrepOperations.cpp by int indices: the indices at which it is a
-- fault.
use shared_object.Prelude.{
  ℕ, ◌*◌, ◌^◌, ◌≤◌, ◌<◌, ◌≡◌, List, ◌∷◌, ℤ, pos, negsuc, length, Result, ok, threw, aborted,
  out_of_bounds, int_overflow, Fault, ◌⊎◌, ◌++◌,
}
use shared_object.Altrep.Subset.{SelectsInt, AllSelect}

module _ {A : Type 0} where
  -- How one int index fails: its byte offset does not fit an `int`, or it does and the index is not
  -- from 1 to the length.
  abbrev pub Fails : ℕ → List A → Fault → ℤ → Type 0
  Fails type_size source f (negsuc n) = f ≡ out_of_bounds
  Fails type_size source f (pos k) =
      ((2 ^ 31 ≤ k * type_size) × (f ≡ int_overflow))
      ⊎ ((k * type_size < 2 ^ 31) × ((k ≡ 0) ⊎ (length source < k)) × (f ≡ out_of_bounds))

  -- A first index that fails, after indices that select values
  abbrev pub FirstFails : ℕ → List A → Fault → List ℤ → Type 0
  FirstFails type_size source f indices =
      (before : List ℤ) × (i : ℤ) × (rest : List ℤ) × (values : List A) × (indices
        ≡ before ++ i ∷ rest)
      × AllSelect (SelectsInt type_size source) before values
      × Fails type_size source f i

  with_value : A → Result (List A) → Result (List A)
  with_value a r = elim r [ ok rest ↦ ok (a ∷ rest) | threw e ↦ threw e | aborted f ↦ aborted f ]
