-- ===== src/Altrep/SharedVector/Selections.antt =====
-- The elements of a vector by their bytes, and a selection of them: how long they are.
use native.Mathlib.Nat.{mul-suc}
use shared_object.Prelude.{
  ℕ, zero, suc, ◌*◌, ◌-◌, ◌≡◌, some, List, [], ◌∷◌, ℤ, pos, negsuc, length, get_elem?, drop,
  length-take, length-drop, length-append, arith,
}
use shared_object.Altrep.CopyData.{concat}
use shared_object.Altrep.Subset.{AllSelect, SelectsInt}
use shared_object.Altrep.SharedVector.Operations.{elements_of}

length-element :
    (size n : ℕ) (bytes : List ℕ) (k : ℕ) (a : List ℕ)
    → length bytes ≡ size * n
    → get_elem? (elements_of size n bytes) k ≡ some a
    → length a ≡ size
length-element size zero bytes k a long e = cc
length-element size (suc n) bytes zero a long e =
    ground (arith, length-take size bytes, mul-suc size n)
length-element size (suc n) bytes (suc k) a long e =
    length-element size n (drop size bytes) k a
      (omega (arith, length-drop size bytes, mul-suc size n)) e

-- A selection from elements of one size
pub length-selected :
    (size n : ℕ) (bytes : List ℕ) (indices : List ℤ) (values : List (List ℕ))
    → length bytes ≡ size * n
    → AllSelect (SelectsInt size (elements_of size n bytes)) indices values
    → length (concat values) ≡ size * length indices
length-selected size n bytes [] [] long s = omega arith
length-selected size n bytes [] (a ∷ values) long s = absurd s
length-selected size n bytes (i ∷ indices) [] long s = absurd s
length-selected size n bytes (negsuc i ∷ indices) (a ∷ values) long s = absurd s.0
length-selected size n bytes (pos i ∷ indices) (a ∷ values) long s =
    let here = length-element size n bytes (i - 1) a long s.0.1.1 in
    let rest = length-selected size n bytes indices values long s.1 in
    omega (arith, length-append a (concat values), here, rest, mul-suc size (length indices))
