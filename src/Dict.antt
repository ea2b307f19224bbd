-- ===== src/Dict.antt =====
-- `std::map` from texts, as src/sharedMemory.cpp uses it for `sharedObjectList` and `mapCounter`.
-- Clients have `dict_laws`; the order of the entries is not modelled.
use shared_object.Prelude.{
  String, ◌≡◌, refl, Option, none, some, List, [], ◌∷◌, arith, str_eq, eq_iff, if◌then◌else◌,
}

pub record Dict {ℓ} (V : Type ℓ) : Type ℓ where
  pub entries : List (String × V)

module _ {ℓ} {V : Type ℓ} where
  find_entry : String → List (String × V) → Option V
  find_entry k [] = none
  find_entry k ((j, v) ∷ l) = if str_eq j k then some v else find_entry k l

  drop_entry : String → List (String × V) → List (String × V)
  drop_entry k [] = []
  drop_entry k ((j, v) ∷ l) =
      let rest = drop_entry k l in if str_eq j k then rest else (j, v) ∷ rest

  put_entry : String → V → List (String × V) → List (String × V)
  put_entry k v [] = (k, v) ∷ []
  put_entry k v ((j, u) ∷ l) = if str_eq j k then (k, v) ∷ l else (j, u) ∷ put_entry k v l

  pub empty : Dict V
  empty = record { entries = [] }

  -- m.find(k), none at m.end()
  unfoldable pub lookup : String → Dict V → Option V
  unfolding find_entry empty
  lookup k d = find_entry k d.entries

  -- m[k] = v, and m.emplace(k, v) where k is missing
  unfoldable pub insert : String → V → Dict V → Dict V
  unfolding put_entry
  insert k v d = record { entries = put_entry k v d.entries }

  -- m.erase(k)
  unfoldable pub erase : String → Dict V → Dict V
  unfolding drop_entry
  erase k d = record { entries = drop_entry k d.entries }

  find_entry-drop_entry :
      (k j : String) (l : List (String × V))
      → find_entry j (drop_entry k l) ≡ (if str_eq k j then none else find_entry j l)
  unfolding find_entry drop_entry
  find_entry-drop_entry k j [] = ground arith
  find_entry-drop_entry k j ((i, v) ∷ l) =
      ground (arith, find_entry-drop_entry k j l, eq_iff i k, eq_iff i j, eq_iff k j)

  find_entry-put_entry :
      (k j : String) (v : V) (l : List (String × V))
      → find_entry j (put_entry k v l) ≡ (if str_eq k j then some v else find_entry j l)
  unfolding find_entry put_entry
  find_entry-put_entry k j v [] = refl
  find_entry-put_entry k j v ((i, u) ∷ l) =
      ground (arith, find_entry-put_entry k j v l, eq_iff i k, eq_iff i j, eq_iff k j)

  pub lookup-insert :
      (k j : String) (v : V) (d : Dict V)
      → lookup j (insert k v d) ≡ (if str_eq k j then some v else lookup j d)
  unfolding lookup insert
  lookup-insert k j v d = find_entry-put_entry k j v d.entries

  pub lookup-erase :
      (k j : String) (d : Dict V) → lookup j (erase k d) ≡ (if str_eq k j then none else lookup j d)
  unfolding lookup erase
  lookup-erase k j d = find_entry-drop_entry k j d.entries

pub lookup-empty {ℓ} : {V : Type ℓ} (k : String) → lookup k (empty {V = V}) ≡ none
unfolding lookup empty
lookup-empty k = refl

pub ruleset dict_laws = (lookup-empty, lookup-insert, lookup-erase)
