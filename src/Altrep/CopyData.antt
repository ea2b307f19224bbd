-- ===== src/Altrep/CopyData.antt =====
-- copyData of src/utils.cpp: a vector without a data pointer is copied region by region. The regions
-- that ITERATE_BY_REGION hands out are an argument: consecutive, and together the source.
use shared_object.Prelude.{
  ℕ, zero, suc, ◌+◌, ◌*◌, ◌≤◌, ◌<◌, ◌≡◌, ◌≢◌, refl, ap, List, [], ◌∷◌, ◌++◌, leb, if◌then◌else◌,
  arith, length, take, drop, length-append, length-take, length-drop, Bool-cases, inl, inr, ◌⊎◌,
  Result, ok, threw, aborted, out_of_bounds,
}
use mathlib.Core.List.{append_assoc}

-- The types of the five branches.
pub data VectorType : Type 0 where
  raw logical integer real complex : VectorType

-- target + ind * nbatch; only the integer branch has target + ind.
unfoldable pub region_offset : VectorType → ℕ → ℕ → ℕ
region_offset integer ind nbatch = ind
region_offset raw ind nbatch = ind * nbatch
region_offset logical ind nbatch = ind * nbatch
region_offset real ind nbatch = ind * nbatch
region_offset complex ind nbatch = ind * nbatch

scaled_offset :
    (type : VectorType) (ind nbatch : ℕ)
    → type ≢ integer
    → region_offset type ind nbatch ≡ ind * nbatch
unfolding region_offset
scaled_offset type ind nbatch differs = ground arith

module _ {ℓ} {A : Type ℓ} where
  -- memcpy of whole elements into a vector
  unfoldable pub memcpy : ℕ → List A → List A → Result (List A)
  memcpy off source target =
      if leb (off + length source) (length target)
      then ok (take off target ++ (source ++ drop (off + length source) target))
      else aborted out_of_bounds

  -- The body of the loop at each region, `ind` elements into the source.
  unfoldable pub copy_regions : VectorType → ℕ → List (List A) → List A → Result (List A)
  copy_regions type ind [] target = ok target
  copy_regions type ind (region ∷ regions) target =
      elim (memcpy (region_offset type ind (length region)) region target) [
        | ok target' ↦ copy_regions type (ind + length region) regions target'
        | threw e ↦ threw e
        | aborted f ↦ aborted f
      ]

  unfoldable pub copy_data : VectorType → List (List A) → List A → Result (List A)
  copy_data type regions target = copy_regions type 0 regions target

  abbrev pub concat : List (List A) → List A
  concat [] = []
  concat (region ∷ regions) = region ++ concat regions

  memcpy-value :
      (off : ℕ) (source target target' : List A)
      → memcpy off source target ≡ ok target'
      → (off + length source ≤ length target)
        × (target' ≡ take off target ++ (source ++ drop (off + length source) target))
  unfolding memcpy
  memcpy-value off source target target' e = ground arith

  length-memcpy :
      (off : ℕ) (source target target' : List A)
      → memcpy off source target ≡ ok target'
      → length target' ≡ length target
  length-memcpy off source target target' e =
      let (fits, value) = memcpy-value off source target target' e in
      rw value (
        omega (
          arith,
          length-append (take off target) (source ++ drop (off + length source) target),
          length-append source (drop (off + length source) target),
          length-take off target,
          length-drop (off + length source) target,
        ))

  take-length : (done rest : List A) → take (length done) (done ++ rest) ≡ done
  take-length [] rest = refl
  take-length (x ∷ done) rest = ap {A = List A} (λ t. x ∷ t) (take-length done rest)

  drop-length : (done rest : List A) (n : ℕ) → drop (length done + n) (done ++ rest) ≡ drop n rest
  drop-length [] rest n = rw (let z : 0 + n ≡ n = omega arith in z)
  drop-length (x ∷ done) rest n =
      rw (let z : suc (length done) + n ≡ suc (length done + n) = omega arith in z)
        (drop-length done rest n)

  memcpy-append :
      (done region rest : List A)
      → length region ≤ length rest
      → memcpy (length done) region (done ++ rest)
        ≡ ok (done ++ (region ++ drop (length region) rest))
  unfolding memcpy
  memcpy-append done region rest h =
      ground (
        arith,
        length-append done rest,
        take-length done rest,
        drop-length done rest (length region),
      )

  drop_all : (n : ℕ) (xs : List A) → length xs ≤ n → drop n xs ≡ []
  drop_all zero [] h = refl
  drop_all zero (x ∷ xs) h = absurd (omega arith)
  drop_all (suc n) [] h = refl
  drop_all (suc n) (x ∷ xs) h = drop_all n xs (omega arith)

  integer_from :
      (done : List A) (regions : List (List A)) (rest : List A)
      → length rest ≡ length (concat regions)
      → copy_regions integer (length done) regions (done ++ rest) ≡ ok (done ++ concat regions)
  unfolding copy_regions region_offset
  integer_from done [] [] h = refl
  integer_from done [] (x ∷ rest) h = absurd (omega arith)
  integer_from done (region ∷ regions) rest h =
      let left = drop (length region) rest in
      rw
        (
          memcpy-append done region rest (omega (arith, length-append region (concat regions))),
          copy_regions,
        )
        (rw
          (
            ← length-append done region,
            ← append_assoc done region left,
            ← append_assoc done region (concat regions),
          )
          (integer_from (done ++ region) regions left (
            omega
              (arith, length-append region (concat regions), length-drop (length region) rest))))

  -- The copy of an integer vector into a target of its length is the vector, however it is divided
  -- into regions.
  pub copy_data-integer :
      (regions : List (List A)) (target : List A)
      → length target ≡ length (concat regions)
      → copy_data integer regions target ≡ ok (concat regions)
  unfolding copy_data
  copy_data-integer regions target h = integer_from [] regions target h

  memcpy-cases :
      (off : ℕ) (source target : List A)
      → (memcpy off source target ≡ aborted out_of_bounds)
        ⊎ ((target' : List A) × (memcpy off source target ≡ ok target'))
  unfolding memcpy
  memcpy-cases off source target = elim (Bool-cases (leb (off + length source) (length target))) [
    | inl fits ↦ inr (take off target ++ (source ++ drop (off + length source) target), rw fits)
    | inr over ↦ inl (rw over)
  ]

  memcpy_beyond :
      (off : ℕ) (source target : List A)
      → length target < off + length source
      → memcpy off source target ≡ aborted out_of_bounds
  unfolding memcpy
  memcpy_beyond off source target h = ground arith

  overruns :
      (type : VectorType) (ind : ℕ) (last target : List A)
      → type ≢ integer
      → 1 ≤ ind
      → 2 ≤ length last
      → length target ≡ ind + length last
      → copy_regions type ind (last ∷ []) target ≡ aborted out_of_bounds
  unfolding copy_regions
  overruns type ind last target differs h long size =
      rw (memcpy_beyond (region_offset type ind (length last)) last target past, copy_regions)
    where
      far : (i n : ℕ) → 1 ≤ i → 2 ≤ n → i + n < i * n + n
      far i n hi hn = grind arith

      past : length target < region_offset type ind (length last) + length last
      past =
          omega (arith, scaled_offset type ind (length last) differs, far ind (length last) h long)

  overruns_from :
      (type : VectorType) (ind : ℕ) (regions : List (List A)) (last target : List A)
      → type ≢ integer
      → 1 ≤ ind + length (concat regions)
      → 2 ≤ length last
      → length target ≡ ind + length (concat regions) + length last
      → copy_regions type ind (regions ++ last ∷ []) target ≡ aborted out_of_bounds
  unfolding copy_regions
  overruns_from type ind [] last target differs h long size =
      overruns type ind last target differs (omega arith) long (omega arith)
  overruns_from type ind (region ∷ regions) last target differs h long size =
      let total : ind + length region + length (concat regions)
          ≡ ind + length (concat (region ∷ regions)) =
        omega (arith, length-append region (concat regions)) in
      elim (memcpy-cases (region_offset type ind (length region)) region target) [
        | inl over ↦ rw (over, copy_regions)
        | inr (target', e) ↦
            rw (e, copy_regions)
              (overruns_from type (ind + length region) regions last target' differs
                (omega (arith, total)) long
                (omega (
                  arith,
                  total,
                  length-memcpy (region_offset type ind (length region)) region target target' e,
                )))
      ]

  -- A vector of any other type, with a target of its length, is not copied where its last region
  -- has two elements or more and is not all of it: some region is written outside of the target.
  pub copy_data_overruns :
      (type : VectorType) (regions : List (List A)) (last target : List A)
      → type ≢ integer
      → 1 ≤ length (concat regions)
      → 2 ≤ length last
      → length target ≡ length (concat regions) + length last
      → copy_data type (regions ++ last ∷ []) target ≡ aborted out_of_bounds
  unfolding copy_data
  copy_data_overruns type regions last target differs h long size =
      overruns_from type 0 regions last target differs (omega arith) long (omega arith)
