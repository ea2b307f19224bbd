-- ===== src/Altrep/StringVector/Shown.antt =====
-- What the methods of src/stringAltrepOperations.cpp make of a vector whose index in shared memory
-- decodes to known strings.
use shared_object.Prelude.{
  ℕ, ◌≡◌, refl, ap, ◌∙◌, List, true, false, none, some, length, get_elem?, ok, Bool-cases, inl, inr,
  if◌then◌else◌, arith,
}
use shared_object.Os.{Os}
use shared_object.SharedMemory.{Process}
use shared_object.Altrep.StringVector.{CharSxp, StringVector, is_unit, unshare_from}
use shared_object.Altrep.StringVector as Strings
use shared_object.Altrep.StringVector.Operations as Methods
use shared_object.Altrep.StringVector.RoundTrip.{Decoded, unshare_from-Decoded}
use shared_object.Altrep.StringVector.Writes.{elt-Decoded}
use shared_object.Altrep.StringVector.InMemory.{
  SharedString, index_bytes, view, unshare_string, elt, duplicate, dataptr, unshared_copy, alias,
  duplicate_of, keep_strings,
}

methods-shown :
    (w : StringVector) (x : List CharSxp)
    → Strings.unshare_string w ≡ ok x
    → (w.copy_on_write ≡ true → Methods.duplicate w ≡ ok (Methods.plain x))
      × (w.copy_on_write ≡ false → Methods.duplicate w ≡ ok (Methods.shared w))
      × (w.strvec ≡ none → Methods.dataptr w ≡ ok (x, record w { strvec = some x }))
unfolding Methods.duplicate Methods.dataptr
methods-shown w x shown =
    ((λ e. rw (shown, e) refl), (λ e. rw e refl), λ uncached. ground (arith, uncached, shown))

module _ (os : Os) where
  -- The vector shows `x` in the memory of the process.
  pub record Shows (v : SharedString os) (x : List CharSxp) (p : Process os) : Type 0 where
    pub known : is_unit v.unit_size ≡ true
    pub counted : v.vector_length ≡ length x
    pub decoded : Decoded v.unit_size v.charset (index_bytes os v.index p) 0 x

  pub unshare_string-Shows :
      (v : SharedString os) (x : List CharSxp) (p : Process os)
      → Shows v x p
      → unshare_string os v p ≡ ok x
  unfolding unshare_string Strings.unshare_string view
  unshare_string-Shows v x p s =
      ap (unshare_from (view os v p) 0) s.counted
      ∙ unshare_from-Decoded (view os v p) 0 x s.known s.decoded

  pub elt-Shows :
      (v : SharedString os) (x : List CharSxp) (p : Process os) (i : ℕ) (c : CharSxp)
      → v.strvec ≡ none
      → Shows v x p
      → get_elem? x i ≡ some c
      → elt os v i p ≡ ok (some c)
  unfolding elt view
  elt-Shows v x p i c uncached s at = elt-Decoded (view os v p) x i c uncached s.known s.decoded at

  -- A vector shows the strings `x` in the memory of a process. sharedString_duplicate gives them as a
  -- vector of R's own where the vector is copied on write, and another vector on the same data where
  -- it is not. sharedString_dataptr gives them where no strings are kept, and keeps them.
  pub duplicate-dataptr-Shows :
      (v : SharedString os) (x : List CharSxp) (p : Process os)
      → Shows v x p
      → (duplicate os v p ≡ ok (if v.copy_on_write then unshared_copy x else alias v))
        × (v.strvec ≡ none → dataptr os v p ≡ ok (x, record v { strvec = some x }))
  unfolding duplicate dataptr view
  duplicate-dataptr-Shows v x p s =
      let shown : Strings.unshare_string (view os v p) ≡ ok x =
        unfold unshare_string in unshare_string-Shows v x p s in
      let (copied, kept, cached) = methods-shown (view os v p) x shown in
      (
        elim (Bool-cases v.copy_on_write) [
          | inl e ↦ ap (duplicate_of os v) (copied e) ∙ rw e refl
          | inr e ↦ ap (duplicate_of os v) (kept e) ∙ rw e refl
        ],
        λ uncached. ap (keep_strings os v) (cached uncached),
      )
