-- ===== src/Altrep/StringVector/Renamed.antt =====
-- The character set of a shared character vector, with each string as another process has it.
use shared_object.Prelude.{
  ℕ, zero, suc, Option-cases, ◌≡◌, List, [], ◌∷◌, map, some, arith, get_elem?, Result, ok, threw,
  aborted, inl, inr,
}
use shared_object.Altrep.Bytes.{read_cell}
use shared_object.Altrep.StringVector.{CharSxp, charset_at}
use shared_object.Altrep.StringVector.RoundTrip.{Decoded}

-- The character set as the other process has it
pub get_elem?-map-some :
    (f : CharSxp → CharSxp) (l : List CharSxp) (k : ℕ) (c : CharSxp)
    → get_elem? l k ≡ some c
    → get_elem? (map f l) k ≡ some (f c)
get_elem?-map-some f [] k c e = cc
get_elem?-map-some f (d ∷ l) zero c e = ground arith
get_elem?-map-some f (d ∷ l) (suc k) c e = get_elem?-map-some f l k c e

charset_at-map :
    (f : CharSxp → CharSxp) (charset : List CharSxp) (r : Result ℕ) (c : CharSxp)
    → charset_at charset r ≡ ok c
    → charset_at (map f charset) r ≡ ok (f c)
charset_at-map f charset (ok k) c e = elim (Option-cases (get_elem? charset k)) [
  | inl absent ↦ absurd (ground arith)
  | inr (d, at) ↦ ground (arith, get_elem?-map-some f charset k d at)
]
charset_at-map f charset (threw x) c e = cc
charset_at-map f charset (aborted x) c e = cc

pub Decoded-map :
    (f : CharSxp → CharSxp) (unit : ℕ) (charset : List CharSxp) (index : List ℕ) (i : ℕ)
    (x : List CharSxp)
    → Decoded unit charset index i x
    → Decoded unit (map f charset) index i (map f x)
Decoded-map f unit charset index i [] d = tt
Decoded-map f unit charset index i (c ∷ x) d = (
  charset_at-map f charset (read_cell unit i index) c d.0,
  Decoded-map f unit charset index (suc i) x d.1,
)
