-- ===== src/Altrep/StringVector/Charset.antt =====
-- The set of unique strings: every string of the source is in it, under a number below its size,
-- and the character set holds it at that number.
use shared_object.Prelude.{
  ℕ, zero, suc, ◌+◌, ◌-◌, ◌≤◌, ◌<◌, ◌≡◌, refl, ap, ◌∙◌, List, [], ◌∷◌, ◌++◌, none, some,
  Option-cases, Bool-cases, inl, inr, ◌==◌, arith, length, get_elem?, set, replicate, length-set,
  length-replicate, get_elem?-set_self, get_elem?-set_ne,
}
use shared_object.Altrep.StringVector.{CharSxp, find_char, unique_chars, fill_charset}

abbrev Chars : Type 0
Chars = List (CharSxp × ℕ)

-- The entries carry the numbers from `k` on.
abbrev Numbered : ℕ → Chars → Type 0
Numbered k [] = Unit
Numbered k ((c, i) ∷ chars) = (i ≡ k) × Numbered (suc k) chars

Numbered-append :
    (k : ℕ) (chars : Chars) (c : CharSxp)
    → Numbered k chars
    → Numbered k (chars ++ (c, k + length chars) ∷ [])
Numbered-append k [] c h = (omega arith, tt)
Numbered-append k ((d, i) ∷ chars) c h = (
  h.0,
  rw (let e : k + suc (length chars) ≡ suc k + length chars = omega arith in e)
      (Numbered-append (suc k) chars c h.1),
)

find_char-append :
    (c : CharSxp) (chars rest : Chars) (i : ℕ)
    → find_char c chars ≡ some i
    → find_char c (chars ++ rest) ≡ some i
unfolding find_char
find_char-append c [] rest i h = cc
find_char-append c ((d, j) ∷ chars) rest i h = ground (arith, find_char-append c chars rest i)

find_char-append_new :
    (c : CharSxp) (chars : Chars) (i : ℕ)
    → find_char c chars ≡ none
    → find_char c (chars ++ (c, i) ∷ []) ≡ some i
unfolding find_char
find_char-append_new c [] i h = ground arith
find_char-append_new c ((d, j) ∷ chars) i h = ground (arith, find_char-append_new c chars i)

-- one round of the loop
add_char : CharSxp → Chars → Chars
add_char c chars = elim (find_char c chars) [
  | none ↦ chars ++ (c, length chars) ∷ []
  | some i ↦ chars
]

add_char_new :
    (c : CharSxp) (chars : Chars)
    → find_char c chars ≡ none
    → add_char c chars ≡ chars ++ (c, 0 + length chars) ∷ []
unfolding add_char
add_char_new c chars e = ground arith

add_char_old :
    (c : CharSxp) (chars : Chars) (i : ℕ) → find_char c chars ≡ some i → add_char c chars ≡ chars
unfolding add_char
add_char_old c chars i e = ground arith

add_char-Numbered : (c : CharSxp) (chars : Chars) → Numbered 0 chars → Numbered 0 (add_char c chars)
add_char-Numbered c chars h = elim (Option-cases (find_char c chars)) [
  | inl e ↦ rw (add_char_new c chars e) (Numbered-append 0 chars c h)
  | inr (i, e) ↦ rw (add_char_old c chars i e) h
]

add_char-keeps :
    (c d : CharSxp) (chars : Chars) (i : ℕ)
    → find_char d chars ≡ some i
    → find_char d (add_char c chars) ≡ some i
unfolding add_char
add_char-keeps c d chars i h = ground (arith, find_char-append d chars ((c, length chars) ∷ []) i h)

add_char-found : (c : CharSxp) (chars : Chars) → (i : ℕ) × (find_char c (add_char c chars) ≡ some i)
add_char-found c chars = elim (Option-cases (find_char c chars)) [
  | inl e ↦
      rw (add_char_new c chars e)
        (0 + length chars, find_char-append_new c chars (0 + length chars) e)
  | inr (i, e) ↦ rw (add_char_old c chars i e) (i, e)
]

unique_chars-step :
    (c : CharSxp) (x : List CharSxp) (chars : Chars)
    → unique_chars (c ∷ x) chars ≡ unique_chars x (add_char c chars)
unfolding unique_chars add_char
unique_chars-step c x chars = refl

unique_chars-Numbered :
    (x : List CharSxp) (chars : Chars) → Numbered 0 chars → Numbered 0 (unique_chars x chars)
unfolding unique_chars
unique_chars-Numbered [] chars h = h
unique_chars-Numbered (c ∷ x) chars h =
    rw (unique_chars-step c x chars)
      (unique_chars-Numbered x (add_char c chars) (add_char-Numbered c chars h))

unique_chars-keeps :
    (x : List CharSxp) (chars : Chars) (d : CharSxp) (i : ℕ)
    → find_char d chars ≡ some i
    → find_char d (unique_chars x chars) ≡ some i
unfolding unique_chars
unique_chars-keeps [] chars d i h = h
unique_chars-keeps (c ∷ x) chars d i h =
    rw (unique_chars-step c x chars)
      (unique_chars-keeps x (add_char c chars) d i (add_char-keeps c d chars i h))

abbrev AllFound : List CharSxp → Chars → Type 0
AllFound [] chars = Unit
AllFound (c ∷ x) chars = ((i : ℕ) × (find_char c chars ≡ some i)) × AllFound x chars

unique_chars-AllFound : (x : List CharSxp) (chars : Chars) → AllFound x (unique_chars x chars)
unique_chars-AllFound [] chars = tt
unique_chars-AllFound (c ∷ x) chars = rw (unique_chars-step c x chars) (
  (
    (add_char-found c chars).0,
    unique_chars-keeps x (add_char c chars) c (add_char-found c chars).0 (add_char-found c chars).1,
  ),
  unique_chars-AllFound x (add_char c chars),
)

-- The string that carries a number.
abbrev keys : Chars → List CharSxp
keys [] = []
keys ((c, i) ∷ chars) = c ∷ keys chars

find_char-position :
    (c : CharSxp) (k : ℕ) (chars : Chars) (i : ℕ)
    → Numbered k chars
    → find_char c chars ≡ some i
    → (k ≤ i) × (i < k + length chars) × (get_elem? (keys chars) (i - k) ≡ some c)
unfolding find_char
find_char-position c k [] i h e = cc
find_char-position c k ((d, j) ∷ chars) i h e = elim (Bool-cases (d == c)) [
  | inl same ↦ ground arith
  | inr differs ↦
      let rest = find_char-position c (suc k) chars i h.1 (ground arith) in
      (omega arith, omega arith, rw (let z : i - k ≡ suc (i - suc k) = omega arith in z) rest.2)
]

length-fill_charset :
    (chars : Chars) (charset : List CharSxp) → length (fill_charset chars charset) ≡ length charset
unfolding fill_charset
length-fill_charset [] charset = refl
length-fill_charset ((c, i) ∷ chars) charset =
    length-fill_charset chars (set charset i c) ∙ length-set charset i c

fill_charset_below :
    (k : ℕ) (chars : Chars) (charset : List CharSxp) (j : ℕ)
    → Numbered k chars
    → j < k
    → get_elem? (fill_charset chars charset) j ≡ get_elem? charset j
unfolding fill_charset
fill_charset_below k [] charset j h lt = refl
fill_charset_below k ((c, i) ∷ chars) charset j h lt =
    fill_charset_below (suc k) chars (set charset i c) j h.1 (omega arith)
    ∙ get_elem?-set_ne charset c (omega (arith, h.0))

fill_charset_at :
    (k : ℕ) (chars : Chars) (charset : List CharSxp) (j : ℕ)
    → Numbered k chars
    → k + length chars ≤ length charset
    → j < length chars
    → get_elem? (fill_charset chars charset) (k + j) ≡ get_elem? (keys chars) j
unfolding fill_charset
fill_charset_at k [] charset j h room lt = absurd (omega arith)
fill_charset_at k ((c, i) ∷ chars) charset zero h room lt =
    fill_charset_below (suc k) chars (set charset i c) (k + 0) h.1 (omega arith)
    ∙ rw (let z : k + 0 ≡ i = omega (arith, h.0) in z)
        (get_elem?-set_self charset i c (omega (arith, h.0)))
fill_charset_at k ((c, i) ∷ chars) charset (suc j) h room lt =
    rw (let z : k + suc j ≡ suc k + j = omega arith in z) (
      fill_charset_at (suc k) chars (set charset i c) j h.1 (omega (arith, length-set charset i c))
        (omega arith))

-- Each string of `x` has a number below the size of the set, at which the character set holds it.
abbrev pub Coded : Chars → List CharSxp → List CharSxp → Type 0
Coded chars charset [] = Unit
Coded chars charset (c ∷ x) =
    ((k : ℕ) × (find_char c chars ≡ some k) × (k < length chars) × (get_elem? charset k ≡ some c))
    × Coded chars charset x

AllFound-Coded :
    (chars : Chars) (blanks : List CharSxp) (x : List CharSxp)
    → Numbered 0 chars
    → length chars ≤ length blanks
    → AllFound x chars
    → Coded chars (fill_charset chars blanks) x
AllFound-Coded chars blanks [] h room found = tt
AllFound-Coded chars blanks (c ∷ x) h room ((k, e), found) =
    let place = find_char-position c 0 chars k h e in
    (
      (
        k,
        e,
        omega (arith, place.1),
        ap (get_elem? (fill_charset chars blanks)) (let z : k ≡ 0 + k = omega arith in z)
            ∙ fill_charset_at 0 chars blanks k h (omega arith) (omega (arith, place.1))
            ∙ ap (get_elem? (keys chars)) (let z : k ≡ k - 0 = omega arith in z)
            ∙ place.2,
      ),
      AllFound-Coded chars blanks x h room found,
    )

-- The character set of createSharedStringFromSource codes the source.
pub source-Coded :
    (blank : CharSxp) (x : List CharSxp)
    → Coded
        (unique_chars x [])
        (fill_charset (unique_chars x []) (replicate (length (unique_chars x [])) blank))
        x
source-Coded blank x =
    AllFound-Coded (unique_chars x []) _ x (unique_chars-Numbered x [] tt)
      (omega (arith, length-replicate (length (unique_chars x [])) blank))
      (unique_chars-AllFound x [])
