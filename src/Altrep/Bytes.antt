-- ===== src/Altrep/Bytes.antt =====
-- Memory of a vector as a list of bytes, and the `uint8_t` to `uint64_t` cells that the casts of its
-- pointer read and write. Integers are stored low byte first.
use native.Mathlib.Nat.{pow-suc}
use shared_object.Prelude.{
  ℕ, zero, suc, ◌+◌, ◌*◌, ◌/◌, ◌%◌, ◌^◌, ◌≤◌, ◌<◌, ◌≡◌, ◌≢◌, ◌⊎◌, inl, inr, ap, refl, ◌∙◌, List, [],
  ◌∷◌, arith, length, get_or, set, length-set, leb, if◌then◌else◌, Result, ok, aborted,
  out_of_bounds,
}

unfoldable pub load : ℕ → ℕ → List ℕ → ℕ
load zero off bytes = 0
load (suc w) off bytes = get_or bytes off 0 + 256 * load w (suc off) bytes

unfoldable pub store : ℕ → ℕ → ℕ → List ℕ → List ℕ
store zero off v bytes = bytes
store (suc w) off v bytes = store w (suc off) (v / 256) (set bytes off (v % 256))

-- ((uintN_t *)ptr)[i] for cells of `w` bytes
unfoldable pub read_cell : ℕ → ℕ → List ℕ → Result ℕ
read_cell w i bytes =
    if leb (i * w + w) (length bytes) then ok (load w (i * w) bytes) else aborted out_of_bounds

unfoldable pub write_cell : ℕ → ℕ → ℕ → List ℕ → Result (List ℕ)
write_cell w i v bytes =
    if leb (i * w + w) (length bytes) then ok (store w (i * w) v bytes) else aborted out_of_bounds

pub length-store : (w off v : ℕ) (bytes : List ℕ) → length (store w off v bytes) ≡ length bytes
unfolding store
length-store zero off v bytes = refl
length-store (suc w) off v bytes =
    length-store w (suc off) (v / 256) (set bytes off (v % 256)) ∙ length-set bytes off (v % 256)

get_or-set_self : (bytes : List ℕ) (i v : ℕ) → i < length bytes → get_or (set bytes i v) i 0 ≡ v
get_or-set_self [] i v h = elim h [ ]
get_or-set_self (x ∷ bytes) zero v h = refl
get_or-set_self (x ∷ bytes) (suc i) v h = get_or-set_self bytes i v (omega arith)

get_or-set_ne : (bytes : List ℕ) (i j v : ℕ) → i ≢ j → get_or (set bytes i v) j 0 ≡ get_or bytes j 0
get_or-set_ne [] i j v h = refl
get_or-set_ne (x ∷ bytes) zero zero v h = absurd (h refl)
get_or-set_ne (x ∷ bytes) zero (suc j) v h = refl
get_or-set_ne (x ∷ bytes) (suc i) zero v h = refl
get_or-set_ne (x ∷ bytes) (suc i) (suc j) v h = get_or-set_ne bytes i j v (λ e. h (ap suc e))

-- A byte outside of the cell keeps its value.
get_or-store :
    (w off v : ℕ) (bytes : List ℕ) (j : ℕ)
    → (j < off) ⊎ (off + w ≤ j)
    → get_or (store w off v bytes) j 0 ≡ get_or bytes j 0
unfolding store
get_or-store zero off v bytes j h = refl
get_or-store (suc w) off v bytes j h =
    get_or-store w (suc off) (v / 256) (set bytes off (v % 256)) j (omega arith)
    ∙ get_or-set_ne bytes off j (v % 256) (omega arith)

-- What a cell reads outside of the cell that is written.
pub load-store_ne :
    (u off' w off v : ℕ) (bytes : List ℕ)
    → (off' + u ≤ off) ⊎ (off + w ≤ off')
    → load u off' (store w off v bytes) ≡ load u off' bytes
unfolding load
load-store_ne zero off' w off v bytes h = refl
load-store_ne (suc u) off' w off v bytes h = omega (
  arith,
  get_or-store w off v bytes off' (omega arith),
  load-store_ne u (suc off') w off v bytes (omega arith),
)

-- A cell reads back what was written, if that fits the cell.
load-store_self :
    (w off v : ℕ) (bytes : List ℕ)
    → v < 256 ^ w
    → off + w ≤ length bytes
    → load w off (store w off v bytes) ≡ v
unfolding load store
load-store_self zero off v bytes fits inside = omega arith
load-store_self (suc w) off v bytes fits inside = omega (
  arith,
  load-store_self w (suc off) (v / 256) (set bytes off (v % 256)) (omega (arith, pow-suc 256 w))
      (omega (arith, length-set bytes off (v % 256))),
  get_or-store w (suc off) (v / 256) (set bytes off (v % 256)) off (omega arith),
  get_or-set_self bytes off (v % 256) (omega arith),
)

pub length-write_cell :
    (w i v : ℕ) (bytes bytes' : List ℕ)
    → write_cell w i v bytes ≡ ok bytes'
    → length bytes' ≡ length bytes
unfolding write_cell
length-write_cell w i v bytes bytes' e = ground (arith, length-store w (i * w) v bytes)

pub write_cell-ok :
    (w i v : ℕ) (bytes : List ℕ)
    → i * w + w ≤ length bytes
    → write_cell w i v bytes ≡ ok (store w (i * w) v bytes)
unfolding write_cell
write_cell-ok w i v bytes h = ground arith

pub read_cell-write_cell_self :
    (w i v : ℕ) (bytes bytes' : List ℕ)
    → v < 256 ^ w
    → write_cell w i v bytes ≡ ok bytes'
    → read_cell w i bytes' ≡ ok v
unfolding read_cell write_cell
read_cell-write_cell_self w i v bytes bytes' fits e =
    ground (arith, length-store w (i * w) v bytes, load-store_self w (i * w) v bytes fits)

apart : (i j w : ℕ) → i < j → i * w + w ≤ j * w
apart i j w h = grind arith

cells_apart : (i j w : ℕ) → i ≢ j → (j * w + w ≤ i * w) ⊎ (i * w + w ≤ j * w)
cells_apart i j w h = elim (order i j h) [
  | inl lt ↦ inr (apart i j w lt)
  | inr gt ↦ inl (apart j i w gt)
]
  where
    order : (i j : ℕ) → i ≢ j → (i < j) ⊎ (j < i)
    order i j h = omega arith

pub read_cell-write_cell_ne :
    (w i j v : ℕ) (bytes bytes' : List ℕ)
    → i ≢ j
    → write_cell w i v bytes ≡ ok bytes'
    → read_cell w j bytes' ≡ read_cell w j bytes
unfolding read_cell write_cell
read_cell-write_cell_ne w i j v bytes bytes' ne e = ground (
  arith,
  length-store w (i * w) v bytes,
  load-store_ne w (j * w) w (i * w) v bytes (cells_apart i j w ne),
)
