-- ===== src/Altrep/StringVector/Units.antt =====
-- The width of the index cells.
use shared_object.Prelude.{ℕ, ◌^◌, ◌/◌, ◌≤◌, ◌<◌, ◌≡◌, ◌⊎◌, true, arith}
use shared_object.Altrep.StringVector.{unit_size_of, is_unit}

-- For fewer than 2^64 unique strings the cells are of one, two, four or eight bytes and can number
-- all of them, and cells of half the width could not, unless they are of one byte.
pub unit_size_of-fits :
    (n : ℕ)
    → n < 2 ^ 64
    → (is_unit (unit_size_of n) ≡ true)
      × (n ≤ 256 ^ unit_size_of n)
      × ((unit_size_of n ≡ 1) ⊎ (256 ^ (unit_size_of n / 2) < n))
unfolding unit_size_of
unit_size_of-fits n h = ground arith
