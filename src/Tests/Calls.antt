-- ===== src/Tests/Calls.antt =====
-- The theorems about the interface to R, at concrete objects.
use shared_object.Prelude.{◌≡◌, ◌↔◌, true, none, some}
use shared_object.Altrep.Types.{shared_integer}
use shared_object.Interface.{Sexp, plain, altrep, is_shared, IsSharedWithin, is_shared_iff}

-- A wrapper of a shared integer vector, whose data1 is an external pointer.
abbrev wrapper : Sexp
wrapper = altrep 13 none (altrep 13 (some shared_integer) (plain 22))

is_shared_iff_example : (is_shared wrapper ≡ true) ↔ IsSharedWithin wrapper
is_shared_iff_example = is_shared_iff wrapper
