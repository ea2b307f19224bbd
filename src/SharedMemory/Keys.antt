-- ===== src/SharedMemory/Keys.antt =====
-- The names of shared memory objects: `getKey` of src/sharedMemory.cpp, and `std::to_string` of an
-- unsigned number, with which ids and the width of a pointer are written.
use Prim.Native.Char.{code}
use Prim.Native.String.{◌++◌}
use mathlib.Core.Logic.{dite}
use mathlib.Core.WellFounded.{Acc}
use text.Mathlib.TextLemmas.{append_cancel_left, cons-append}
use shared_object.Prelude.{
  ℕ, ◌*◌, ◌/◌, ◌%◌, ◌<◌, String, ◌≡◌, ◌≢◌, ◌∙◌, ap, arith, dec_lt, lt_wf, ◌==◌, if◌then◌else◌,
}
use shared_object.Os.{Os}

digit : ℕ → String
digit d =
    if d == 0
    then "0"
    else if d == 1
    then "1"
    else if d == 2
    then "2"
    else if d == 3
    then "3"
    else if d == 4
    then "4"
    else if d == 5
    then "5"
    else if d == 6
    then "6"
    else if d == 7
    then "7"
    else if d == 8
    then "8"
    else "9"

emit_digits : (n : ℕ) → Acc ◌<◌ n → String → String
emit_digits n (Acc.intro _ smaller) out =
    dite (dec_lt 0 n)
      (λ h. emit_digits (n / 10) (smaller (n / 10) (omega arith)) (digit (n % 10) ++ out))
      (λ _. out)

-- std::to_string
unfoldable pub to_string : ℕ → String
unfolding digit emit_digits lt_wf dec_lt
to_string n = if n == 0 then "0" else emit_digits n (lt_wf.apply n) ""

-- SHARED_OBJECT_COUNTER and SEMAPHORE_NAME
abbrev pub shared_object_counter : String
shared_object_counter = "sharedObjectCounter"

abbrev pub semaphore_name : String
semaphore_name = "sharedObjectSemaphore"

abbrev first_code : String → ℕ
first_code String.[] = 0
first_code (String.◌∷◌ c s) = code c

first_code-key : (x y : String) → first_code ((("SO_" ++ x) ++ "_") ++ y) ≡ 83
first_code-key x y =
    ap (λ t. first_code ((t ++ "_") ++ y)) (cons-append "S" "O_" x)
    ∙ ap (λ t. first_code (t ++ y)) (cons-append "S" ("O_" ++ x) "_")
    ∙ ap first_code (cons-append "S" (("O_" ++ x) ++ "_") y)

module _ (os : Os) where
  -- OS_ADDRESS_SIZE of utils.cpp
  unfoldable pub os_address_size : String
  unfolding to_string
  os_address_size = "X" ++ to_string (os.pointer_size * 8)

  -- OS_SHARED_OBJECT_PKG_SPACE, on systems other than Windows
  unfoldable pub package_space : String
  unfolding os_address_size
  package_space = "SO_" ++ os_address_size

  unfoldable pub get_key : String → String
  unfolding package_space
  get_key id = (package_space ++ "_") ++ id

  -- Two ids have one key only if they are the same id.
  pub get_key-injective : (id₁ id₂ : String) → get_key id₁ ≡ get_key id₂ → id₁ ≡ id₂
  unfolding get_key
  get_key-injective id₁ id₂ e = append_cancel_left (package_space ++ "_") id₁ id₂ e

  -- No id has the key of the package's counter.
  pub get_key-ne-counter : (id : String) → get_key id ≢ shared_object_counter
  unfolding get_key
  get_key-ne-counter id e = omega (arith, first_code-key os_address_size id, ap first_code e)
