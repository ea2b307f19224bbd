-- ===== src/Prelude/Results.antt =====
-- C++ code that throws: what was written before the throw stays written, so the state comes back on
-- every path. `throwError` and the exceptions of the operating system are caught by `catch`; an
-- `Rf_error` or a crash is not.
use Prim.Native.Nat.{ℕ}

-- The site of a `throwError`, or the class of a foreign exception.
pub data Error : Type 0 where
  os_exception : Error
  insufficient_memory : ℕ → ℕ → Error
  already_opened : Error
  open_failed : Error → Error
  get_size_failed : Error → Error
  allocate_failed : Error → Error
  map_failed : Error → Error
  size_too_small : ℕ → ℕ → Error
  all_keys_in_use : Error
  not_mapped : Error
  out_of_range : Error
  initial_failed : Error → Error

-- What leaves a function without unwinding it as a C++ exception.
pub data Fault : Type 0 where
  bus_error : Fault
  null_dereference : Fault
  unterminated : Fault
  out_of_bounds : Fault
  r_error : Fault
  int_overflow : Fault

pub data Result {ℓ} (A : Type ℓ) : Type ℓ where
  ok : A → Result A
  threw : Error → Result A
  aborted : Fault → Result A

abbrev pub Exec {ℓ κ} : Type ℓ → Type κ → Type (ℓ ⊔ κ)
Exec S A = S → Result A × S

abbrev pub pure {ℓ κ} : {S : Type ℓ} {A : Type κ} → A → Exec S A
pure a s = (ok a, s)

abbrev pub throw_error {ℓ κ} : {S : Type ℓ} {A : Type κ} → Error → Exec S A
throw_error e s = (threw e, s)

abbrev pub abort {ℓ κ} : {S : Type ℓ} {A : Type κ} → Fault → Exec S A
abort f s = (aborted f, s)

abbrev pub gets {ℓ κ} : {S : Type ℓ} {A : Type κ} → (S → A) → Exec S A
gets f s = (ok (f s), s)

abbrev pub modify {ℓ} : {S : Type ℓ} → (S → S) → Exec S (Unit {0})
modify f s = (ok tt, f s)

abbrev pub after_result {ℓ κ μ} :
    {S : Type ℓ} {A : Type κ} {B : Type μ} → Result A → (A → Exec S B) → Exec S B
after_result (ok a) f s = f a s
after_result (threw e) f s = (threw e, s)
after_result (aborted x) f s = (aborted x, s)

infixl 5 ◌>>=◌ ◌>>◌
abbrev pub ◌>>=◌ {ℓ κ μ} :
    {S : Type ℓ} {A : Type κ} {B : Type μ} → Exec S A → (A → Exec S B) → Exec S B
◌>>=◌ m f s = after_result (m s).0 f (m s).1

abbrev pub ◌>>◌ {ℓ μ} : {S : Type ℓ} {B : Type μ} → Exec S (Unit {0}) → Exec S B → Exec S B
m >> k = m >>= λ _. k

-- The handler of `catch (const std::exception &)`.
abbrev pub handled {ℓ κ} : {S : Type ℓ} {A : Type κ} → Result A → (Error → Exec S A) → Exec S A
handled (ok a) h s = (ok a, s)
handled (threw e) h s = h e s
handled (aborted x) h s = (aborted x, s)

abbrev pub try_catch {ℓ κ} : {S : Type ℓ} {A : Type κ} → Exec S A → (Error → Exec S A) → Exec S A
try_catch m h s = handled (m s).0 h (m s).1
