-- ===== src/Tests/Protection.antt =====
-- The theorem about the protection guard, on a stack that is a list.
use shared_object.Prelude.{ℕ, ◌≡◌, refl, List, [], ◌∷◌, drop}
use shared_object.Altrep.ProtectGuard.{
  Protection, Pops, finished, protecting, nested, run_block, run_block_lem,
}

abbrev list_stack : Protection
list_stack = record { Stack = List ℕ; protect = λ x s. x ∷ s; unprotect = λ n s. drop n s }

list_stack-Pops : Pops list_stack
list_stack-Pops = record { none_popped = λ s. refl; one_popped = λ n x s. refl }

run_block_lem_example :
    run_block list_stack
      (protecting 1 (nested (protecting 2 finished) (protecting 3 finished)))
      (9 ∷ [])
    ≡ 9 ∷ []
run_block_lem_example =
    run_block_lem list_stack list_stack-Pops
      (protecting 1 (nested (protecting 2 finished) (protecting 3 finished))) (9 ∷ [])
