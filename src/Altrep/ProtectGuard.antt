-- ===== src/Altrep/ProtectGuard.antt =====
-- PROTECT_GUARD of src/utils.h and src/utils.cpp. R's pointer protection stack is not part of the
-- repository: it is the record Protection, with what the R API documents of PROTECT and UNPROTECT.
use shared_object.Prelude.{
  ℕ, suc, ◌≡◌, refl, ap, ◌∙◌, false, ◌==◌, if◌then◌else◌, arith, Bool-cases, inl, inr, ==_iff,
}

-- An object of R is its address.
pub record Protection : Type 1 where
  pub Stack : Type 0
  pub protect : ℕ → Stack → Stack
  pub unprotect : ℕ → Stack → Stack

-- UNPROTECT(n) takes away the n objects that were protected last.
pub record Pops (r : Protection) : Type 0 where
  pub none_popped : (s : r.Stack) → r.unprotect 0 s ≡ s
  pub one_popped : (n x : ℕ) (s : r.Stack) → r.unprotect (suc n) (r.protect x s) ≡ r.unprotect n s

pub record ProtectGuard : Type 0 where
  pub protect_num : ℕ

-- What a block with a guard does until it is left: it protects objects, and runs other such blocks.
pub data Block : Type 0 where
  finished : Block
  protecting : ℕ → Block → Block
  nested : Block → Block → Block

module _ (r : Protection) where
  -- PROTECT_GUARD()
  unfoldable pub new_protect_guard : ProtectGuard
  new_protect_guard = record { protect_num = 0 }

  unfoldable pub guard_protect : ℕ → ProtectGuard × r.Stack → ProtectGuard × r.Stack
  guard_protect x (g, s) = (record { protect_num = suc g.protect_num }, r.protect x s)

  -- ~PROTECT_GUARD()
  unfoldable pub destroy_protect_guard : ProtectGuard × r.Stack → r.Stack
  destroy_protect_guard (g, s) = if g.protect_num == 0 then s else r.unprotect g.protect_num s

  -- The guard is destroyed however the block is left.
  unfoldable pub act : Block → ProtectGuard × r.Stack → ProtectGuard × r.Stack
  unfolding new_protect_guard guard_protect destroy_protect_guard
  act finished state = state
  act (protecting x rest) state = act rest (guard_protect x state)
  act (nested block rest) (g, s) =
      act rest (g, destroy_protect_guard (act block (new_protect_guard, s)))

  unfoldable pub run_block : Block → r.Stack → r.Stack
  run_block block s = destroy_protect_guard (act block (new_protect_guard, s))

  module _ (pops : Pops r) where
    destroy-new : (s : r.Stack) → destroy_protect_guard (new_protect_guard, s) ≡ s
    unfolding destroy_protect_guard new_protect_guard
    destroy-new s = refl

    -- The destructor takes a protected object away with those before it.
    destroy-guard_protect :
        (x : ℕ) (g : ProtectGuard) (s : r.Stack)
        → destroy_protect_guard (guard_protect x (g, s)) ≡ destroy_protect_guard (g, s)
    unfolding destroy_protect_guard guard_protect
    destroy-guard_protect x g s = elim (Bool-cases (g.protect_num == 0)) [
      | inl e ↦
          let zero_num : g.protect_num ≡ 0 = (==_iff g.protect_num 0).0 e in
          rw zero_num (pops.one_popped 0 x s ∙ pops.none_popped s)
      | inr e ↦
          let more : (suc g.protect_num == 0) ≡ false = ground arith in
          rw (more, e) (pops.one_popped g.protect_num x s)
    ]

    destroy-act :
        (block : Block) (g : ProtectGuard) (s : r.Stack)
        → destroy_protect_guard (act block (g, s)) ≡ destroy_protect_guard (g, s)
    unfolding act guard_protect
    destroy-act finished g s = refl
    destroy-act (protecting x rest) g s =
        destroy-act rest (record { protect_num = suc g.protect_num }) (r.protect x s)
        ∙ destroy-guard_protect x g s
    destroy-act (nested block rest) g s =
        destroy-act rest g (destroy_protect_guard (act block (new_protect_guard, s)))
        ∙ ap (λ t. destroy_protect_guard (g, t))
            (destroy-act block new_protect_guard s ∙ destroy-new s)

    -- Where UNPROTECT pops what PROTECT pushed, a block with a guard leaves R's protection stack as it
    -- found it, wherever it is left and whatever blocks with guards it runs.
    pub run_block_lem : (block : Block) (s : r.Stack) → run_block block s ≡ s
    unfolding run_block
    run_block_lem block s = destroy-act block new_protect_guard s ∙ destroy-new s
