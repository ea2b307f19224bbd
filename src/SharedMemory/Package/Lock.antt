-- ===== src/SharedMemory/Package/Lock.antt =====
-- Several processes at the lock of initialPkgData in src/sharedMemory.cpp: each opens the semaphore,
-- waits for it, is in the block, and leaves by the destructor of auto_semophore.
use shared_object.Prelude.{
  ℕ, ◌≡◌, ◌≢◌, ◌∙◌, Bool, true, false, none, some, ◌⊎◌, ◌==◌, if◌then◌else◌, arith, Option-cases,
  Bool-cases, inl, inr, ==_iff,
}
use shared_object.Os.{Os, Semaphores}
use shared_object.SharedMemory.Keys.{semaphore_name}
use shared_object.SharedMemory.Package.{AutoSemophore, new_auto_semophore, lock, unlock}

-- Where a process is.
pub data Stage (os : Os) : Type 0 where
  outside : Stage os
  waiting : AutoSemophore os → Stage os
  inside : AutoSemophore os → Stage os

-- The processes, and what they share.
pub record System (os : Os) : Type 0 where
  pub world : os.World
  pub stage : ℕ → Stage os

-- Process `i` goes on.
abbrev pub moved : {os : Os} → ℕ → Stage os → os.World → System os → System os
moved i s w y = record { world = w; stage = λ j. if j == i then s else y.stage j }

module _ (os : Os) (sem : Semaphores os) where
  -- One process does one thing; `late` says whether a wait may time out. What else is done in the
  -- block or by others leaves the semaphores alone.
  pub data Step (late : Bool) (y : System os) : System os → Type 0 where
    enter :
        (i : ℕ) (made : AutoSemophore os × os.World)
        → y.stage i ≡ Stage.outside
        → new_auto_semophore os y.world ≡ some made
        → Step late y (moved i (Stage.waiting made.0) made.1 y)
    take :
        (i : ℕ) (a : AutoSemophore os)
        → y.stage i ≡ Stage.waiting a
        → (os.timed_wait a.semaphore y.world).0 ≡ true
        → Step late y (moved i (Stage.inside (lock os a y.world).0) (lock os a y.world).1 y)
    time_out :
        (i : ℕ) (a : AutoSemophore os)
        → late ≡ true
        → y.stage i ≡ Stage.waiting a
        → (os.timed_wait a.semaphore y.world).0 ≡ false
        → Step late y (moved i (Stage.inside (lock os a y.world).0) (lock os a y.world).1 y)
    leave :
        (i : ℕ) (a : AutoSemophore os)
        → y.stage i ≡ Stage.inside a
        → Step late y (moved i Stage.outside (unlock os a y.world) y)
    work :
        (w : os.World)
        → sem.bound semaphore_name w ≡ sem.bound semaphore_name y.world
        → ((j : ℕ)
            → (sem.count j w ≡ sem.count j y.world) × (sem.existed j w ≡ sem.existed j y.world))
        → Step late y (record y { world = w })

  pub data Run (late : Bool) (y : System os) : System os → Type 0 where
    start : Run late y y
    later : {z u : System os} → Run late y z → Step late z u → Run late y u

  -- Nobody has opened the semaphore, and none is left of before.
  pub record IsIdle (y : System os) : Type 0 where
    pub all_outside : (i : ℕ) → y.stage i ≡ Stage.outside
    pub unbound : sem.bound semaphore_name y.world ≡ none
    pub used_up : (j : ℕ) → sem.count j y.world ≡ 0

  -- What the constructor of the lock does.
  pub opened :
      (w : os.World) (made : AutoSemophore os × os.World)
      → new_auto_semophore os w ≡ some made
      → (os.new_semaphore semaphore_name 1 w ≡ some (made.0.semaphore, made.1))
        × (made.0.locked ≡ false)
  unfolding new_auto_semophore
  opened w made e = elim (Option-cases (os.new_semaphore semaphore_name 1 w)) [
    | inl refused ↦ absurd (ground arith)
    | inr (s, f) ↦ ground arith
  ]

  -- The destructor takes the name and posts nothing.
  pub left :
      (a : AutoSemophore os) (w : os.World) (j : ℕ)
      → a.locked ≡ false
      → (sem.bound semaphore_name (unlock os a w) ≡ none)
        × (sem.count j (unlock os a w) ≡ sem.count j w)
        × (sem.existed j (unlock os a w) ≡ sem.existed j w)
  unfolding unlock
  left a w j e =
      let w' = os.delete_semaphore a.semaphore w in
      let (none_left, counts, old) = sem.remove_unbinds semaphore_name w' j in
      let (bound, counts', old') = sem.delete_keeps a.semaphore w semaphore_name j in
      rw e (none_left, counts ∙ counts', old ∙ old')

  module _ (y : System os) where
    -- Where a process is after one has moved.
    pub moved-cases :
        (i k : ℕ) (s t : Stage os) (w : os.World)
        → (moved i s w y).stage k ≡ t
        → ((k ≡ i) × (s ≡ t)) ⊎ ((k ≢ i) × (y.stage k ≡ t))
    moved-cases i k s t w e = elim (Bool-cases (k == i)) [
      | inl same ↦ inl ((==_iff k i).0 same, ground arith)
      | inr differs ↦ inr (ground arith, ground arith)
    ]

    pub was_at :
        (i k : ℕ) (s t : Stage os) (w : os.World)
        → (s ≢ t)
        → (moved i s w y).stage k ≡ t
        → y.stage k ≡ t
    was_at i k s t w out e = elim (moved-cases i k s t w e) [
      | inl (at, now) ↦ absurd (out now)
      | inr (elsewhere, before) ↦ before
    ]
