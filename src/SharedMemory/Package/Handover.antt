-- ===== src/SharedMemory/Package/Handover.antt =====
-- Whether the semaphore of initialPkgData in src/sharedMemory.cpp passes from a process that leaves to
-- one that waits.
use shared_object.Prelude.{ℕ, ◌≡◌, Bool, true, false, some, arith, Option-cases, inl, inr, ==_iff}
use shared_object.Os.{Os, Semaphores}
use shared_object.SharedMemory.Keys.{semaphore_name}
use shared_object.SharedMemory.Package.{AutoSemophore, lock}
use shared_object.SharedMemory.Package.Lock.{
  Stage, System, Step, enter, take, time_out, leave, work, Run, start, later, IsIdle, opened, left,
}
use shared_object.SharedMemory.Package.Ordinary.{
  Ordinary, step-Ordinary, run-Ordinary, open_existed,
}

module _ (os : Os) (sem : Semaphores os) (n : ℕ) where
  -- The semaphore was made, and its count is used up.
  abbrev Spent : os.World → Type 0
  Spent w = (sem.existed n w ≡ true) × (sem.count n w ≡ 0)

  open-Spent :
      (w : os.World) (made : os.Semaphore × os.World)
      → os.new_semaphore semaphore_name 1 w ≡ some made
      → Spent w
      → Spent made.1
  open-Spent w made e (old, none_left) = (
    (open_existed os sem w made n e).0 old,
    elim (Option-cases (sem.bound semaphore_name w)) [
      | inl free ↦ ground (
        arith,
        ==_iff n (sem.number made.0),
        sem.create_bound semaphore_name 1 w made e free,
        sem.create_count semaphore_name 1 n w made e free,
      )
      | inr (m, t) ↦ ground (arith, sem.open_count semaphore_name 1 m n w made e t)
    ],
  )

  wait-Spent : (s : os.Semaphore) (w : os.World) → Spent w → Spent (os.timed_wait s w).1
  wait-Spent s w (old, none_left) =
      ground (arith, sem.wait_bound s w semaphore_name n, sem.wait_count s w n)

  step-Spent :
      {late : Bool} {y z : System os}
      → Step os sem late y z
      → Ordinary os sem y
      → Spent y.world
      → Spent z.world
  unfolding lock
  step-Spent {y = y} (enter i made e f) u h =
      open-Spent y.world _ (opened os sem y.world made f).0 h
  step-Spent {y = y} (take i a e won) u h = wait-Spent a.semaphore y.world h
  step-Spent {y = y} (time_out i a may e lost) u h = wait-Spent a.semaphore y.world h
  step-Spent {y = y} (leave i a e) u h = ground (arith, left os sem a y.world n (u.unlocked i a e))
  step-Spent (work w same counts) u h = ground (arith, counts n)

  run-Spent :
      {late : Bool} {y z : System os}
      → Ordinary os sem y
      → Run os sem late y z
      → Spent y.world
      → Ordinary os sem z × Spent z.world
  run-Spent u start h = (u, h)
  run-Spent u (later r s) h =
      let (u', h') = run-Spent u r h in (step-Ordinary os sem s u', step-Spent s u' h')

module _ (os : Os) (sem : Semaphores os) where
  -- From where no process has opened the semaphore and no count is left of before, with or without
  -- waits that time out: where a process waits for a semaphore whose count is 0, its wait can only
  -- time out at any later time, however the others go on and leave.
  pub never_handed_on :
      (late : Bool) (y z u : System os) (i : ℕ) (a : AutoSemophore os)
      → IsIdle os sem y
      → Run os sem late y z
      → z.stage i ≡ Stage.waiting a
      → sem.count (sem.number a.semaphore) z.world ≡ 0
      → Run os sem late z u
      → (os.timed_wait a.semaphore u.world).0 ≡ false
  never_handed_on late y z u i a idle before e taken after =
      let n = sem.number a.semaphore in
      let h = run-Ordinary os sem idle before in
      let (h', spent) = run-Spent os sem n h after (h.known i a e, taken) in
      ground (arith, sem.wait_result a.semaphore u.world)
