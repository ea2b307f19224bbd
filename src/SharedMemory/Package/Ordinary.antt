-- ===== src/SharedMemory/Package/Ordinary.antt =====
-- The processes at the lock of initialPkgData in src/sharedMemory.cpp, whether or not waits time out.
use shared_object.Prelude.{
  ℕ, ◌≡◌, ◌∙◌, Bool, true, false, some, arith, Option-cases, inl, inr, ==_iff,
}
use shared_object.Os.{Os, Semaphores}
use shared_object.SharedMemory.Keys.{semaphore_name}
use shared_object.SharedMemory.Package.{AutoSemophore, new_auto_semophore, lock, unlock}
use shared_object.SharedMemory.Package.Lock.{
  Stage, System, moved, Step, enter, take, time_out, leave, work, Run, start, later, IsIdle, opened,
  left, moved-cases, was_at,
}

module _ (os : Os) (sem : Semaphores os) where
  -- No process is to post, and each waits for a semaphore that was made.
  pub record Ordinary (y : System os) : Type 0 where
    pub unlocked : (i : ℕ) (a : AutoSemophore os) → y.stage i ≡ Stage.inside a → a.locked ≡ false
    pub unlocked_waiting :
        (i : ℕ) (a : AutoSemophore os) → y.stage i ≡ Stage.waiting a → a.locked ≡ false
    pub known :
        (i : ℕ) (a : AutoSemophore os)
        → y.stage i ≡ Stage.waiting a
        → sem.existed (sem.number a.semaphore) y.world ≡ true

  idle-Ordinary : (y : System os) → IsIdle os sem y → Ordinary y
  idle-Ordinary y idle = record {
    unlocked = λ i a e. absurd (ground (arith, idle.all_outside i));
    unlocked_waiting = λ i a e. absurd (ground (arith, idle.all_outside i));
    known = λ i a e. absurd (ground (arith, idle.all_outside i));
  }

  -- What has existed has existed ever since, and what is opened exists.
  pub open_existed :
      (w : os.World) (made : os.Semaphore × os.World) (j : ℕ)
      → os.new_semaphore semaphore_name 1 w ≡ some made
      → (sem.existed j w ≡ true → sem.existed j made.1 ≡ true)
        × (sem.existed (sem.number made.0) made.1 ≡ true)
  open_existed w made j e = elim (Option-cases (sem.bound semaphore_name w)) [
    | inl free ↦ (
      (λ old. ground (arith, sem.create_count semaphore_name 1 j w made e free)),
      ground (
        arith,
        ==_iff (sem.number made.0) (sem.number made.0),
        sem.create_count semaphore_name 1 (sem.number made.0) w made e free,
      ),
    )
    | inr (n, t) ↦ (
      (λ old. ground (arith, sem.open_count semaphore_name 1 n j w made e t)),
      ground (
        arith,
        sem.open_bound semaphore_name 1 n w made e t,
        sem.open_count semaphore_name 1 n n w made e t,
        sem.bound_existed semaphore_name n w t,
      ),
    )
  ]

  module _ (y : System os) (h : Ordinary y) where
    enter-Ordinary :
        (i : ℕ) (made : AutoSemophore os × os.World)
        → new_auto_semophore os y.world ≡ some made
        → Ordinary (moved i (Stage.waiting made.0) made.1 y)
    enter-Ordinary i made f =
        let (o, u) = opened os sem y.world made f in
        record {
          unlocked = λ k b p. h.unlocked k b (
              was_at os sem y i k (Stage.waiting made.0) (Stage.inside b) made.1 (λ r. ground arith)
                p);
          unlocked_waiting = λ k b p.
              elim (moved-cases os sem y i k (Stage.waiting made.0) (Stage.waiting b) made.1 p) [
                | inl (at, now) ↦ ground arith
                | inr (elsewhere, before) ↦ h.unlocked_waiting k b before
              ];
          known = λ k b p.
              elim (moved-cases os sem y i k (Stage.waiting made.0) (Stage.waiting b) made.1 p) [
                | inl (at, now) ↦ ground (arith, open_existed y.world _ (sem.number b.semaphore) o)
                | inr (elsewhere, before) ↦
                    (open_existed y.world _ (sem.number b.semaphore) o).0 (h.known k b before)
              ];
        }

    wait-Ordinary :
        (i : ℕ) (a : AutoSemophore os)
        → y.stage i ≡ Stage.waiting a
        → Ordinary (moved i (Stage.inside a) (os.timed_wait a.semaphore y.world).1 y)
    wait-Ordinary i a e =
        let w = (os.timed_wait a.semaphore y.world).1 in
        record {
          unlocked = λ k b p.
              elim (moved-cases os sem y i k (Stage.inside a) (Stage.inside b) w p) [
                | inl (at, now) ↦ ground (arith, h.unlocked_waiting i a e)
                | inr (elsewhere, before) ↦ h.unlocked k b before
              ];
          unlocked_waiting = λ k b p.
              h.unlocked_waiting k b
                (was_at os sem y i k (Stage.inside a) (Stage.waiting b) w (λ r. ground arith) p);
          known = λ k b p.
              (sem.wait_bound a.semaphore y.world semaphore_name (sem.number b.semaphore)).1
              ∙ h.known k b
                  (was_at os sem y i k (Stage.inside a) (Stage.waiting b) w (λ r. ground arith) p);
        }

    leave-Ordinary :
        (i : ℕ) (a : AutoSemophore os)
        → y.stage i ≡ Stage.inside a
        → Ordinary (moved i Stage.outside (unlock os a y.world) y)
    leave-Ordinary i a e =
        let w = unlock os a y.world in
        record {
          unlocked = λ k b p.
              h.unlocked k b
                (was_at os sem y i k Stage.outside (Stage.inside b) w (λ r. ground arith) p);
          unlocked_waiting = λ k b p.
              h.unlocked_waiting k b
                (was_at os sem y i k Stage.outside (Stage.waiting b) w (λ r. ground arith) p);
          known = λ k b p.
              (left os sem a y.world (sem.number b.semaphore) (h.unlocked i a e)).2
              ∙ h.known k b
                  (was_at os sem y i k Stage.outside (Stage.waiting b) w (λ r. ground arith) p);
        }

  pub step-Ordinary :
      {late : Bool} {y z : System os} → Step os sem late y z → Ordinary y → Ordinary z
  unfolding lock
  step-Ordinary {y = y} (enter i made e f) h = enter-Ordinary y h i made f
  step-Ordinary {y = y} (take i a e won) h = wait-Ordinary y h i a e
  step-Ordinary {y = y} (time_out i a may e lost) h = wait-Ordinary y h i a e
  step-Ordinary {y = y} (leave i a e) h = leave-Ordinary y h i a e
  step-Ordinary (work w same counts) h = record {
    unlocked = h.unlocked;
    unlocked_waiting = h.unlocked_waiting;
    known = λ k b p. (counts (sem.number b.semaphore)).1 ∙ h.known k b p;
  }

  pub run-Ordinary :
      {late : Bool} {y z : System os} → IsIdle os sem y → Run os sem late y z → Ordinary z
  run-Ordinary {y = y} idle start = idle-Ordinary y idle
  run-Ordinary idle (later r s) = step-Ordinary s (run-Ordinary idle r)
