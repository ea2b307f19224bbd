-- ===== src/SharedMemory/Package/Exclusion.antt =====
-- Mutual exclusion of the block of initialPkgData in src/sharedMemory.cpp.
use shared_object.Prelude.{
  ℕ, ◌≤◌, ◌<◌, ◌≡◌, ◌≢◌, sym, subst, ap, ◌∙◌, true, false, none, some, ◌==◌, arith, Option-cases,
  Bool-cases, inl, inr, ==_iff,
}
use shared_object.Os.{Os, Semaphores}
use shared_object.SharedMemory.Keys.{semaphore_name}
use shared_object.SharedMemory.Package.{AutoSemophore, new_auto_semophore, lock, unlock}
use shared_object.SharedMemory.Package.Lock.{
  Stage, System, moved, Step, enter, take, time_out, leave, work, Run, start, later, IsIdle, opened,
  left, moved-cases, was_at,
}
use shared_object.SharedMemory.Package.Ordinary.{Ordinary, run-Ordinary}

module _ (os : Os) (sem : Semaphores os) where
  record Excludes (y : System os) : Type 0 where
    pub alone :
        (i j : ℕ) (a b : AutoSemophore os)
        → y.stage i ≡ Stage.inside a
        → y.stage j ≡ Stage.inside b
        → i ≡ j
    pub taken :
        (i : ℕ) (a : AutoSemophore os)
        → y.stage i ≡ Stage.inside a
        → (sem.bound semaphore_name y.world ≡ some (sem.number a.semaphore))
          × (sem.count (sem.number a.semaphore) y.world ≡ 0)
    pub used_up : (j : ℕ) → sem.bound semaphore_name y.world ≢ some j → sem.count j y.world ≡ 0
    pub single : (j : ℕ) → sem.count j y.world ≤ 1

  idle-Excludes : (y : System os) → IsIdle os sem y → Excludes y
  idle-Excludes y idle = record {
    alone = λ i j a b e f. absurd (ground (arith, idle.all_outside i));
    taken = λ i a e. absurd (ground (arith, idle.all_outside i));
    used_up = λ j n. idle.used_up j;
    single = λ j. omega (arith, idle.used_up j);
  }

  module _ (y : System os) (u : Ordinary os sem y) (h : Excludes y) where
    free-alone :
        (i : ℕ) (a : AutoSemophore os)
        → sem.bound semaphore_name y.world ≡ none
        → y.stage i ≢ Stage.inside a
    free-alone i a free e = ground (arith, h.taken i a e)

    module _ (i : ℕ) (made : AutoSemophore os × os.World)
        (o : os.new_semaphore semaphore_name 1 y.world ≡ some (made.0.semaphore, made.1)) where
      before :
          (k : ℕ) (a : AutoSemophore os)
          → (moved i (Stage.waiting made.0) made.1 y).stage k ≡ Stage.inside a
          → y.stage k ≡ Stage.inside a
      before k a e =
          was_at os sem y i k (Stage.waiting made.0) (Stage.inside a) made.1 (λ r. ground arith) e

      create-Excludes :
          sem.bound semaphore_name y.world ≡ none
          → Excludes (moved i (Stage.waiting made.0) made.1 y)
      create-Excludes free = record {
        alone = λ k l a b p q. absurd (free-alone k a free (before k a p));
        taken = λ k a p. absurd (free-alone k a free (before k a p));
        used_up = λ j n. ground (
          arith,
          ==_iff j (sem.number made.0.semaphore),
          sem.create_bound semaphore_name 1 y.world _ o free,
          sem.create_count semaphore_name 1 j y.world _ o free,
          h.used_up j,
        );
        single =
            λ j. ground (arith, h.single j, sem.create_count semaphore_name 1 j y.world _ o free);
      }

      open-Excludes :
          (n : ℕ)
          → sem.bound semaphore_name y.world ≡ some n
          → Excludes (moved i (Stage.waiting made.0) made.1 y)
      open-Excludes n t = record {
        alone = λ k l a b p q. h.alone k l a b (before k a p) (before l b q);
        taken = λ k a p. ground (
          arith,
          h.taken k a (before k a p),
          sem.open_bound semaphore_name 1 n y.world _ o t,
          sem.open_count semaphore_name 1 n (sem.number a.semaphore) y.world _ o t,
        );
        used_up = λ j m. ground (
          arith,
          sem.open_bound semaphore_name 1 n y.world _ o t,
          sem.open_count semaphore_name 1 n j y.world _ o t,
          h.used_up j,
        );
        single = λ j. ground (arith, h.single j, sem.open_count semaphore_name 1 n j y.world _ o t);
      }

    enter-Excludes :
        (i : ℕ) (made : AutoSemophore os × os.World)
        → new_auto_semophore os y.world ≡ some made
        → Excludes (moved i (Stage.waiting made.0) made.1 y)
    enter-Excludes i made f =
        let (o, plain) = opened os sem y.world made f in
        elim (Option-cases (sem.bound semaphore_name y.world)) [
          | inl free ↦ create-Excludes i made o free
          | inr (n, t) ↦ open-Excludes i made o n t
        ]

    module _ (i : ℕ) (a : AutoSemophore os) (e : y.stage i ≡ Stage.waiting a)
        (won : (os.timed_wait a.semaphore y.world).0 ≡ true) where
      abbrev n : ℕ
      n = sem.number a.semaphore

      some_left : 0 < sem.count n y.world
      some_left = ground (arith, sem.wait_result a.semaphore y.world)

      -- Who gets the semaphore finds it under its name, and nobody inside.
      named : sem.bound semaphore_name y.world ≡ some n
      named = elim (Option-cases (sem.bound semaphore_name y.world)) [
        | inl free ↦ absurd (omega (arith, some_left, h.used_up n (λ t. ground arith)))
        | inr (m, t) ↦ elim (Bool-cases (m == n)) [
          | inl same ↦ t ∙ ap some ((==_iff m n).0 same)
          | inr differs ↦
              absurd (omega (arith, some_left, h.used_up n (λ r. ground (arith, ==_iff m n))))
        ]
      ]

      nobody : (k : ℕ) (b : AutoSemophore os) → y.stage k ≢ Stage.inside b
      nobody k b f = ground (arith, some_left, named, h.taken k b f)

      now_inside :
          (k : ℕ) (b : AutoSemophore os)
          → (moved i (Stage.inside a) (os.timed_wait a.semaphore y.world).1 y).stage k
            ≡ Stage.inside b
          → (k ≡ i) × (a ≡ b)
      now_inside k b f =
          elim (moved-cases os sem y i k (Stage.inside a) (Stage.inside b)
            (os.timed_wait a.semaphore y.world).1 f) [
              | inl (at, now) ↦ (at, ground arith)
              | inr (elsewhere, before) ↦ absurd (nobody k b before)
            ]

      taken_now :
          (sem.bound semaphore_name (os.timed_wait a.semaphore y.world).1 ≡ some n)
          × (sem.count n (os.timed_wait a.semaphore y.world).1 ≡ 0)
      taken_now = ground (
        arith,
        named,
        sem.wait_bound a.semaphore y.world semaphore_name n,
        sem.wait_count a.semaphore y.world n,
        h.single n,
        ==_iff n n,
      )

      take-Excludes : Excludes (moved i (Stage.inside a) (os.timed_wait a.semaphore y.world).1 y)
      take-Excludes = record {
        alone = λ k l b c p q. (now_inside k b p).0 ∙ sym (now_inside l c q).0;
        taken = λ k b p.
            subst
              (λ (d : AutoSemophore os).
                (sem.bound semaphore_name (os.timed_wait a.semaphore y.world).1
                  ≡ some (sem.number d.semaphore))
                × (sem.count (sem.number d.semaphore) (os.timed_wait a.semaphore y.world).1 ≡ 0))
              (now_inside k b p).1 taken_now;
        used_up = λ j m. ground (
          arith,
          sem.wait_count a.semaphore y.world j,
          sem.wait_bound a.semaphore y.world semaphore_name j,
          h.used_up j,
        );
        single = λ j. ground (arith, h.single j, sem.wait_count a.semaphore y.world j);
      }

    module _ (i : ℕ) (a : AutoSemophore os) (e : y.stage i ≡ Stage.inside a) where
      nobody_left :
          (k : ℕ) (b : AutoSemophore os)
          → (moved i Stage.outside (unlock os a y.world) y).stage k ≢ Stage.inside b
      nobody_left k b f =
          elim (moved-cases os sem y i k Stage.outside (Stage.inside b) (unlock os a y.world) f) [
            | inl (at, now) ↦ ground arith
            | inr (elsewhere, before) ↦ elsewhere (h.alone k i b a before e)
          ]

      leave-Excludes : Excludes (moved i Stage.outside (unlock os a y.world) y)
      leave-Excludes = record {
        alone = λ k l b c p q. absurd (nobody_left k b p);
        taken = λ k b p. absurd (nobody_left k b p);
        used_up = λ j m.
            ground (arith, left os sem a y.world j (u.unlocked i a e), h.taken i a e, h.used_up j);
        single = λ j. ground (arith, left os sem a y.world j (u.unlocked i a e), h.single j);
      }

    work-Excludes :
        (w : os.World)
        → sem.bound semaphore_name w ≡ sem.bound semaphore_name y.world
        → ((j : ℕ)
            → (sem.count j w ≡ sem.count j y.world) × (sem.existed j w ≡ sem.existed j y.world))
        → Excludes (record y { world = w })
    work-Excludes w same counts = record {
      alone = h.alone;
      taken = λ k a p. ground (arith, h.taken k a p, counts (sem.number a.semaphore));
      used_up = λ j m. ground (arith, h.used_up j, counts j);
      single = λ j. ground (arith, h.single j, counts j);
    }

  step-Excludes :
      {y z : System os} → Step os sem false y z → Ordinary os sem y → Excludes y → Excludes z
  unfolding lock
  step-Excludes {y} (enter i made e f) u h = enter-Excludes y u h i made f
  step-Excludes {y} (take i a e won) u h = take-Excludes y u h i a e won
  step-Excludes {y} (time_out i a may e lost) u h = absurd (ground arith)
  step-Excludes {y} (leave i a e) u h = leave-Excludes y u h i a e
  step-Excludes {y} (work w same counts) u h = work-Excludes y u h w same counts

  run-Excludes : {y z : System os} → IsIdle os sem y → Run os sem false y z → Excludes z
  run-Excludes {y = y} idle start = idle-Excludes y idle
  run-Excludes idle (later r s) = step-Excludes s (run-Ordinary os sem idle r) (run-Excludes idle r)

  -- From where no process has opened the semaphore and no count is left of before, and while no
  -- wait times out: in whatever order processes open the semaphore, get it and leave, no two are in
  -- the block of initialPkgData at once, and the one that is has used up the count of the semaphore
  -- that has the name.
  pub mutual_exclusion :
      (y z : System os) (i j : ℕ) (a b : AutoSemophore os)
      → IsIdle os sem y
      → Run os sem false y z
      → z.stage i ≡ Stage.inside a
      → z.stage j ≡ Stage.inside b
      → (i ≡ j)
        × (sem.bound semaphore_name z.world ≡ some (sem.number a.semaphore))
        × (sem.count (sem.number a.semaphore) z.world ≡ 0)
  mutual_exclusion y z i j a b idle r p q =
      let h = run-Excludes idle r in
      let (named, used) = h.taken i a p in (h.alone i j a b p q, named, used)
