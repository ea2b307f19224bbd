-- ===== src/Tests/Locking.antt =====
-- The theorems about the lock of initialPkgData, at two processes that open it one after the other.
use shared_object.Prelude.{ℕ, ◌==◌, if◌then◌else◌, ◌≡◌, refl, Bool, true, false, some, arith}
use shared_object.Dict.{lookup, insert}
use shared_object.SharedMemory.Keys.{semaphore_name}
use shared_object.SharedMemory.Package.{AutoSemophore, new_auto_semophore, lock, unlock}
use shared_object.SharedMemory.Package.Lock.{
  Stage, System, moved, enter, take, time_out, leave, Run, start, later, IsIdle,
}
use shared_object.SharedMemory.Package.Exclusion.{mutual_exclusion}
use shared_object.SharedMemory.Package.Handover.{never_handed_on}
use shared_object.Tests.Platform.{machine, blank, Machine, machine-Semaphores}

abbrev idle : System machine
idle = record { world = blank; stage = λ i. Stage.outside }

idle-IsIdle : IsIdle machine machine-Semaphores.0 idle
idle-IsIdle = record {
  all_outside = λ i. refl;
  unbound = machine-Semaphores.1 semaphore_name;
  used_up = machine-Semaphores.2;
}

-- Both have semaphore 0.
abbrev handle : AutoSemophore machine
handle = record { semaphore = 0; locked = false }

abbrev created : Machine
created = record blank {
  semaphores = insert semaphore_name 0 blank.semaphores;
  counts = λ j. if j == 0 then 1 else 0;
  semaphores_made = 1;
}

abbrev first_open : System machine
first_open = moved 0 (Stage.waiting handle) created idle

abbrev both_open : System machine
both_open = moved 1 (Stage.waiting handle) created first_open

abbrev first_inside : System machine
first_inside =
    moved 0 (Stage.inside (lock machine handle created).0) (lock machine handle created).1 both_open

up_to_inside : (late : Bool) → Run machine machine-Semaphores.0 late idle first_inside
unfolding new_auto_semophore lookup insert
up_to_inside late =
    later
      (later (later start (enter 0 (handle, created) refl refl))
        (enter 1 (handle, created) refl refl))
      (take 0 handle refl refl)

mutual_exclusion_example :
    let sem = machine-Semaphores.0 in
    (◌≡◌ {A = ℕ} 0 0)
    × (sem.bound semaphore_name first_inside.world ≡ some (sem.number 0))
    × (sem.count (sem.number 0) first_inside.world ≡ 0)
unfolding lock
mutual_exclusion_example =
    mutual_exclusion machine machine-Semaphores.0 idle first_inside 0 0 handle handle idle-IsIdle
      (up_to_inside false) refl refl

-- The first process leaves, while the second one still waits.
abbrev first_gone : System machine
first_gone =
    moved 0 Stage.outside (unlock machine handle (lock machine handle created).1) first_inside

leaving : Run machine machine-Semaphores.0 true first_inside first_gone
unfolding lock
leaving = later start (leave 0 handle refl)

spent : machine-Semaphores.0.count (machine-Semaphores.0.number 0) first_inside.world ≡ 0
unfolding lock
spent = ground (arith, machine-Semaphores.0.wait_result 0 first_inside.world)

never_handed_on_example : (machine.timed_wait 0 first_gone.world).0 ≡ false
never_handed_on_example =
    never_handed_on machine machine-Semaphores.0 true idle first_inside first_gone 1 handle
      idle-IsIdle (up_to_inside true) refl spent leaving

-- With a wait that times out both are inside.
abbrev both_inside : System machine
both_inside =
    moved 1 (Stage.inside (lock machine handle first_inside.world).0)
      (lock machine handle first_inside.world).1 first_inside

timed_out :
    Run machine machine-Semaphores.0 true idle both_inside
    × (both_inside.stage 0 ≡ Stage.inside handle)
    × (both_inside.stage 1 ≡ Stage.inside handle)
unfolding lock
timed_out = (later (up_to_inside true) (time_out 1 handle refl refl refl), refl, refl)
