-- ===== src/Scheduler/Workers/Sound.antt =====
-- The scheduler under the interleavings of its owner and its worker threads
-- (src/aivm_worker_scheduler.c).
use ai_vm.Common.{
  ℕ, zero, suc, ◌≤◌, ◌≡◌, refl, true, false, none, some, List, [], ◌∷◌, ◌==◌, if◌then◌else◌, arith,
  length, replicate, ◌∙◌,
}
use ai_vm.Scheduler.{
  TaskStatus, Scheduler, SchedulerStatus, find_task, cancel, release, worker_take, worker_finish,
  stop, status_of, empty_slot,
}
use ai_vm.Scheduler.Slots.{find_task-with_status}
use ai_vm.Scheduler.Invariant.{
  submit-IsValid, cancel-IsValid, release-IsValid, worker_take-IsValid, worker_finish-IsValid,
  stop-IsValid, started_scheduler, started-IsValid,
}
use ai_vm.Scheduler.Fifo.{take_oldest}
use ai_vm.Scheduler.Workers.{
  IsSound, Reach, Step, System, contains, contains-remove, length-remove, limits_kept,
  limits_kept_submit, remove, remove-NoDup, running_at, running_at-cancel, running_at-finish,
  running_at-release, running_at-submit, running_at-take, submits, cancels, releases, stops, takes,
  finishes, here, next,
}

take_exact :
    (s : Scheduler) (held : List ℕ) (id j : ℕ)
    → running_at (worker_take s).1 j ≡ (if j == id then true else running_at s j)
    → running_at s j ≡ contains j held
    → running_at (worker_take s).1 j ≡ contains j (id ∷ held)
unfolding contains
take_exact s held id j e h = ground arith

take_fresh :
    (s : Scheduler) (held : List ℕ) (id : ℕ)
    → status_of s id ≡ some TaskStatus.queued
    → running_at s id ≡ contains id held
    → contains id held ≡ false
take_fresh s held id e h = ground arith

finish_exact :
    (s : Scheduler) (held : List ℕ) (id j : ℕ)
    → running_at s j ≡ contains j held
    → running_at (worker_finish s id) j ≡ contains j (remove id held)
finish_exact s held id j h = ground (arith, running_at-finish s id j, contains-remove id held j)

-- Every transition keeps a system sound.
Step-IsSound : {u v : System} → Step u v → IsSound u → IsSound v
unfolding stop
Step-IsSound (submits w id run context) s =
    let k = limits_kept_submit w.scheduler id run context in
    record {
      valid = submit-IsValid id run context s.valid;
      exact = λ j. running_at-submit w.scheduler id run context j ∙ s.exact j;
      single = s.single;
      workers = ground arith;
      limited = ground arith;
    }
Step-IsSound (cancels w id) s =
    let k = limits_kept w.scheduler id in
    record {
      valid = cancel-IsValid id s.valid;
      exact = λ j. running_at-cancel w.scheduler id j ∙ s.exact j;
      single = s.single;
      workers = ground arith;
      limited = ground arith;
    }
Step-IsSound (releases w id) s =
    let k = limits_kept w.scheduler id in
    record {
      valid = release-IsValid id s.valid;
      exact = λ j. running_at-release w.scheduler id j s.valid ∙ s.exact j;
      single = s.single;
      workers = ground arith;
      limited = ground arith;
    }
Step-IsSound (stops w) s = record {
  valid = stop-IsValid s.valid;
  exact = s.exact;
  single = s.single;
  workers = s.workers;
  limited = s.limited;
}
Step-IsSound (takes w id room e) s =
    let k = limits_kept w.scheduler id in
    record {
      valid = worker_take-IsValid s.valid;
      exact = λ j.
          take_exact w.scheduler w.held id j (running_at-take w.scheduler id j s.valid e)
            (s.exact j);
      single =
          (take_fresh w.scheduler w.held id (take_oldest id s.valid e).0 (s.exact id), s.single);
      workers = ground arith;
      limited = ground arith;
    }
Step-IsSound (finishes w id h) s =
    let k = limits_kept w.scheduler id in
    record {
      valid = worker_finish-IsValid id s.valid;
      exact = λ j. finish_exact w.scheduler w.held id j (s.exact j);
      single = remove-NoDup id w.held s.single;
      workers = omega (arith, length-remove id w.held, s.workers, k.6);
      limited = ground arith;
    }

fresh_idle : (n j : ℕ) → find_task j (replicate n empty_slot) ≡ none
unfolding find_task
fresh_idle zero j = refl
fresh_idle (suc n) j = fresh_idle n j

abbrev pub fresh_system : ℕ → ℕ → System
fresh_system active outstanding = record {
  scheduler = started_scheduler active outstanding;
  held = [];
}

fresh-IsSound : (active outstanding : ℕ) → IsSound (fresh_system active outstanding)
unfolding contains
fresh-IsSound active outstanding = record {
  valid = started-IsValid active outstanding;
  exact = λ j. ground (arith, fresh_idle outstanding j);
  single = tt;
  workers = omega arith;
  limited = refl;
}

along-IsSound : {u w : System} → IsSound u → Reach u w → IsSound w
along-IsSound s here = s
along-IsSound s (next r step) = Step-IsSound step (along-IsSound s r)

-- From a new scheduler on, whatever the order of the owner's calls and of the workers' actions,
-- the running tasks are exactly those that a worker holds, no two workers hold one, and there are
-- never more of them than the active limit.
pub Reach-IsSound :
    (active outstanding : ℕ) {w : System}
    → Reach (fresh_system active outstanding) w
    → IsSound w × (length w.held ≤ w.scheduler.active_limit)
Reach-IsSound active outstanding r =
    let s = along-IsSound (fresh-IsSound active outstanding) r in
    (s, omega (arith, s.workers, s.limited))

-- Along every interleaving a worker that ends finds its own task and completes it; until then no
-- call of the owner releases or cancels the task.
pub held_task_completes :
    (active outstanding : ℕ) {w : System} (id : ℕ)
    → Reach (fresh_system active outstanding) w
    → contains id w.held ≡ true
    → (status_of (worker_finish w.scheduler id) id ≡ some TaskStatus.completed)
      × ((release w.scheduler id).0 ≡ SchedulerStatus.err_argument)
      × ((cancel w.scheduler id).1 ≡ false)
unfolding worker_finish release cancel
held_task_completes active outstanding {w} id r h =
    let s = along-IsSound (fresh-IsSound active outstanding) r in
    let running = s.exact id in
    (
      ground (arith, find_task-with_status TaskStatus.completed id w.scheduler.tasks id),
      ground arith,
      ground arith,
    )
