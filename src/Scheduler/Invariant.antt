-- ===== src/Scheduler/Invariant.antt =====
-- The well-formedness of a scheduler and its transitions (src/aivm_worker_scheduler.c).
use ai_vm.Common.{
  ℕ, zero, suc, ◌-◌, ◌≤◌, ◌≡◌, refl, Option, none, some, List, [], ◌∷◌, arith, length, replicate,
  length-replicate, if_cases, option_cases,
}
use ai_vm.Scheduler.{
  Task, TaskStatus, Scheduler, SchedulerStatus, find_task, update_task, vacated, new_task,
  empty_slot, fresh_scheduler, submit, cancel, release, worker_take, worker_finish, stop, Taken,
  find_queued_task, is_terminal,
}
use ai_vm.Scheduler.Slots.{
  Distinct, occupied_count, occupied_count-with_status, length-with_status, with_status-Distinct,
  occupied_count-vacated, length-vacated, vacated-Distinct, occupied_count-fill, length-fill,
  fill-Distinct,
}

-- The admission count is the number of occupied slots, whose ids differ, and there are as many
-- slots as the limit says.
pub record IsValid (s : Scheduler) : Type 0 where
  pub slots : length s.tasks ≡ s.outstanding_limit
  pub counted : s.outstanding_count ≡ occupied_count s.tasks
  pub distinct : Distinct s.tasks

pub occupied_count-le-length : (ts : List Task) → occupied_count ts ≤ length ts
occupied_count-le-length [] = omega arith
occupied_count-le-length (t ∷ ts) = ground (arith, occupied_count-le-length ts)

-- Admission never exceeds the limit.
pub outstanding_le_limit : {s : Scheduler} → IsValid s → s.outstanding_count ≤ s.outstanding_limit
outstanding_le_limit {s} v = omega (arith, occupied_count-le-length s.tasks)

occupied_count-replicate : (n : ℕ) → occupied_count (replicate n empty_slot) ≡ 0
occupied_count-replicate zero = refl
occupied_count-replicate (suc n) = occupied_count-replicate n

replicate-Distinct : (n : ℕ) → Distinct (replicate n empty_slot)
replicate-Distinct zero = tt
replicate-Distinct (suc n) = (λ e. cc, replicate-Distinct n)

-- A new scheduler with its workers.
abbrev pub started_scheduler : ℕ → ℕ → Scheduler
started_scheduler active outstanding = record (fresh_scheduler active outstanding) {
  worker_count = active;
}

pub started-IsValid : (active outstanding : ℕ) → IsValid (started_scheduler active outstanding)
started-IsValid active outstanding = record {
  slots = length-replicate outstanding empty_slot;
  counted = omega (arith, occupied_count-replicate outstanding);
  distinct = replicate-Distinct outstanding;
}

pub submit-IsValid :
    {s : Scheduler} (id : ℕ) (run context : Option ℕ)
    → IsValid s
    → IsValid (submit s id run context).1
unfolding submit
submit-IsValid id none context v = v
submit-IsValid {s} id (some run) context v =
    let new = new_task id run context in
    ground (
      arith,
      occupied_count-fill new refl s.tasks,
      length-fill new refl s.tasks,
      fill-Distinct new refl s.tasks,
    )

pub cancel-IsValid : {s : Scheduler} (id : ℕ) → IsValid s → IsValid (cancel s id).2
unfolding cancel
cancel-IsValid {s} id v = ground (
  arith,
  occupied_count-with_status TaskStatus.canceled id s.tasks,
  length-with_status TaskStatus.canceled id s.tasks,
  with_status-Distinct TaskStatus.canceled id s.tasks,
)

release_found-IsValid :
    (s : Scheduler) (id : ℕ) (t : Task)
    → find_task id s.tasks ≡ some t
    → IsValid s
    → IsValid (record s {
      tasks = update_task id vacated s.tasks;
      outstanding_count = s.outstanding_count - 1;
    })
release_found-IsValid s id t e v = ground (
  arith,
  occupied_count-vacated id s.tasks e,
  length-vacated id s.tasks,
  vacated-Distinct id s.tasks,
)

pub release-IsValid : {s : Scheduler} (id : ℕ) → IsValid s → IsValid (release s id).1
unfolding release
release-IsValid {s} id v =
    option_cases (λ (r : SchedulerStatus × Scheduler). IsValid r.1) (find_task id s.tasks) (λ _. v)
      λ t e.
        if_cases (λ (r : SchedulerStatus × Scheduler). IsValid r.1) (is_terminal t.status)
          (λ _. release_found-IsValid s id t e v) (λ _. v)

pub worker_take-IsValid : {s : Scheduler} → IsValid s → IsValid (worker_take s).1
unfolding worker_take
worker_take-IsValid {s} v =
    if_cases (λ (r : Taken × Scheduler). IsValid r.1) s.stopping (λ _. v)
      λ _.
        option_cases (λ (r : Taken × Scheduler). IsValid r.1) (find_queued_task s.tasks) (λ _. v)
          λ t e. ground (
            arith,
            occupied_count-with_status TaskStatus.running t.submission_id s.tasks,
            length-with_status TaskStatus.running t.submission_id s.tasks,
            with_status-Distinct TaskStatus.running t.submission_id s.tasks,
          )

pub worker_finish-IsValid : {s : Scheduler} (id : ℕ) → IsValid s → IsValid (worker_finish s id)
unfolding worker_finish
worker_finish-IsValid {s} id v = ground (
  arith,
  occupied_count-with_status TaskStatus.completed id s.tasks,
  length-with_status TaskStatus.completed id s.tasks,
  with_status-Distinct TaskStatus.completed id s.tasks,
)

pub stop-IsValid : {s : Scheduler} → IsValid s → IsValid (stop s)
unfolding stop
stop-IsValid v = ground arith
