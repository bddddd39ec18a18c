-- ===== src/Scheduler/Tests.antt =====
-- The scheduler of src/aivm_worker_scheduler.c on a concrete sequence of calls.
use ai_vm.Common.{ℕ, ◌≤◌, ◌<◌, ◌≡◌, ◌≢◌, refl, true, false, none, some, [], ◌∷◌, arith, write}
use ai_vm.Scheduler.{
  TaskStatus, Scheduler, SchedulerStatus, Host, Taken, create, submit, cancel, release, worker_take,
  worker_finish, status_of, find_task, update_task, prefer, select_queued, find_queued_task,
  has_free_slot, fill_free_slot,
}
use ai_vm.Scheduler.Capacity.{active_capacity, active_capacity_bounds}
use ai_vm.Scheduler.Invariant.{IsValid, started_scheduler, started-IsValid, submit-IsValid}
use ai_vm.Scheduler.Creation.{Created, create_starts_workers}
use ai_vm.Scheduler.{start_workers, join_workers, stop}
use ai_vm.Scheduler.Refine.{
  ledger, admit, strike, settle, complete, submit_refines, cancel_refines, release_refines,
  finish_refines,
}
use ai_vm.Scheduler.Fifo.{take_oldest, take_waits}
use ai_vm.Scheduler.Workers.{System, Reach, IsSound, contains, submits, takes, here, next}
use ai_vm.Scheduler.Workers.Sound.{fresh_system, Reach-IsSound, held_task_completes}

abbrev fresh : Scheduler
fresh = started_scheduler 1 2

abbrev one_task : Scheduler
one_task = (submit fresh 5 (some 0) none).1

abbrev two_tasks : Scheduler
two_tasks = (submit one_task 3 (some 0) none).1

abbrev running_one : Scheduler
running_one = (worker_take two_tasks).1

two_tasks-IsValid : IsValid two_tasks
two_tasks-IsValid =
    submit-IsValid 3 (some 0) none (submit-IsValid 5 (some 0) none (started-IsValid 1 2))

abbrev host : Host
host = record { memory = true; mutex = true; condition = true; threads = 4 }

created : (create host 1 2).1 ≡ some fresh
unfolding create start_workers
created = refl

-- A host that grants one thread where two are asked for.
too_few : create (record host { threads = 1 }) 2 2 ≡ (SchedulerStatus.err_system, none)
unfolding create start_workers join_workers stop
too_few = refl

create_starts_workers_example : Created host 1 2 (create host 1 2)
create_starts_workers_example = create_starts_workers host 1 2

submit_refines_example :
    let (answer, s) = submit fresh 5 (some 0) none in (answer, ledger s) ≡ admit (ledger fresh) 5
submit_refines_example = submit_refines 5 0 none (started-IsValid 1 2)

cancel_refines_example :
    let (answer, canceled, s) = cancel two_tasks 3 in
    (answer, canceled, ledger s) ≡ strike (ledger two_tasks) 3
cancel_refines_example = cancel_refines two_tasks 3

release_refines_example :
    let (answer, s) = release two_tasks 3 in (answer, ledger s) ≡ settle (ledger two_tasks) 3
release_refines_example = release_refines 3 two_tasks-IsValid

finish_refines_example : ledger (worker_finish running_one 3) ≡ complete (ledger running_one) 3
finish_refines_example = finish_refines running_one 3

takes_three : (worker_take two_tasks).0 ≡ Taken.runs 3
unfolding worker_take submit find_task has_free_slot fill_free_slot find_queued_task select_queued
    prefer update_task
takes_three = refl

take_oldest_example :
    (status_of two_tasks 3 ≡ some TaskStatus.queued)
    × (status_of running_one ≡ write (status_of two_tasks) 3 (some TaskStatus.running))
    × ((j : ℕ) → status_of two_tasks j ≡ some TaskStatus.queued → 3 ≤ j)
take_oldest_example = take_oldest 3 two_tasks-IsValid takes_three

fresh_waits : (worker_take fresh).0 ≡ Taken.waits
unfolding worker_take find_queued_task select_queued prefer
fresh_waits = refl

take_waits_example : (fresh.stopping ≡ false) × (status_of fresh 5 ≢ some TaskStatus.queued)
take_waits_example = take_waits fresh 5 fresh_waits

active_capacity_bounds_example :
    (0 < active_capacity 8 4 0)
    × (0 < 4 → active_capacity 8 4 0 ≤ 4)
    × (0 < 0 → active_capacity 8 4 0 ≤ 0)
    × (active_capacity 8 4 0 ≤ 8)
active_capacity_bounds_example = active_capacity_bounds 8 4 0 (omega arith)

-- Two submissions, then a worker takes the older task.
abbrev busy : System
busy = record { scheduler = running_one; held = 3 ∷ [] }

two_workers : 0 < two_tasks.worker_count
unfolding submit find_task has_free_slot fill_free_slot
two_workers = omega arith

busy_reached : Reach (fresh_system 1 2) busy
busy_reached =
    next
      (next (next here (submits (fresh_system 1 2) 5 (some 0) none))
        (submits (record { scheduler = one_task; held = [] }) 3 (some 0) none))
      (takes (record { scheduler = two_tasks; held = [] }) 3 two_workers takes_three)

Reach-IsSound_example : IsSound busy × (1 ≤ running_one.active_limit)
Reach-IsSound_example = Reach-IsSound 1 2 busy_reached

held_three : contains 3 busy.held ≡ true
unfolding contains
held_three = refl

held_task_completes_example :
    (status_of (worker_finish running_one 3) 3 ≡ some TaskStatus.completed)
    × ((release running_one 3).0 ≡ SchedulerStatus.err_argument)
    × ((cancel running_one 3).1 ≡ false)
held_task_completes_example = held_task_completes 1 2 3 busy_reached held_three
