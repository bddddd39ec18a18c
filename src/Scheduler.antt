-- ===== src/Scheduler.antt =====
-- The worker scheduler (src/aivm_worker_scheduler.c, src/include/aivm_worker_scheduler.h) and the
-- choice of its active limit (src/aivm_worker_capacity.c). What a function does while it holds
-- the mutex is one transition on the state; the threads, the mutex and the condition are the
-- host's. A wait gives the mutex up, so it ends a transition, and the check behind it is another.
pub mod Slots
pub mod Capacity
pub mod Invariant
pub mod Creation
pub mod Refine
pub mod Fifo
pub mod Workers
mod Tests
use ai_vm.Common.{
  ℕ, zero, suc, ◌+◌, ◌-◌, Bool, true, false, not, ◌&&◌, ◌||◌, Option, none, some, List, [], ◌∷◌,
  ltb, leb, ◌==◌, if◌then◌else◌, replicate,
}

pub data TaskStatus : Type 0 where
  queued running completed canceled : TaskStatus

pub data SchedulerStatus : Type 0 where
  ok err_argument err_limit err_memory err_system : SchedulerStatus

-- `AivmWorkerSchedulerTask`. `run` and `context` are pointers, which are only kept and called.
pub record Task : Type 0 where
  pub submission_id : ℕ
  pub run : Option ℕ
  pub context : Option ℕ
  pub status : TaskStatus
  pub occupied : Bool

pub record Scheduler : Type 0 where
  pub active_limit : ℕ
  pub outstanding_limit : ℕ
  pub outstanding_count : ℕ
  pub worker_count : ℕ
  pub stopping : Bool
  pub tasks : List Task

abbrev pub is_queued : TaskStatus → Bool
is_queued TaskStatus.queued = true
is_queued _ = false

abbrev pub is_running : TaskStatus → Bool
is_running TaskStatus.running = true
is_running _ = false

abbrev pub is_terminal : TaskStatus → Bool
is_terminal TaskStatus.completed = true
is_terminal TaskStatus.canceled = true
is_terminal _ = false

-- A slot as `calloc` leaves it.
abbrev pub empty_slot : Task
empty_slot = record {
  submission_id = 0;
  run = none;
  context = none;
  status = TaskStatus.queued;
  occupied = false;
}

-- `find_task`
unfoldable pub find_task : ℕ → List Task → Option Task
find_task id [] = none
find_task id (t ∷ ts) = if t.occupied && t.submission_id == id then some t else find_task id ts

-- The writes through the pointer that `find_task` returned.
unfoldable pub update_task : ℕ → (Task → Task) → List Task → List Task
update_task id f [] = []
update_task id f (t ∷ ts) =
    if t.occupied && t.submission_id == id then f t ∷ ts else t ∷ update_task id f ts

-- The body of the loop of `find_queued_task`, with the task selected so far.
unfoldable pub prefer : Option Task → Task → Option Task
prefer selected t =
    if t.occupied && is_queued t.status
    then elim selected [
      | none ↦ some t
      | some best ↦ if ltb t.submission_id best.submission_id then some t else some best
    ]
    else selected

unfoldable pub select_queued : Option Task → List Task → Option Task
unfolding prefer
select_queued selected [] = selected
select_queued selected (t ∷ ts) = select_queued (prefer selected t) ts

unfoldable pub find_queued_task : List Task → Option Task
unfolding select_queued
find_queued_task ts = select_queued none ts

-- Whether a slot is free, and the writes to the first free one.
unfoldable pub has_free_slot : List Task → Bool
has_free_slot [] = false
has_free_slot (t ∷ ts) = if t.occupied then has_free_slot ts else true

unfoldable pub fill_free_slot : Task → List Task → List Task
fill_free_slot new [] = []
fill_free_slot new (t ∷ ts) = if t.occupied then t ∷ fill_free_slot new ts else new ∷ ts

abbrev pub with_status : TaskStatus → Task → Task
with_status status t = record t { status = status }

abbrev pub vacated : Task → Task
vacated t = record t { occupied = false; run = none; context = none }

abbrev pub new_task : ℕ → ℕ → Option ℕ → Task
new_task id run context = record {
  submission_id = id;
  run = some run;
  context = context;
  status = TaskStatus.queued;
  occupied = true;
}

-- What the host grants a new scheduler: memory, a mutex, a condition, and how many threads,
-- of which the next one is refused.
pub record Host : Type 0 where
  pub memory : Bool
  pub mutex : Bool
  pub condition : Bool
  pub threads : ℕ

-- The scheduler before its workers are started.
abbrev pub fresh_scheduler : ℕ → ℕ → Scheduler
fresh_scheduler active outstanding = record {
  active_limit = active;
  outstanding_limit = outstanding;
  outstanding_count = 0;
  worker_count = 0;
  stopping = false;
  tasks = replicate outstanding empty_slot;
}

-- The part of `aivm_worker_scheduler_destroy` under the mutex.
unfoldable pub stop : Scheduler → Scheduler
stop s = record s { stopping = true }

-- `while (worker_count > 0U) { worker_count -= 1U; join_worker(...); }`, on the count of rounds.
unfoldable pub join_workers : ℕ → Scheduler → Scheduler
join_workers zero s = s
join_workers (suc rounds) s = join_workers rounds (record s { worker_count = s.worker_count - 1 })

-- The loop of `start_worker`, with the workers that are still to start and the threads that the host
-- still grants: whether all are started, and the scheduler. Where one is refused, those that were
-- started are stopped and joined.
unfoldable pub start_workers : ℕ → ℕ → Scheduler → Bool × Scheduler
unfolding stop join_workers
start_workers zero threads s = (true, s)
start_workers (suc left) zero s = (false, join_workers s.worker_count (stop s))
start_workers (suc left) (suc threads) s =
    start_workers left threads (record s { worker_count = s.worker_count + 1 })

-- `aivm_worker_scheduler_create`
unfoldable pub create : Host → ℕ → ℕ → SchedulerStatus × Option Scheduler
unfolding start_workers
create host active outstanding =
    if active == 0 || outstanding == 0 || ltb outstanding active
    then (SchedulerStatus.err_argument, none)
    else if not host.memory
    then (SchedulerStatus.err_memory, none)
    else if not host.mutex
    then (SchedulerStatus.err_system, none)
    else if not host.condition
    then (SchedulerStatus.err_system, none)
    else let (all, s) = start_workers active host.threads (fresh_scheduler active outstanding) in
      if all then (SchedulerStatus.ok, some s) else (SchedulerStatus.err_system, none)

-- `aivm_worker_scheduler_submit`
unfoldable pub submit : Scheduler → ℕ → Option ℕ → Option ℕ → SchedulerStatus × Scheduler
submit s id none context = (SchedulerStatus.err_argument, s)
submit s id (some run) context =
    if leb s.outstanding_limit s.outstanding_count
    then (SchedulerStatus.err_limit, s)
    else elim (find_task id s.tasks) [
      | some t ↦ (SchedulerStatus.err_limit, s)
      | none ↦
          if has_free_slot s.tasks
          then (
            SchedulerStatus.ok,
            record s {
              tasks = fill_free_slot (new_task id run context) s.tasks;
              outstanding_count = s.outstanding_count + 1;
            },
          )
          else (SchedulerStatus.err_limit, s)
    ]

-- What the loop of `aivm_worker_scheduler_await` finds: no task, a task to wait for, or a status.
pub data Awaited : Type 0 where
  missing pending : Awaited
  finished : TaskStatus → Awaited

unfoldable pub await : Scheduler → ℕ → Awaited
await s id = elim (find_task id s.tasks) [
  | none ↦ Awaited.missing
  | some t ↦ if is_terminal t.status then Awaited.finished t.status else Awaited.pending
]

-- `aivm_worker_scheduler_cancel`, with what it stores through `out_canceled`; beside ERR_ARGUMENT, where
-- the source stores nothing, stands false.
unfoldable pub cancel : Scheduler → ℕ → SchedulerStatus × Bool × Scheduler
cancel s id = elim (find_task id s.tasks) [
  | none ↦ (SchedulerStatus.err_argument, false, s)
  | some t ↦
      if is_queued t.status
      then (
        SchedulerStatus.ok,
        true,
        record s { tasks = update_task id (with_status TaskStatus.canceled) s.tasks },
      )
      else (SchedulerStatus.ok, false, s)
]

-- `aivm_worker_scheduler_release`
unfoldable pub release : Scheduler → ℕ → SchedulerStatus × Scheduler
release s id = elim (find_task id s.tasks) [
  | none ↦ (SchedulerStatus.err_argument, s)
  | some t ↦
      if is_terminal t.status
      then (
        SchedulerStatus.ok,
        record s {
          tasks = update_task id vacated s.tasks;
          outstanding_count = s.outstanding_count - 1;
        },
      )
      else (SchedulerStatus.err_argument, s)
]

-- What a worker thread does when it has the mutex and looks for work.
pub data Taken : Type 0 where
  waits leaves : Taken
  runs : ℕ → Taken

-- The selected slot is written through its submission id, which no other occupied slot has.
unfoldable pub worker_take : Scheduler → Taken × Scheduler
worker_take s = if s.stopping then (Taken.leaves, s) else elim (find_queued_task s.tasks) [
  | none ↦ (Taken.waits, s)
  | some t ↦ (
    Taken.runs t.submission_id,
    record s { tasks = update_task t.submission_id (with_status TaskStatus.running) s.tasks },
  )
]

-- What it does when the task's function has returned.
unfoldable pub worker_finish : Scheduler → ℕ → Scheduler
worker_finish s id = elim (find_task id s.tasks) [
  | none ↦ s
  | some t ↦
      if is_running t.status
      then record s { tasks = update_task id (with_status TaskStatus.completed) s.tasks }
      else s
]

abbrev pub status_of : Scheduler → ℕ → Option TaskStatus
status_of s id = elim (find_task id s.tasks) [ none ↦ none | some t ↦ some t.status ]
