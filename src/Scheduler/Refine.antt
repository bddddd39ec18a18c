-- ===== src/Scheduler/Refine.antt =====
-- The scheduler as a ledger of submission ids, which knows nothing of slots: the specification
-- of src/include/aivm_worker_scheduler.h, where only a release returns admission credit.
use mathlib.Core.Path.{fun_ext}
use ai_vm.Common.{
  ℕ, ◌+◌, ◌-◌, ◌≡◌, refl, Bool, true, false, Option, none, some, leb, if◌then◌else◌, arith, write,
  Option-cases, inl, inr,
}
use ai_vm.Scheduler.{
  Task, TaskStatus, Scheduler, SchedulerStatus, find_task, update_task, has_free_slot,
  fill_free_slot, with_status, vacated, new_task, submit, cancel, release, worker_finish, status_of,
  is_queued, is_running, is_terminal,
}
use ai_vm.Scheduler.Slots.{
  find_task-with_status, find_task-vacated, find_task-fill, has_free_slot_of_count,
}
use ai_vm.Scheduler.Invariant.{IsValid}

pub record Ledger : Type 0 where
  pub status : ℕ → Option TaskStatus
  pub used : ℕ
  pub credit : ℕ

abbrev pub ledger : Scheduler → Ledger
ledger s = record { status = status_of s; used = s.outstanding_count; credit = s.outstanding_limit }

-- A new id is admitted as long as there is credit.
unfoldable pub admit : Ledger → ℕ → SchedulerStatus × Ledger
admit l id = if leb l.credit l.used then (SchedulerStatus.err_limit, l) else elim (l.status id) [
  | some t ↦ (SchedulerStatus.err_limit, l)
  | none ↦ (
    SchedulerStatus.ok,
    record l { status = write l.status id (some TaskStatus.queued); used = l.used + 1 },
  )
]

-- Only a task that waits is canceled.
unfoldable pub strike : Ledger → ℕ → SchedulerStatus × Bool × Ledger
strike l id = elim (l.status id) [
  | none ↦ (SchedulerStatus.err_argument, false, l)
  | some t ↦
      if is_queued t
      then (
        SchedulerStatus.ok,
        true,
        record l { status = write l.status id (some TaskStatus.canceled) },
      )
      else (SchedulerStatus.ok, false, l)
]

-- Only a task that has ended is released, and its credit returns.
unfoldable pub settle : Ledger → ℕ → SchedulerStatus × Ledger
settle l id = elim (l.status id) [
  | none ↦ (SchedulerStatus.err_argument, l)
  | some t ↦
      if is_terminal t
      then (SchedulerStatus.ok, record l { status = write l.status id none; used = l.used - 1 })
      else (SchedulerStatus.err_argument, l)
]

-- A running task becomes completed; no other changes.
unfoldable pub complete : Ledger → ℕ → Ledger
complete l id = elim (l.status id) [
  | none ↦ l
  | some t ↦
      if is_running t
      then record l { status = write l.status id (some TaskStatus.completed) }
      else l
]

with_status-status_of :
    (s : Scheduler) (status : TaskStatus) (id : ℕ) {t : Task}
    → find_task id s.tasks ≡ some t
    → status_of (record s { tasks = update_task id (with_status status) s.tasks })
      ≡ write (status_of s) id (some status)
with_status-status_of s status id {t} e =
    fun_ext λ j. ground (arith, find_task-with_status status id s.tasks j)

fill-status_of :
    (s : Scheduler) (id run : ℕ) (context : Option ℕ)
    → find_task id s.tasks ≡ none
    → has_free_slot s.tasks ≡ true
    → status_of (record s {
      tasks = fill_free_slot (new_task id run context) s.tasks;
      outstanding_count = s.outstanding_count + 1;
    })
      ≡ write (status_of s) id (some TaskStatus.queued)
fill-status_of s id run context e f =
    fun_ext λ j. ground (arith, find_task-fill (new_task id run context) refl s.tasks j e f)

vacated-status_of :
    (s : Scheduler) (id : ℕ)
    → IsValid s
    → status_of (record s {
      tasks = update_task id vacated s.tasks;
      outstanding_count = s.outstanding_count - 1;
    })
      ≡ write (status_of s) id none
vacated-status_of s id v = fun_ext λ j. ground (arith, find_task-vacated id s.tasks j v.distinct)

-- A submission of a valid scheduler answers as the ledger's admission does, and leaves its ledger;
-- so a slot is always there for a submission that the count admits.
pub submit_refines :
    {s : Scheduler} (id run : ℕ) (context : Option ℕ)
    → IsValid s
    → let (answer, s') = submit s id (some run) context in (answer, ledger s') ≡ admit (ledger s) id
unfolding submit admit
submit_refines {s} id run context v = elim (Option-cases (find_task id s.tasks)) [
  | inl e ↦
      let free = has_free_slot_of_count s.tasks in
      ground
        (arith, free, v, λ (f : has_free_slot s.tasks ≡ true). fill-status_of s id run context e f)
  | inr (t, e) ↦ ground arith
]

-- A cancellation answers as the ledger's does, and leaves its ledger.
pub cancel_refines :
    (s : Scheduler) (id : ℕ)
    → let (answer, canceled, s') = cancel s id in
      (answer, canceled, ledger s') ≡ strike (ledger s) id
unfolding cancel strike
cancel_refines s id = elim (Option-cases (find_task id s.tasks)) [
  | inl e ↦ ground arith
  | inr (t, e) ↦ ground (arith, with_status-status_of s TaskStatus.canceled id e)
]

-- A release of a valid scheduler answers as the ledger's does, and leaves its ledger.
pub release_refines :
    {s : Scheduler} (id : ℕ)
    → IsValid s
    → let (answer, s') = release s id in (answer, ledger s') ≡ settle (ledger s) id
unfolding release settle
release_refines {s} id v = elim (Option-cases (find_task id s.tasks)) [
  | inl e ↦ ground arith
  | inr (t, e) ↦ ground (arith, vacated-status_of s id v)
]

-- The end of a task's function completes the task in the ledger, and changes nothing else.
pub finish_refines : (s : Scheduler) (id : ℕ) → ledger (worker_finish s id) ≡ complete (ledger s) id
unfolding worker_finish complete
finish_refines s id = elim (Option-cases (find_task id s.tasks)) [
  | inl e ↦ ground arith
  | inr (t, e) ↦ ground (arith, with_status-status_of s TaskStatus.completed id e)
]
