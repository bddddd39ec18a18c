-- ===== src/Scheduler/Workers.antt =====
-- The scheduler under its worker threads and its owner (src/aivm_worker_scheduler.c): an
-- interleaving is a sequence of transitions, each under the mutex. A worker that runs a task
-- holds the task's submission id, which it keeps in a local variable across the unlocked call.
pub mod Sound
use ai_vm.Common.{
  ℕ, zero, suc, ◌+◌, ◌-◌, ◌≤◌, ◌<◌, ◌≡◌, refl, ◌≢◌, Bool, true, false, not, ◌&&◌, ◌||◌, Option,
  none, some, List, [], ◌∷◌, ltb, leb, ◌==◌, if◌then◌else◌, arith, length, replicate, Option-cases,
  Bool-cases, inl, inr, write, ◌∙◌,
}
use ai_vm.Scheduler.{
  Task, TaskStatus, Scheduler, SchedulerStatus, Host, Taken, find_task, has_free_slot, new_task,
  create, submit, cancel, release, worker_take, worker_finish, stop, status_of, is_running,
  is_queued, is_terminal, empty_slot,
}
use ai_vm.Scheduler.Slots.{find_task-with_status, find_task-vacated, find_task-fill}
use ai_vm.Scheduler.Invariant.{
  IsValid, submit-IsValid, cancel-IsValid, release-IsValid, worker_take-IsValid,
  worker_finish-IsValid, stop-IsValid,
}
use ai_vm.Scheduler.Fifo.{take_oldest}

pub record System : Type 0 where
  pub scheduler : Scheduler
  pub held : List ℕ

unfoldable pub contains : ℕ → List ℕ → Bool
contains id [] = false
contains id (x ∷ xs) = x == id || contains id xs

unfoldable pub remove : ℕ → List ℕ → List ℕ
remove id [] = []
remove id (x ∷ xs) = if x == id then remove id xs else x ∷ remove id xs

pub data Step : System → System → Type 0 where
  submits :
      (w : System) (id : ℕ) (run context : Option ℕ)
      → Step w (record w { scheduler = (submit w.scheduler id run context).1 })
  cancels : (w : System) (id : ℕ) → Step w (record w { scheduler = (cancel w.scheduler id).2 })
  releases : (w : System) (id : ℕ) → Step w (record w { scheduler = (release w.scheduler id).1 })
  stops : (w : System) → Step w (record w { scheduler = stop w.scheduler })
  takes :
      (w : System) (id : ℕ)
      → length w.held < w.scheduler.worker_count
      → (worker_take w.scheduler).0 ≡ Taken.runs id
      → Step w (record w { scheduler = (worker_take w.scheduler).1; held = id ∷ w.held })
  finishes :
      (w : System) (id : ℕ)
      → contains id w.held ≡ true
      → Step w (record w { scheduler = worker_finish w.scheduler id; held = remove id w.held })

pub data Reach (w : System) : System → Type 0 where
  here : Reach w w
  next : {u v : System} → Reach w u → Step u v → Reach w v

abbrev pub running_at : Scheduler → ℕ → Bool
running_at s id = elim (find_task id s.tasks) [ none ↦ false | some t ↦ is_running t.status ]

abbrev pub NoDup : List ℕ → Type 0
NoDup [] = Unit
NoDup (x ∷ xs) = (contains x xs ≡ false) × NoDup xs

-- The running tasks are those that a worker holds, each held by one.
pub record IsSound (w : System) : Type 0 where
  pub valid : IsValid w.scheduler
  pub exact : (id : ℕ) → running_at w.scheduler id ≡ contains id w.held
  pub single : NoDup w.held
  pub workers : length w.held ≤ w.scheduler.worker_count
  pub limited : w.scheduler.worker_count ≡ w.scheduler.active_limit

pub contains-remove :
    (id : ℕ) (xs : List ℕ) (j : ℕ)
    → contains j (remove id xs) ≡ (if j == id then false else contains j xs)
unfolding contains remove
contains-remove id [] j = ground arith
contains-remove id (x ∷ xs) j = ground (arith, contains-remove id xs j)

pub remove-NoDup : (id : ℕ) (xs : List ℕ) → NoDup xs → NoDup (remove id xs)
unfolding remove
remove-NoDup id [] d = tt
remove-NoDup id (x ∷ xs) d = ground (arith, remove-NoDup id xs d.1, contains-remove id xs x, d.0)

pub length-remove : (id : ℕ) (xs : List ℕ) → length (remove id xs) ≤ length xs
unfolding remove
length-remove id [] = omega arith
length-remove id (x ∷ xs) = ground (arith, length-remove id xs)

pub running_at-submit :
    (s : Scheduler) (id : ℕ) (run context : Option ℕ) (j : ℕ)
    → running_at (submit s id run context).1 j ≡ running_at s j
unfolding submit
running_at-submit s id none context j = refl
running_at-submit s id (some run) context j =
    ground (arith, find_task-fill (new_task id run context) refl s.tasks j)

pub running_at-cancel : (s : Scheduler) (id j : ℕ) → running_at (cancel s id).2 j ≡ running_at s j
unfolding cancel
running_at-cancel s id j = ground (arith, find_task-with_status TaskStatus.canceled id s.tasks j)

pub running_at-release :
    (s : Scheduler) (id j : ℕ) → IsValid s → running_at (release s id).1 j ≡ running_at s j
unfolding release
running_at-release s id j v = ground (arith, find_task-vacated id s.tasks j v.distinct)

pub running_at-finish :
    (s : Scheduler) (id j : ℕ)
    → running_at (worker_finish s id) j ≡ (if j == id then false else running_at s j)
unfolding worker_finish
running_at-finish s id j = ground (arith, find_task-with_status TaskStatus.completed id s.tasks j)

pub running_of_status :
    (s s' : Scheduler) (id j : ℕ)
    → status_of s' j ≡ write (status_of s) id (some TaskStatus.running) j
    → running_at s' j ≡ (if j == id then true else running_at s j)
running_of_status s s' id j e = ground arith

pub running_at-take :
    (s : Scheduler) (id j : ℕ)
    → IsValid s
    → (worker_take s).0 ≡ Taken.runs id
    → running_at (worker_take s).1 j ≡ (if j == id then true else running_at s j)
running_at-take s id j v e =
    let (_, state, _) = take_oldest id v e in
    running_of_status s (worker_take s).1 id j λ i. state i j

pub limits_kept_submit :
    (s : Scheduler) (id : ℕ) (run context : Option ℕ)
    → ((submit s id run context).1.worker_count ≡ s.worker_count)
      × ((submit s id run context).1.active_limit ≡ s.active_limit)
unfolding submit
limits_kept_submit s id none context = (refl, refl)
limits_kept_submit s id (some run) context = ground arith

pub limits_kept :
    (s : Scheduler) (id : ℕ)
    → ((cancel s id).2.worker_count ≡ s.worker_count)
      × ((cancel s id).2.active_limit ≡ s.active_limit)
      × ((release s id).1.worker_count ≡ s.worker_count)
      × ((release s id).1.active_limit ≡ s.active_limit)
      × ((worker_take s).1.worker_count ≡ s.worker_count)
      × ((worker_take s).1.active_limit ≡ s.active_limit)
      × ((worker_finish s id).worker_count ≡ s.worker_count)
      × ((worker_finish s id).active_limit ≡ s.active_limit)
unfolding cancel release worker_take worker_finish
limits_kept s id = (
  ground arith,
  ground arith,
  ground arith,
  ground arith,
  ground arith,
  ground arith,
  ground arith,
  ground arith,
)
