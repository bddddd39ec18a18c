-- ===== src/Scheduler/Slots.antt =====
-- How the writes to the slots of src/aivm_worker_scheduler.c relate to `find_task` and to the number
-- of occupied slots.
use ai_vm.Common.{
  ℕ, suc, ◌<◌, ◌≡◌, refl, ◌≢◌, true, none, some, List, [], ◌∷◌, ◌==◌, if◌then◌else◌, arith, length,
}
use ai_vm.Scheduler.{
  Task, TaskStatus, find_task, update_task, has_free_slot, fill_free_slot, with_status, vacated,
}

-- No two occupied slots have one submission id.
abbrev pub Distinct : List Task → Type 0
Distinct [] = Unit
Distinct (t ∷ ts) = (t.occupied ≡ true → find_task t.submission_id ts ≡ none) × Distinct ts

abbrev pub occupied_count : List Task → ℕ
occupied_count [] = 0
occupied_count (t ∷ ts) = if t.occupied then suc (occupied_count ts) else occupied_count ts

-- What is found has the id and is occupied.
pub find_task-found :
    (id : ℕ) (ts : List Task) {t : Task}
    → find_task id ts ≡ some t
    → (t.occupied ≡ true) × (t.submission_id ≡ id)
unfolding find_task
find_task-found id [] e = absurd (ground arith)
find_task-found id (u ∷ ts) {t} e = ground (arith, find_task-found id ts {t = t})

module _ (status : TaskStatus) (id : ℕ) where
  pub find_task-with_status :
      (ts : List Task) (j : ℕ)
      → find_task j (update_task id (with_status status) ts) ≡ (
          if j == id
          then elim (find_task id ts) [ none ↦ none | some t ↦ some (with_status status t) ]
          else find_task j ts)
  unfolding find_task update_task
  find_task-with_status [] j = ground arith
  find_task-with_status (t ∷ ts) j = ground (arith, find_task-with_status ts j)

  pub occupied_count-with_status :
      (ts : List Task) → occupied_count (update_task id (with_status status) ts) ≡ occupied_count ts
  unfolding update_task
  occupied_count-with_status [] = refl
  occupied_count-with_status (t ∷ ts) = ground (arith, occupied_count-with_status ts)

  pub length-with_status :
      (ts : List Task) → length (update_task id (with_status status) ts) ≡ length ts
  unfolding update_task
  length-with_status [] = refl
  length-with_status (t ∷ ts) = ground (arith, length-with_status ts)

  pub with_status-Distinct :
      (ts : List Task) → Distinct ts → Distinct (update_task id (with_status status) ts)
  unfolding update_task
  with_status-Distinct [] d = tt
  with_status-Distinct (t ∷ ts) d =
      ground (arith, with_status-Distinct ts d.1, find_task-with_status ts t.submission_id, d.0)

module _ (id : ℕ) where
  find_task-vacated_ne :
      (ts : List Task) (j : ℕ) → j ≢ id → find_task j (update_task id vacated ts) ≡ find_task j ts
  unfolding find_task update_task
  find_task-vacated_ne [] j h = refl
  find_task-vacated_ne (t ∷ ts) j h = ground (arith, find_task-vacated_ne ts j h)

  find_task-vacated_self :
      (ts : List Task) → Distinct ts → find_task id (update_task id vacated ts) ≡ none
  unfolding find_task update_task
  find_task-vacated_self [] d = refl
  find_task-vacated_self (t ∷ ts) d = ground (arith, find_task-vacated_self ts d.1, d.0)

  pub find_task-vacated :
      (ts : List Task) (j : ℕ)
      → Distinct ts
      → find_task j (update_task id vacated ts) ≡ (if j == id then none else find_task j ts)
  find_task-vacated ts j d = ground (arith, find_task-vacated_ne ts j, find_task-vacated_self ts d)

  pub occupied_count-vacated :
      (ts : List Task) {t : Task}
      → find_task id ts ≡ some t
      → suc (occupied_count (update_task id vacated ts)) ≡ occupied_count ts
  unfolding find_task update_task
  occupied_count-vacated [] e = absurd (ground arith)
  occupied_count-vacated (u ∷ ts) {t} e = ground (arith, occupied_count-vacated ts {t = t})

  pub length-vacated : (ts : List Task) → length (update_task id vacated ts) ≡ length ts
  unfolding update_task
  length-vacated [] = refl
  length-vacated (t ∷ ts) = ground (arith, length-vacated ts)

  pub vacated-Distinct : (ts : List Task) → Distinct ts → Distinct (update_task id vacated ts)
  unfolding update_task
  vacated-Distinct [] d = tt
  vacated-Distinct (t ∷ ts) d =
      ground (arith, vacated-Distinct ts d.1, find_task-vacated ts t.submission_id d.1, d.0)

module _ (new : Task) (is_new : new.occupied ≡ true) where
  pub find_task-fill :
      (ts : List Task) (j : ℕ)
      → find_task new.submission_id ts ≡ none
      → has_free_slot ts ≡ true
      → find_task j (fill_free_slot new ts)
        ≡ (if j == new.submission_id then some new else find_task j ts)
  unfolding find_task fill_free_slot has_free_slot
  find_task-fill [] j e f = absurd (ground arith)
  find_task-fill (t ∷ ts) j e f = ground (arith, find_task-fill ts j)

  pub occupied_count-fill :
      (ts : List Task)
      → has_free_slot ts ≡ true
      → occupied_count (fill_free_slot new ts) ≡ suc (occupied_count ts)
  unfolding fill_free_slot has_free_slot
  occupied_count-fill [] f = absurd (ground arith)
  occupied_count-fill (t ∷ ts) f = ground (arith, occupied_count-fill ts)

  pub length-fill : (ts : List Task) → length (fill_free_slot new ts) ≡ length ts
  unfolding fill_free_slot
  length-fill [] = refl
  length-fill (t ∷ ts) = ground (arith, length-fill ts)

  pub fill-Distinct :
      (ts : List Task)
      → find_task new.submission_id ts ≡ none
      → has_free_slot ts ≡ true
      → Distinct ts
      → Distinct (fill_free_slot new ts)
  unfolding fill_free_slot has_free_slot find_task
  fill-Distinct [] e f d = tt
  fill-Distinct (t ∷ ts) e f d =
      ground (arith, fill-Distinct ts, find_task-fill ts t.submission_id, d.0, d.1)

-- A slot is free as long as fewer are occupied than there are.
pub has_free_slot_of_count :
    (ts : List Task) → occupied_count ts < length ts → has_free_slot ts ≡ true
unfolding has_free_slot
has_free_slot_of_count [] h = absurd (omega arith)
has_free_slot_of_count (t ∷ ts) h = ground (arith, has_free_slot_of_count ts)
