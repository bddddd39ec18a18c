-- ===== src/Scheduler/Fifo.antt =====
-- Which task a worker takes (`find_queued_task` of src/aivm_worker_scheduler.c).
use mathlib.Core.Path.{fun_ext}
use ai_vm.Common.{
  ℕ, ◌≤◌, ◌≡◌, ◌≢◌, true, false, ◌&&◌, Option, none, some, List, [], ◌∷◌, ◌==◌, arith, write, ◌∙◌,
  ap, Option-cases, Bool-cases, inl, inr, ◌⊎◌,
}
use ai_vm.Scheduler.{
  Task, TaskStatus, Scheduler, find_task, prefer, select_queued, find_queued_task, worker_take,
  status_of, is_queued, Taken, update_task, with_status,
}
use ai_vm.Scheduler.Slots.{Distinct, find_task-with_status, find_task-found}
use ai_vm.Scheduler.Invariant.{IsValid}

abbrev IsWaiting : List Task → ℕ → Type 0
IsWaiting ts j = (t : Task) × (find_task j ts ≡ some t) × (is_queued t.status ≡ true)

-- A selection is never later than the one before it, nor than the candidate.
prefer_min :
    (selected : Option Task) (t r : Task)
    → prefer selected t ≡ some r
    → ((s : Task) → selected ≡ some s → r.submission_id ≤ s.submission_id)
      × (t.occupied ≡ true → is_queued t.status ≡ true → r.submission_id ≤ t.submission_id)
      × ((selected ≡ some r) ⊎ ((t ≡ r) × (t.occupied ≡ true) × (is_queued t.status ≡ true)))
unfolding prefer
prefer_min none t r e = (λ s f. ground arith, λ o q. ground arith, ground arith)
prefer_min (some best) t r e = (λ s f. ground arith, λ o q. ground arith, ground arith)

prefer_some :
    (selected : Option Task) (t : Task)
    → (selected ≢ none) ⊎ ((t.occupied ≡ true) × (is_queued t.status ≡ true))
    → prefer selected t ≢ none
unfolding prefer
prefer_some none t h = ground arith
prefer_some (some best) t h = ground arith

select_some :
    (selected : Option Task) (ts : List Task) → selected ≢ none → select_queued selected ts ≢ none
unfolding select_queued
select_some selected [] h = h
select_some selected (t ∷ ts) h =
    select_some (prefer selected t) ts (prefer_some selected t (inl h))

-- The task that waits under an id is the first slot's, or one of the others'.
IsWaiting-cons :
    (t : Task) (ts : List Task) (j : ℕ)
    → IsWaiting (t ∷ ts) j
    → ((t.occupied ≡ true) × (t.submission_id ≡ j) × (is_queued t.status ≡ true)) ⊎ IsWaiting ts j
unfolding find_task
IsWaiting-cons t ts j (u, f, q) = elim (Bool-cases (t.occupied && t.submission_id == j)) [
  | inl e ↦ inl (ground arith)
  | inr e ↦ inr (u, rw e at f, q)
]

select_waiting :
    (selected : Option Task) (ts : List Task) (j : ℕ)
    → IsWaiting ts j
    → select_queued selected ts ≢ none
unfolding select_queued find_task
select_waiting selected [] j (u, f, q) = absurd (ground arith)
select_waiting selected (t ∷ ts) j w = elim (IsWaiting-cons t ts j w) [
  | inl (o, e, q) ↦ select_some (prefer selected t) ts (prefer_some selected t (inr (o, q)))
  | inr w' ↦ select_waiting (prefer selected t) ts j w'
]

select_min_head :
    (selected : Option Task) (t p r : Task)
    → prefer selected t ≡ some p
    → r.submission_id ≤ p.submission_id
    → ((s : Task) → selected ≡ some s → r.submission_id ≤ s.submission_id)
      × (t.occupied ≡ true → is_queued t.status ≡ true → r.submission_id ≤ t.submission_id)
select_min_head selected t p r e h =
    let m = prefer_min selected t p e in
    (λ s f. omega (arith, m.0 s f), λ o q. omega (arith, m.1 o q))

select_min_none :
    (selected : Option Task) (t r : Task)
    → prefer selected t ≡ none
    → ((s : Task) → selected ≡ some s → r.submission_id ≤ s.submission_id)
      × (t.occupied ≡ true → is_queued t.status ≡ true → r.submission_id ≤ t.submission_id)
unfolding prefer
select_min_none none t r e = (λ s f. ground arith, λ o q. ground arith)
select_min_none (some best) t r e = (λ s f. ground arith, λ o q. ground arith)

select_min_step :
    (selected : Option Task) (t r : Task)
    → ((p : Task) → prefer selected t ≡ some p → r.submission_id ≤ p.submission_id)
    → ((s : Task) → selected ≡ some s → r.submission_id ≤ s.submission_id)
      × (t.occupied ≡ true → is_queued t.status ≡ true → r.submission_id ≤ t.submission_id)
select_min_step selected t r h = elim (Option-cases (prefer selected t)) [
  | inl n ↦ select_min_none selected t r n
  | inr (p, f) ↦ select_min_head selected t p r f (h p f)
]

select_min :
    (selected : Option Task) (ts : List Task) (r : Task)
    → select_queued selected ts ≡ some r
    → ((s : Task) → selected ≡ some s → r.submission_id ≤ s.submission_id)
      × ((j : ℕ) → IsWaiting ts j → r.submission_id ≤ j)
unfolding select_queued find_task
select_min selected [] r e = (λ s f. ground arith, λ j (u, f, q). absurd (ground arith))
select_min selected (t ∷ ts) r e =
    let ih = select_min (prefer selected t) ts r e in
    let head = select_min_step selected t r ih.0 in
    (
      head.0,
      λ j w. elim (IsWaiting-cons t ts j w) [
        | inl (o, e', q) ↦ omega (arith, head.1 o q)
        | inr w' ↦ ih.1 j w'
      ],
    )

select_found :
    (selected : Option Task) (ts : List Task) (r : Task)
    → Distinct ts
    → select_queued selected ts ≡ some r
    → (selected ≡ some r) ⊎ ((find_task r.submission_id ts ≡ some r) × (is_queued r.status ≡ true))
unfolding select_queued find_task
select_found selected [] r d e = inl e
select_found selected (t ∷ ts) r d e = elim (select_found (prefer selected t) ts r d.1 e) [
  | inl f ↦ elim ((prefer_min selected t r f).2) [
    | inl g ↦ inl g
    | inr (g, o, q) ↦ inr (ground arith)
  ]
  | inr (f, q) ↦ inr (ground (arith, d.0, find_task-found r.submission_id ts f))
]

IsWaiting-of_status :
    (s : Scheduler) (j : ℕ) → status_of s j ≡ some TaskStatus.queued → IsWaiting s.tasks j
IsWaiting-of_status s j e = elim (Option-cases (find_task j s.tasks)) [
  | inl n ↦ absurd (ground arith)
  | inr (t, f) ↦ (t, f, ground arith)
]

abbrev take_state : Scheduler → ℕ → Scheduler
take_state s id = record s { tasks = update_task id (with_status TaskStatus.running) s.tasks }

take_shape :
    (s : Scheduler) (id : ℕ)
    → (worker_take s).0 ≡ Taken.runs id
    → (t : Task) × (select_queued none s.tasks ≡ some t)
      × (t.submission_id ≡ id)
      × ((worker_take s).1 ≡ take_state s id)
unfolding worker_take find_queued_task
take_shape s id e = elim (Option-cases (select_queued none s.tasks)) [
  | inl n ↦ absurd (ground arith)
  | inr (t, f) ↦ (t, f, ground arith, ground arith)
]

running-status_of :
    (s : Scheduler) (id : ℕ) (t : Task)
    → find_task id s.tasks ≡ some t
    → status_of (take_state s id) ≡ write (status_of s) id (some TaskStatus.running)
running-status_of s id t e =
    fun_ext λ j. ground (arith, find_task-with_status TaskStatus.running id s.tasks j)

take_found :
    (s : Scheduler) (id : ℕ)
    → IsValid s
    → (worker_take s).0 ≡ Taken.runs id
    → (t : Task) × (find_task id s.tasks ≡ some t) × (is_queued t.status ≡ true)
take_found s id v e =
    let (t, f, i, _) = take_shape s id e in
    elim (select_found none s.tasks t v.distinct f) [
      | inl n ↦ absurd (ground arith)
      | inr (g, q) ↦ (t, rw i at g, q)
    ]

-- A worker of a valid scheduler that takes a task takes one that waits, marks it running and
-- changes no other; and no waiting task was submitted under a smaller id.
pub take_oldest :
    {s : Scheduler} (id : ℕ)
    → IsValid s
    → (worker_take s).0 ≡ Taken.runs id
    → (status_of s id ≡ some TaskStatus.queued)
      × (status_of (worker_take s).1 ≡ write (status_of s) id (some TaskStatus.running))
      × ((j : ℕ) → status_of s j ≡ some TaskStatus.queued → id ≤ j)
take_oldest {s} id v e =
    let (t, f, i, state) = take_shape s id e in
    let (u, g, q) = take_found s id v e in
    (
      ground arith,
      ap status_of state ∙ running-status_of s id u g,
      λ j w.
          let least = (select_min none s.tasks t f).1 j (IsWaiting-of_status s j w) in omega arith,
    )

-- A worker waits only where the scheduler does not stop and no task waits.
pub take_waits :
    (s : Scheduler) (j : ℕ)
    → (worker_take s).0 ≡ Taken.waits
    → (s.stopping ≡ false) × (status_of s j ≢ some TaskStatus.queued)
unfolding worker_take find_queued_task
take_waits s j e = (
  ground arith,
  λ w.
      let some_task = select_waiting none s.tasks j (IsWaiting-of_status s j w) in
      let nothing : select_queued none s.tasks ≡ none = ground arith in some_task nothing,
)
