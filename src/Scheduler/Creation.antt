-- ===== src/Scheduler/Creation.antt =====
-- What `aivm_worker_scheduler_create` (src/aivm_worker_scheduler.c) leaves, and its loop that starts the
-- workers.
use ai_vm.Common.{
  leb→le, ◌==◌, not, ◌||◌, if_cases, ℕ, zero, suc, ◌+◌, ◌-◌, ◌≤◌, ◌<◌, ◌≡◌, refl, ap, ◌∙◌, inl, inr,
  Bool, true, false, ◌&&◌, Option, none, some, ltb, leb, arith, Bool-cases,
}
use ai_vm.Scheduler.{
  Scheduler, SchedulerStatus, Host, fresh_scheduler, stop, join_workers, start_workers, create,
}
use ai_vm.Scheduler.Invariant.{IsValid, started_scheduler, started-IsValid}

-- Every worker that was started is joined.
join_workers_all :
    (n : ℕ) (s : Scheduler) → s.worker_count ≡ n → join_workers n s ≡ record s { worker_count = 0 }
unfolding join_workers
join_workers_all zero s e = rw (← e) refl
join_workers_all (suc n) s e =
    join_workers_all n (record s { worker_count = s.worker_count - 1 }) (omega (arith, e))

start_workers_enough :
    (left threads : ℕ) (s : Scheduler)
    → left ≤ threads
    → start_workers left threads s ≡ (true, record s { worker_count = s.worker_count + left })
unfolding start_workers
start_workers_enough zero threads s h = ap (λ n. (true, record s { worker_count = n })) same
  where
    same : s.worker_count ≡ s.worker_count + 0
    same = omega arith
start_workers_enough (suc left) zero s h = absurd (omega arith)
start_workers_enough (suc left) (suc threads) s h =
    let e : s.worker_count + 1 + left ≡ s.worker_count + suc left = omega arith in
    start_workers_enough left threads (record s { worker_count = s.worker_count + 1 })
      (omega (arith, h))
    ∙ ap (λ n. (true, record s { worker_count = n })) e

all_started :
    (active outstanding threads : ℕ)
    → active ≤ threads
    → start_workers active threads (fresh_scheduler active outstanding)
      ≡ (true, started_scheduler active outstanding)
all_started active outstanding threads h =
    let e : 0 + active ≡ active = omega arith in
    start_workers_enough active threads (fresh_scheduler active outstanding) h
    ∙ ap (λ n. (true, record (fresh_scheduler active outstanding) { worker_count = n })) e

-- Where the host grants too few threads, no worker is left and those that were started were stopped.
start_workers_short :
    (left threads : ℕ) (s : Scheduler)
    → threads < left
    → start_workers left threads s ≡ (false, record s { worker_count = 0; stopping = true })
unfolding start_workers stop
start_workers_short zero threads s h = absurd (omega arith)
start_workers_short (suc left) zero s h =
    ap (λ s. (false, s)) (join_workers_all s.worker_count (stop s) refl)
start_workers_short (suc left) (suc threads) s h =
    start_workers_short left threads (record s { worker_count = s.worker_count + 1 })
      (omega (arith, h))

-- The active limit is not zero and at most the outstanding limit.
abbrev pub in_order : ℕ → ℕ → Bool
in_order active outstanding = ltb 0 active && leb active outstanding

-- The host grants the mutex, the condition and all the threads.
abbrev pub is_served : Host → ℕ → Bool
is_served host active = host.mutex && (host.condition && leb active host.threads)

-- What a creation leaves: a well formed scheduler with all its workers, or none and an error.
pub data Created (host : Host) (active outstanding : ℕ)
    : SchedulerStatus × Option Scheduler → Type 0 where
  started :
      (s : Scheduler)
      → in_order active outstanding ≡ true
      → host.memory ≡ true
      → is_served host active ≡ true
      → s ≡ started_scheduler active outstanding
      → IsValid s
      → Created host active outstanding (SchedulerStatus.ok, some s)
  bad_limits :
      in_order active outstanding ≡ false
      → Created host active outstanding (SchedulerStatus.err_argument, none)
  no_memory :
      in_order active outstanding ≡ true
      → host.memory ≡ false
      → Created host active outstanding (SchedulerStatus.err_memory, none)
  no_service :
      in_order active outstanding ≡ true
      → host.memory ≡ true
      → is_served host active ≡ false
      → Created host active outstanding (SchedulerStatus.err_system, none)

-- A scheduler is created exactly where the active limit is not zero and at most the outstanding limit and
-- the host grants the memory, the mutex, the condition and as many threads as the active limit. It is
-- well formed and empty and has started as many workers as its active limit. Otherwise there is none,
-- and the status says whether the limits, the memory, or the mutex, condition or threads are at fault.
pub create_starts_workers :
    (host : Host) (active outstanding : ℕ)
    → Created host active outstanding (create host active outstanding)
unfolding create
create_starts_workers host active outstanding =
    let fresh = fresh_scheduler active outstanding in
    if_cases (Created host active outstanding)
      (active == 0 || outstanding == 0 || ltb outstanding active)
      (λ e. bad_limits (ground (arith, e)))
      λ e.
        let limits : in_order active outstanding ≡ true = ground (arith, e) in
        if_cases (Created host active outstanding) (not host.memory)
          (λ e. no_memory limits (ground (arith, e)))
          λ e.
            let memory : host.memory ≡ true = ground (arith, e) in
            if_cases (Created host active outstanding) (not host.mutex)
              (λ e. no_service limits memory (ground (arith, e)))
              λ mutex.
                if_cases (Created host active outstanding) (not host.condition)
                  (λ e. no_service limits memory (ground (arith, e)))
                  λ condition. elim (Bool-cases (leb active host.threads)) [
                    | inl enough ↦
                        rw (all_started active outstanding host.threads (leb→le _ _ enough)) (
                          started (started_scheduler active outstanding) limits memory
                            (ground (arith, mutex, condition, enough)) refl
                            (started-IsValid active outstanding))
                    | inr short ↦
                        rw (start_workers_short active host.threads fresh (ground (arith, short)))
                          (no_service limits memory (ground (arith, short)))
                  ]
