-- ===== src/Scheduler/Capacity.antt =====
-- `aivm_worker_active_capacity` (src/aivm_worker_capacity.c), over the host's CPU count.
use ai_vm.Common.{ℕ, ◌*◌, ◌/◌, ◌%◌, ◌≤◌, ◌<◌, ◌&&◌, ltb, ◌==◌, if◌then◌else◌, arith, size_mod}

unfoldable pub capped : ℕ → ℕ → ℕ
capped ceiling n = if ltb 0 ceiling && ltb ceiling n then ceiling else n

unfoldable pub active_capacity : ℕ → ℕ → ℕ → ℕ
unfolding capped
active_capacity available profile_ceiling memory_safe =
    let cpu_target = available * 96 % size_mod / 100 in
    let target = if cpu_target == 0 then 1 else cpu_target in
    let result = capped memory_safe (capped profile_ceiling target) in
    if ltb 0 result then result else 1

-- The capacity is at least one worker, no more than either ceiling that is set, and never more
-- than the CPUs of a host that has one.
pub active_capacity_bounds :
    (available ceiling memory : ℕ)
    → 0 < available
    → (0 < active_capacity available ceiling memory)
      × (0 < ceiling → active_capacity available ceiling memory ≤ ceiling)
      × (0 < memory → active_capacity available ceiling memory ≤ memory)
      × (active_capacity available ceiling memory ≤ available)
unfolding active_capacity
active_capacity_bounds available ceiling memory h = ground arith
