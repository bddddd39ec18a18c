-- ===== src/Vm/Safety/Limits.antt =====
-- The loop that raises a limit (`ensure_stack_capacity` and its two copies).
use ai_vm.Common.{ℕ, zero, suc, ◌+◌, ◌-◌, ◌≤◌, ◌<◌, ◌^◌, arith}
use ai_vm.Vm.Stack.{grow_limit, grow_loop, ensured_limit}

-- A round below the capacity raises the limit, and not past the capacity.
grow_limit_bounds :
    (limit step capacity : ℕ)
    → limit < capacity
    → 0 < step
    → step < 2 ^ 63
    → (limit < grow_limit limit step capacity) × (grow_limit limit step capacity ≤ capacity)
unfolding grow_limit
grow_limit_bounds limit step capacity h s t = ground arith

grow_loop_lem :
    (fuel needed step capacity limit : ℕ)
    → capacity ≤ limit + fuel
    → limit ≤ capacity
    → 0 < step
    → step < 2 ^ 63
    → (limit ≤ grow_loop fuel needed step capacity limit)
      × (grow_loop fuel needed step capacity limit ≤ capacity)
      × (needed ≤ capacity → needed ≤ grow_loop fuel needed step capacity limit)
unfolding grow_loop
grow_loop_lem zero needed step capacity limit f h s t = omega arith
grow_loop_lem (suc fuel) needed step capacity limit f h s t = ground (
  arith,
  grow_limit_bounds limit step capacity,
  grow_loop_lem fuel needed step capacity (grow_limit limit step capacity),
)

-- The fuel `capacity - limit` is enough: the loop ends with a limit that is no lower, within the
-- capacity, and that covers every need within the capacity.
pub ensured_limit_lem :
    (needed step capacity limit : ℕ)
    → limit ≤ capacity
    → 0 < step
    → step < 2 ^ 63
    → (limit ≤ ensured_limit needed step capacity limit)
      × (ensured_limit needed step capacity limit ≤ capacity)
      × (needed ≤ capacity → needed ≤ ensured_limit needed step capacity limit)
ensured_limit_lem needed step capacity limit h s t =
    grow_loop_lem (capacity - limit) needed step capacity limit (omega arith) h s t
