-- ===== src/Vm/Laws/FrameLaws.antt =====
-- Frames as a last-in first-out record (`aivm_frame_push` and `aivm_frame_pop` of
-- src/aivm_vm_stack.c).
use ai_vm.Common.{ℕ, ◌+◌, ◌≤◌, ◌<◌, ◌≡◌, refl, arith, some, true, write}
use ai_vm.Vm.State.{
  Vm, callframe_capacity, callframe_growth_step, validate_call_local_state, validate_frame_record,
  top_frame, within_limits, frame_fits,
}
use ai_vm.Vm.Stack.{
  make_frame, add_frame, push_checked_frame, frame_push, pop_checked_frame, frame_pop,
  ensure_call_frame_capacity, ensured_limit,
}
use ai_vm.Vm.Safety.Limits.{ensured_limit_lem}
use ai_vm.Vm.Safety.Invariant.{IsSafe}

-- The state checks pass.
abbrev pub IsConsistent : Vm → Type 0
IsConsistent vm = (validate_call_local_state vm).0 ≡ true

pub validate-IsConsistent : (vm : Vm) → IsConsistent vm → validate_call_local_state vm ≡ (true, vm)
unfolding validate_call_local_state
validate-IsConsistent vm c = ground arith

-- The state behind a successful `aivm_frame_push`.
abbrev pushed_frame : Vm → ℕ → ℕ → Vm
pushed_frame vm ip base =
    let limit =
      ensured_limit (vm.call_frame_count + 1) callframe_growth_step callframe_capacity
        vm.call_frame_limit in
    record vm {
      call_frame_limit = limit;
      call_frames = write vm.call_frames vm.call_frame_count (make_frame vm ip base);
      call_frame_count = vm.call_frame_count + 1;
    }

pub IsConsistent-of_fits :
    (vm : Vm) → within_limits vm ≡ true → frame_fits vm (top_frame vm) ≡ true → IsConsistent vm
unfolding validate_call_local_state
IsConsistent-of_fits vm h k = ground arith

pushed_frame_within :
    {code last : ℕ} (vm : Vm) (ip base : ℕ)
    → IsSafe code last vm
    → vm.call_frame_count < callframe_capacity
    → within_limits (pushed_frame vm ip base) ≡ true
pushed_frame_within vm ip base s room =
    let bound =
      ensured_limit_lem (vm.call_frame_count + 1) callframe_growth_step callframe_capacity
        vm.call_frame_limit s.frame_limit_le (omega arith) (omega arith) in
    ground arith

pushed_frame_fits :
    (vm : Vm) (ip base : ℕ)
    → base ≤ vm.stack_count
    → frame_fits (pushed_frame vm ip base) (make_frame vm ip base) ≡ true
pushed_frame_fits vm ip base b = ground arith

module _ {code last : ℕ} (vm : Vm) (ip base : ℕ) (s : IsSafe code last vm) (c : IsConsistent vm)
    (b : base ≤ vm.stack_count) (room : vm.call_frame_count < callframe_capacity) where
  push_checked_frame_lem : push_checked_frame vm ip base ≡ (true, pushed_frame vm ip base)
  unfolding push_checked_frame ensure_call_frame_capacity add_frame
  push_checked_frame_lem = ground (
    arith,
    ensured_limit_lem (vm.call_frame_count + 1) callframe_growth_step callframe_capacity
        vm.call_frame_limit,
  )

  frame_push_lem : frame_push vm ip base ≡ (true, pushed_frame vm ip base)
  unfolding frame_push
  frame_push_lem = ground (arith, validate-IsConsistent vm c, push_checked_frame_lem)

  top_frame-pushed_frame : top_frame (pushed_frame vm ip base) ≡ make_frame vm ip base
  top_frame-pushed_frame = ground arith

  pushed_frame-IsConsistent : IsConsistent (pushed_frame vm ip base)
  pushed_frame-IsConsistent =
      IsConsistent-of_fits (pushed_frame vm ip base) (pushed_frame_within vm ip base s room)
        (rw top_frame-pushed_frame (pushed_frame_fits vm ip base b))

  pop_checked_frame_lem : pop_checked_frame (pushed_frame vm ip base) ≡ (
    some (make_frame vm ip base),
    record (pushed_frame vm ip base) { call_frame_count = vm.call_frame_count },
  )
  unfolding pop_checked_frame validate_frame_record
  pop_checked_frame_lem = ground (arith, top_frame-pushed_frame)

  frame_pop_lem : frame_pop (pushed_frame vm ip base) ≡ (
    some (make_frame vm ip base),
    record (pushed_frame vm ip base) { call_frame_count = vm.call_frame_count },
  )
  unfolding frame_pop
  frame_pop_lem = ground (
    arith,
    validate-IsConsistent (pushed_frame vm ip base) pushed_frame-IsConsistent,
    pop_checked_frame_lem,
  )

-- `aivm_frame_push` succeeds as long as frames are left, and `aivm_frame_pop` behind it gives back the
-- frame that was pushed, and leaves the counts of frames, of the stack and of the locals that there
-- were before. The state is safe and consistent and the base lies on the stack.
pub frame_pop-frame_push :
    {code last : ℕ} (vm : Vm) (ip base : ℕ)
    → IsSafe code last vm
    → IsConsistent vm
    → base ≤ vm.stack_count
    → vm.call_frame_count < callframe_capacity
    → let (pushed, vm') = frame_push vm ip base in
      let (frame, vm'') = frame_pop vm' in
      (pushed ≡ true)
      × (frame ≡ some (make_frame vm ip base))
      × (vm''.call_frame_count ≡ vm.call_frame_count)
      × (vm''.stack_count ≡ vm.stack_count)
      × (vm''.locals_count ≡ vm.locals_count)
frame_pop-frame_push vm ip base s c b room =
    rw (frame_push_lem vm ip base s c b room, frame_pop_lem vm ip base s c b room)
      (refl, refl, refl, refl, refl)
