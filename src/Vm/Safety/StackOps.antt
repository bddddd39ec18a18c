-- ===== src/Vm/Safety/StackOps.antt =====
-- The safety invariant under the operations of src/aivm_vm_stack.c.
use ai_vm.Common.{ℕ, ◌+◌, ◌-◌, ◌≤◌, ◌≡◌, arith, some, true}
use ai_vm.Vm.Value.{Value}
use ai_vm.Vm.State.{
  Vm, VmError, CallFrame, stack_capacity, callframe_capacity, locals_capacity, stack_growth_step,
  callframe_growth_step, locals_growth_step, set_vm_error, locals_start, validate_call_local_state,
  validate_frame_record,
}
use ai_vm.Vm.Stack.{
  ensure_stack_capacity, ensure_call_frame_capacity, ensure_locals_capacity, stack_push, stack_pop,
  add_frame, make_frame, push_checked_frame, frame_push, pop_checked_frame, frame_pop,
  set_absolute_local, set_checked_local, local_set,
}
use ai_vm.Vm.Safety.Limits.{ensured_limit_lem}
use ai_vm.Vm.Safety.Invariant.{
  Nested, IsSafe, Safe, safe, facts, Nested_mono, Nested-push, Nested-pop,
}

module _ {code last : ℕ} {vm : Vm} (s : IsSafe code last vm) where
  pub set_vm_error-IsSafe : (e : VmError) → IsSafe code last (set_vm_error vm e)
  unfolding set_vm_error
  set_vm_error-IsSafe e = ground arith

  pub ensure_stack_capacity-IsSafe : (n : ℕ) → IsSafe code last (ensure_stack_capacity vm n).1
  unfolding ensure_stack_capacity
  ensure_stack_capacity-IsSafe n =
      ground (arith, ensured_limit_lem n stack_growth_step stack_capacity vm.stack_limit)

  pub stack_push-IsSafe : (v : Value) → IsSafe code last (stack_push vm v).1
  unfolding stack_push ensure_stack_capacity set_vm_error
  stack_push-IsSafe v = ground (
    arith,
    ensured_limit_lem (vm.stack_count + 1) stack_growth_step stack_capacity vm.stack_limit,
  )

  pub stack_pop-IsSafe : IsSafe code last (stack_pop vm).1
  unfolding stack_pop set_vm_error
  stack_pop-IsSafe = ground arith

  pub validate_call_local_state-IsSafe : IsSafe code last (validate_call_local_state vm).1
  unfolding validate_call_local_state set_vm_error
  validate_call_local_state-IsSafe = ground arith

  pub ensure_call_frame_capacity-IsSafe :
      (n : ℕ)
      → IsSafe code last (ensure_call_frame_capacity vm n).1
        × ((ensure_call_frame_capacity vm n).0 ≡ true
            → n ≤ (ensure_call_frame_capacity vm n).1.call_frame_limit)
  unfolding ensure_call_frame_capacity
  ensure_call_frame_capacity-IsSafe n =
      ground
        (arith, ensured_limit_lem n callframe_growth_step callframe_capacity vm.call_frame_limit)

  pub add_frame-IsSafe :
      (frame : CallFrame)
      → frame.locals_base ≤ vm.locals_count
      → frame.return_instruction_pointer ≤ code
      → Nested code vm.call_frames vm.call_frame_count frame.locals_base
      → vm.call_frame_count + 1 ≤ vm.call_frame_limit
      → IsSafe code last (add_frame vm frame (vm.call_frame_count + 1))
  unfolding add_frame
  add_frame-IsSafe frame h r k le =
      let nest = Nested-push code vm.call_frames vm.call_frame_count vm.locals_count frame h r k in
      ground arith

  pub pop_checked_frame-IsSafe : IsSafe code last (pop_checked_frame vm).1
  unfolding pop_checked_frame validate_frame_record set_vm_error
  pop_checked_frame-IsSafe = ground (
    arith,
    Nested-pop code vm.call_frames vm.call_frame_count vm.locals_count,
    Nested_mono code vm.call_frames (vm.call_frame_count - 1)
        (vm.call_frames (vm.call_frame_count - 1)).locals_base vm.locals_count,
  )

  pub set_absolute_local-IsSafe :
      (i : ℕ) (v : Value) → IsSafe code last (set_absolute_local vm i v).1
  unfolding set_absolute_local ensure_locals_capacity set_vm_error
  set_absolute_local-IsSafe i v = ground (
    arith,
    ensured_limit_lem (i + 1) locals_growth_step locals_capacity vm.locals_limit,
    Nested_mono code vm.call_frames vm.call_frame_count vm.locals_count (i + 1),
  )

module _ {code last : ℕ} (vm : Vm) (s : Safe code last vm) where
  pub set_vm_error-Safe : (e : VmError) → Safe code last (set_vm_error vm e)
  set_vm_error-Safe e = safe (set_vm_error-IsSafe (facts s) e)

  pub stack_push-Safe : (v : Value) → Safe code last (stack_push vm v).1
  stack_push-Safe v = safe (stack_push-IsSafe (facts s) v)

  pub stack_pop-Safe : Safe code last (stack_pop vm).1
  stack_pop-Safe = safe (stack_pop-IsSafe (facts s))

  validate_call_local_state-Safe : Safe code last (validate_call_local_state vm).1
  validate_call_local_state-Safe = safe (validate_call_local_state-IsSafe (facts s))

  pop_checked_frame-Safe : Safe code last (pop_checked_frame vm).1
  pop_checked_frame-Safe = safe (pop_checked_frame-IsSafe (facts s))

  set_absolute_local-Safe : (i : ℕ) (v : Value) → Safe code last (set_absolute_local vm i v).1
  set_absolute_local-Safe i v = safe (set_absolute_local-IsSafe (facts s) i v)

  ensure_call_frame_capacity-Safe : (n : ℕ) → Safe code last (ensure_call_frame_capacity vm n).1
  ensure_call_frame_capacity-Safe n = safe (ensure_call_frame_capacity-IsSafe (facts s) n).0

  add_new_frame-Safe :
      (ip base : ℕ)
      → ip ≤ code
      → vm.call_frame_count + 1 ≤ vm.call_frame_limit
      → Safe code last (add_frame vm (make_frame vm ip base) (vm.call_frame_count + 1))
  add_new_frame-Safe ip base h le =
      safe (add_frame-IsSafe (facts s) (make_frame vm ip base) (omega arith) h (facts s).nested le)

push_checked_frame-Safe :
    {code last : ℕ} (vm : Vm) (s : Safe code last vm) (ip base : ℕ)
    → ip ≤ code
    → Safe code last (push_checked_frame vm ip base).1
unfolding push_checked_frame ensure_call_frame_capacity
push_checked_frame-Safe vm s ip base h = ground (
  arith,
  set_vm_error-Safe vm s VmError.invalid_program,
  set_vm_error-Safe vm s VmError.frame_overflow,
  set_vm_error-Safe (ensure_call_frame_capacity vm (vm.call_frame_count + 1)).1
      (ensure_call_frame_capacity-Safe vm s (vm.call_frame_count + 1)) VmError.frame_overflow,
  add_new_frame-Safe (ensure_call_frame_capacity vm (vm.call_frame_count + 1)).1
      (ensure_call_frame_capacity-Safe vm s (vm.call_frame_count + 1)) ip base h,
)

pub frame_push-Safe :
    {code last : ℕ} (vm : Vm) (s : Safe code last vm) (ip base : ℕ)
    → ip ≤ code
    → Safe code last (frame_push vm ip base).1
unfolding frame_push
frame_push-Safe vm s ip base h =
    let checked = validate_call_local_state-Safe vm s in
    let pushed = push_checked_frame-Safe (validate_call_local_state vm).1 checked ip base h in
    ground arith

pub frame_pop-Safe :
    {code last : ℕ} (vm : Vm) (s : Safe code last vm) → Safe code last (frame_pop vm).1
unfolding frame_pop
frame_pop-Safe vm s =
    let checked = validate_call_local_state-Safe vm s in
    let popped = pop_checked_frame-Safe (validate_call_local_state vm).1 checked in ground arith

set_checked_local-Safe :
    {code last : ℕ} (vm : Vm) (s : Safe code last vm) (i : ℕ) (v : Value)
    → Safe code last (set_checked_local vm i v).1
unfolding set_checked_local
set_checked_local-Safe vm s i v = ground (
  arith,
  set_vm_error-Safe vm s VmError.local_out_of_range,
  set_absolute_local-Safe vm s (locals_start vm + i) v,
)

pub local_set-Safe :
    {code last : ℕ} (vm : Vm) (s : Safe code last vm) (i : ℕ) (v : Value)
    → Safe code last (local_set vm i v).1
unfolding local_set
local_set-Safe vm s i v =
    let checked = validate_call_local_state-Safe vm s in
    let written = set_checked_local-Safe (validate_call_local_state vm).1 checked i v in
    ground arith

-- The frame that was popped starts its locals in use, and above those of the frames below it.
pop_checked_frame-frame :
    {code last : ℕ} (vm : Vm) (s : Safe code last vm) (frame : CallFrame)
    → (pop_checked_frame vm).0 ≡ some frame
    → Nested code
        (pop_checked_frame vm).1.call_frames
        (pop_checked_frame vm).1.call_frame_count
        frame.locals_base
      × (frame.locals_base ≤ (pop_checked_frame vm).1.locals_count)
unfolding pop_checked_frame validate_frame_record set_vm_error
pop_checked_frame-frame {code} vm s frame e =
    let f = facts s in
    ground (arith, Nested-pop code vm.call_frames vm.call_frame_count vm.locals_count)

pub frame_pop-frame :
    {code last : ℕ} (vm : Vm) (s : Safe code last vm) (frame : CallFrame)
    → (frame_pop vm).0 ≡ some frame
    → Nested code (frame_pop vm).1.call_frames (frame_pop vm).1.call_frame_count frame.locals_base
      × (frame.locals_base ≤ (frame_pop vm).1.locals_count)
unfolding frame_pop
frame_pop-frame vm s frame e =
    let checked = validate_call_local_state-Safe vm s in
    let popped = pop_checked_frame-frame (validate_call_local_state vm).1 checked frame in
    ground (arith, popped)
