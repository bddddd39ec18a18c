-- ===== src/Vm/Stack.antt =====
-- The operand stack, call frames and locals (src/aivm_vm_stack.c). A function that reports
-- success by an `int` returns the Boolean or the value beside the new state.
use ai_vm.Common.{
  ℕ, zero, suc, ◌-◌, Bool, true, false, ◌&&◌, ◌||◌, Option, none, some, ltb, leb, ◌==◌,
  if◌then◌else◌, write,
}
use ai_vm.Vm.Value.{Value}
use ai_vm.Vm.State.{
  Vm, VmError, CallFrame, stack_capacity, stack_growth_step, callframe_capacity,
  callframe_growth_step, locals_capacity, locals_growth_step, size_add_checked, set_vm_error,
  top_frame, locals_start, within_limits, frame_fits, validate_call_local_state,
  validate_frame_record,
}

-- `stack_grow_limit`
unfoldable pub grow_limit : ℕ → ℕ → ℕ → ℕ
grow_limit current step max_value =
    if leb max_value current then max_value else elim (size_add_checked current step) [
      | none ↦ max_value
      | some next ↦ if ltb max_value next then max_value else next
    ]

-- The loop of the `ensure_…_capacity` functions, with fuel.
unfoldable pub grow_loop : ℕ → ℕ → ℕ → ℕ → ℕ → ℕ
grow_loop zero needed step capacity limit = limit
grow_loop (suc fuel) needed step capacity limit =
    let rest = grow_loop fuel needed step capacity (grow_limit limit step capacity) in
    if ltb limit needed && ltb limit capacity then rest else limit

-- A round adds at least one below the capacity, so `capacity - limit` rounds are enough.
abbrev pub ensured_limit : ℕ → ℕ → ℕ → ℕ → ℕ
ensured_limit needed step capacity limit = grow_loop (capacity - limit) needed step capacity limit

unfoldable pub ensure_stack_capacity : Vm → ℕ → Bool × Vm
ensure_stack_capacity vm needed =
    let limit = ensured_limit needed stack_growth_step stack_capacity vm.stack_limit in
    (leb needed limit, record vm { stack_limit = limit })

unfoldable pub ensure_call_frame_capacity : Vm → ℕ → Bool × Vm
ensure_call_frame_capacity vm needed =
    let limit = ensured_limit needed callframe_growth_step callframe_capacity vm.call_frame_limit in
    (leb needed limit, record vm { call_frame_limit = limit })

unfoldable pub ensure_locals_capacity : Vm → ℕ → Bool × Vm
ensure_locals_capacity vm needed =
    let limit = ensured_limit needed locals_growth_step locals_capacity vm.locals_limit in
    (leb needed limit, record vm { locals_limit = limit })

unfoldable pub stack_push : Vm → Value → Bool × Vm
stack_push vm value = elim (size_add_checked vm.stack_count 1) [
  | none ↦ (false, set_vm_error vm VmError.stack_overflow)
  | some needed ↦
      let (enough, vm') = ensure_stack_capacity vm needed in
      if enough
      then (
        true,
        record vm' { stack = write vm'.stack vm'.stack_count value; stack_count = needed },
      )
      else (false, set_vm_error vm' VmError.stack_overflow)
]

unfoldable pub stack_pop : Vm → Option Value × Vm
stack_pop vm =
    if vm.stack_count == 0
    then (none, set_vm_error vm VmError.stack_underflow)
    else (some (vm.stack (vm.stack_count - 1)), record vm { stack_count = vm.stack_count - 1 })

-- The new frame of `aivm_frame_push`.
abbrev pub make_frame : Vm → ℕ → ℕ → CallFrame
make_frame vm return_ip frame_base = record {
  return_instruction_pointer = return_ip;
  frame_base = frame_base;
  locals_base = vm.locals_count;
}

unfoldable pub add_frame : Vm → CallFrame → ℕ → Vm
add_frame vm frame needed = record vm {
  call_frames = write vm.call_frames vm.call_frame_count frame;
  call_frame_count = needed;
}

-- `aivm_frame_push` behind its check of the state.
unfoldable pub push_checked_frame : Vm → ℕ → ℕ → Bool × Vm
push_checked_frame vm return_ip frame_base =
    if ltb vm.stack_count frame_base
    then (false, set_vm_error vm VmError.invalid_program)
    else elim (size_add_checked vm.call_frame_count 1) [
      | none ↦ (false, set_vm_error vm VmError.frame_overflow)
      | some needed ↦
          let (enough, vm') = ensure_call_frame_capacity vm needed in
          if enough
          then (true, add_frame vm' (make_frame vm' return_ip frame_base) needed)
          else (false, set_vm_error vm' VmError.frame_overflow)
    ]

unfoldable pub frame_push : Vm → ℕ → ℕ → Bool × Vm
frame_push vm return_ip frame_base =
    let (valid, vm') = validate_call_local_state vm in
    if valid then push_checked_frame vm' return_ip frame_base else (false, vm')

-- The frame is taken off before its record is checked.
unfoldable pub pop_checked_frame : Vm → Option CallFrame × Vm
pop_checked_frame vm =
    if vm.call_frame_count == 0
    then (none, set_vm_error vm VmError.frame_underflow)
    else let popped = record vm { call_frame_count = vm.call_frame_count - 1 } in
      let (valid, vm') = validate_frame_record popped (top_frame vm) in
      if valid then (some (top_frame vm), vm') else (none, vm')

unfoldable pub frame_pop : Vm → Option CallFrame × Vm
frame_pop vm =
    let (valid, vm') = validate_call_local_state vm in
    if valid then pop_checked_frame vm' else (none, vm')

-- The write of `aivm_local_set` at an absolute index that fits `size_t`.
unfoldable pub set_absolute_local : Vm → ℕ → Value → Bool × Vm
set_absolute_local vm index value = elim (size_add_checked index 1) [
  | none ↦ (false, set_vm_error vm VmError.local_out_of_range)
  | some needed ↦
      let (enough, vm') = ensure_locals_capacity vm needed in
      if enough
      then (
        true,
        record vm' {
          locals = write vm'.locals index value;
          locals_count = if leb vm'.locals_count index then needed else vm'.locals_count;
        },
      )
      else (false, set_vm_error vm' VmError.local_out_of_range)
]

-- `aivm_local_set` behind its check of the state.
unfoldable pub set_checked_local : Vm → ℕ → Value → Bool × Vm
set_checked_local vm index value =
    let base = locals_start vm in
    if leb locals_capacity base || leb (locals_capacity - base) index
    then (false, set_vm_error vm VmError.local_out_of_range)
    else elim (size_add_checked base index) [
      | none ↦ (false, set_vm_error vm VmError.local_out_of_range)
      | some absolute ↦ set_absolute_local vm absolute value
    ]

unfoldable pub local_set : Vm → ℕ → Value → Bool × Vm
local_set vm index value =
    let (valid, vm') = validate_call_local_state vm in
    if valid then set_checked_local vm' index value else (false, vm')

-- `aivm_local_get` behind its checks of the state.
unfoldable pub get_checked_local : Vm → ℕ → Option Value
get_checked_local vm index =
    let base = locals_start vm in
    if leb locals_capacity base || leb (locals_capacity - base) index
    then none
    else elim (size_add_checked base index) [
      | none ↦ none
      | some absolute ↦ if leb vm.locals_count absolute then none else some (vm.locals absolute)
    ]

unfoldable pub local_get : Vm → ℕ → Option Value
local_get vm index =
    if within_limits vm
    then if ltb 0 vm.call_frame_count
      then if frame_fits vm (top_frame vm) then get_checked_local vm index else none
      else get_checked_local vm index
    else none
