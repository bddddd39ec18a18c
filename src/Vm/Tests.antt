-- ===== src/Vm/Tests.antt =====
-- The machine of src/aivm_vm.c and src/aivm_vm_stack.c on concrete programs and states.
use ai_vm.Common.{
  ℕ, zero, suc, ◌/◌, ◌≡◌, refl, Bool, true, false, Option, none, some, List, [], ◌∷◌, arith,
}
use ai_vm.Vm.Value.{Value, Doubles, value_equals, same_type_equals, of_test}
use ai_vm.Vm.State.{Vm, Program, Opcode, Status, locals_start, validate_call_local_state}
use ai_vm.Vm.Stack.{stack_push, stack_pop, make_frame, frame_push, frame_pop, local_set, local_get}
use ai_vm.Vm.Step.{step, run, int_equals}
use ai_vm.Vm.Safety.Invariant.{IsSafe}
use ai_vm.Vm.Samples.{fresh-IsSafe, quiet_keeps}
use ai_vm.Vm.Safety.Run.{step-IsSafe}
use ai_vm.Common.{suc}
use ai_vm.Vm.Laws.StackLaws.{contents, bounded_push, push_refines, bounded_pop, pop_refines}
use ai_vm.Vm.Laws.FrameLaws.{IsConsistent, frame_pop-frame_push}
use ai_vm.Vm.Laws.LocalLaws.{local_get-local_set}
use ai_vm.Vm.Step.{
  run, run_loop, step, step_code, settle, execute, exec_push, exec_store_local, exec_load_local,
  exec_binary, pop_two, numeric_case, add_value,
}
use ai_vm.Vm.Stack.{
  stack_push, ensure_stack_capacity, grow_loop, grow_limit, frame_push, push_checked_frame,
  ensure_call_frame_capacity, add_frame, ensure_locals_capacity, stack_pop, local_set,
  set_checked_local, set_absolute_local, local_get, get_checked_local, frame_pop, pop_checked_frame,
}
use ai_vm.Vm.State.{
  record_recent_opcode, record_recent_call, validate_call_local_state, locals_start,
  validate_frame_record, record_recent_return,
}
use ai_vm.Vm.Call.{
  exec_call, operand_to_index, infer_call_arg_count, leading_stores, validate_call_target_layout,
  layout_valid, contains, enter_call, plain_call, exec_return, return_to, restore_caller,
  finish_return, return_restore_valid, halt, is_tail_call,
}
use ai_vm.Vm.Value.{as_number}
use ai_vm.Vm.Samples.{whole, quiet, fresh, op}

-- A call of a function of two arguments, which adds them.
abbrev adder : Program
adder = record {
  instructions = some (
      op Opcode.push_int 20
      ∷ op Opcode.push_int 22
      ∷ op Opcode.call 4
      ∷ op Opcode.halt 0
      ∷ op Opcode.store_local 1
      ∷ op Opcode.store_local 0
      ∷ op Opcode.load_local 0
      ∷ op Opcode.load_local 1
      ∷ op Opcode.add_int 0
      ∷ op Opcode.ret 0
      ∷ []);
  instruction_count = 10;
  constants = none;
  constant_count = 0;
}

abbrev summary : Option Vm → Option (Status × List Value × ℕ)
summary none = none
summary (some vm) = some (vm.status, contents vm, vm.instruction_pointer)

step-IsSafe_example : IsSafe 10 10 (step whole quiet adder fresh)
step-IsSafe_example = step-IsSafe whole quiet quiet_keeps adder fresh (fresh-IsSafe 10)

abbrev is_some : Option Vm → Bool
is_some none = false
is_some (some vm) = true

abbrev or_fresh : Option Vm → Vm
or_fresh none = fresh
or_fresh (some vm) = vm

abbrev adder_end : Vm
adder_end = or_fresh (run whole quiet adder 11 fresh)

adder_has_end : is_some (run whole quiet adder 11 fresh) ≡ true
unfolding run run_loop step step_code settle execute exec_push exec_store_local exec_load_local
    exec_binary pop_two numeric_case add_value stack_push ensure_stack_capacity grow_loop grow_limit
    frame_push push_checked_frame ensure_call_frame_capacity add_frame ensure_locals_capacity
    stack_pop local_set set_checked_local set_absolute_local local_get get_checked_local frame_pop
    pop_checked_frame record_recent_opcode record_recent_call validate_call_local_state locals_start
    validate_frame_record record_recent_return exec_call operand_to_index infer_call_arg_count
    leading_stores validate_call_target_layout layout_valid contains enter_call plain_call
    exec_return return_to restore_caller finish_return return_restore_valid halt is_tail_call
    as_number
adder_has_end = refl

adder_result : summary (some adder_end) ≡ some (Status.halted, Value.int 42 ∷ [], 10)
unfolding run run_loop step step_code settle execute exec_push exec_store_local exec_load_local
    exec_binary pop_two numeric_case add_value stack_push ensure_stack_capacity grow_loop grow_limit
    frame_push push_checked_frame ensure_call_frame_capacity add_frame ensure_locals_capacity
    stack_pop local_set set_checked_local set_absolute_local local_get get_checked_local frame_pop
    pop_checked_frame record_recent_opcode record_recent_call validate_call_local_state locals_start
    validate_frame_record record_recent_return exec_call operand_to_index infer_call_arg_count
    leading_stores validate_call_target_layout layout_valid contains enter_call plain_call
    exec_return return_to restore_caller finish_return return_restore_valid halt is_tail_call
    as_number
adder_result = refl

push_refines_example :
    let (done, vm) = stack_push fresh (Value.int 7) in
    (done, contents vm) ≡ bounded_push (contents fresh) (Value.int 7)
push_refines_example = push_refines fresh (Value.int 7) (fresh-IsSafe 10)

-- Two values on the stack.
abbrev two_values : Vm
two_values = record fresh { stack = λ i. Value.int i; stack_count = 2 }

pop_refines_example :
    let (value, vm) = stack_pop two_values in
    (value, contents vm) ≡ bounded_pop (contents two_values)
pop_refines_example = pop_refines two_values

-- Two values on the stack and three locals under a frame.
abbrev nested : Vm
nested = record two_values {
  locals = λ i. Value.int i;
  locals_count = 3;
  call_frames = λ i. record { return_instruction_pointer = 4; frame_base = 1; locals_base = 1 };
  call_frame_count = 1;
}

nested-IsSafe : IsSafe 10 10 nested
nested-IsSafe = record {
  stack_count_le = omega arith;
  stack_limit_le = omega arith;
  frame_count_le = omega arith;
  frame_limit_le = omega arith;
  locals_count_le = omega arith;
  locals_limit_le = omega arith;
  in_code = omega arith;
  nested = (omega arith, omega arith, tt);
}

nested-IsConsistent : IsConsistent nested
unfolding validate_call_local_state
nested-IsConsistent = refl

frame_pop-frame_push_example :
    let (pushed, vm) = frame_push nested 7 1 in
    let (frame, vm') = frame_pop vm in
    (pushed ≡ true)
    × (frame ≡ some (make_frame nested 7 1))
    × (vm'.call_frame_count ≡ 1)
    × (vm'.stack_count ≡ 2)
    × (vm'.locals_count ≡ 3)
frame_pop-frame_push_example =
    frame_pop-frame_push nested 7 1 nested-IsSafe nested-IsConsistent (omega arith) (omega arith)

start_at : (locals_start nested ≡ 1)
unfolding locals_start
start_at = refl

local_get-local_set_example :
    let (done, vm) = local_set nested 0 (Value.int 9) in
    (done ≡ true)
    × (local_get vm 0 ≡ some (Value.int 9))
    × (¬ (zero ≡ suc zero) → local_get vm 1 ≡ local_get nested 1)
local_get-local_set_example =
    local_get-local_set nested 0 1 (Value.int 9) nested-IsSafe nested-IsConsistent
      (omega (arith, start_at)) (omega (arith, start_at))

-- `EQ` of two integers that differ, where the conversion to a double does not tell them apart.
abbrev coarse : Doubles
coarse = record whole { of_int = λ n. n / 2 }

equal_beyond_doubles :
    (value_equals coarse (Value.int 8) (Value.int 9) ≡ true)
    × (int_equals (Value.int 8) (Value.int 9) ≡ some (of_test false))
unfolding value_equals int_equals same_type_equals
equal_beyond_doubles = (refl, refl)
