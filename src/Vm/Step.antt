-- ===== src/Vm/Step.antt =====
-- `aivm_step` and `aivm_run` (src/aivm_vm.c) over the opcodes of `Opcode`, without the counters of
-- AIVM_DEBUG_RUNTIME.
use ai_vm.Common.{
  ℕ, zero, suc, ◌+◌, ◌-◌, ◌*◌, ◌%◌, ◌^◌, Bool, true, false, not, ◌&&◌, Option, none, some, List,
  ltb, leb, ◌==◌, if◌then◌else◌, get_elem?,
}
use ai_vm.Vm.Value.{
  Value, Doubles, rem64, as_number, numeric_result, value_equals, pow_whole, of_test,
}
use ai_vm.Vm.State.{
  Vm, VmError, Status, Opcode, Instruction, Program, set_vm_error, record_recent_opcode,
}
use ai_vm.Vm.Stack.{stack_push, stack_pop, local_set, local_get}
use ai_vm.Vm.Call.{SafePoint, abandon, fail_with, halt, operand_to_index, exec_call, exec_return}

-- `vm->instruction_pointer += 1U`, which ends every case that falls through.
abbrev pub advance : Vm → Vm
advance vm = record vm { instruction_pointer = vm.instruction_pointer + 1 }

-- The end of a case whose last action may fail.
abbrev pub proceed : Program → Bool × Vm → Vm
proceed p r = if r.0 then advance r.1 else abandon p r.1

unfoldable pub exec_push : Program → Value → Vm → Vm
exec_push p value vm = proceed p (stack_push vm value)

unfoldable pub exec_pop : Program → Vm → Vm
exec_pop p vm =
    let (popped, vm') = stack_pop vm in elim popped [ none ↦ abandon p vm' | some v ↦ advance vm' ]

unfoldable pub exec_store_local : Program → ℕ → Vm → Vm
exec_store_local p operand vm = elim (operand_to_index operand) [
  | none ↦ fail_with p VmError.invalid_program vm
  | some index ↦
      let (popped, vm') = stack_pop vm in
      elim popped [ none ↦ abandon p vm' | some value ↦ proceed p (local_set vm' index value) ]
]

unfoldable pub exec_load_local : Program → ℕ → Vm → Vm
unfolding exec_push
exec_load_local p operand vm = elim (operand_to_index operand) [
  | none ↦ fail_with p VmError.invalid_program vm
  | some index ↦ elim (local_get vm index) [
    | none ↦ fail_with p VmError.local_out_of_range vm
    | some value ↦ exec_push p value vm
  ]
]

-- `!aivm_stack_pop(vm, &right) || !aivm_stack_pop(vm, &left)`: the left and the right operand.
unfoldable pub pop_two : Vm → Option (Value × Value) × Vm
pop_two vm =
    let (right, vm₁) = stack_pop vm in
    let (left, vm₂) = stack_pop vm₁ in
    elim right [
      | none ↦ (none, vm₁)
      | some r ↦ elim left [ none ↦ (none, vm₂) | some l ↦ (some (l, r), vm₂) ]
    ]

-- A case that takes two operands: what it computes is pushed, or is the case's error.
unfoldable pub exec_binary : Program → (Value → Value → Option Value) → Vm → Vm
unfolding exec_push
exec_binary p compute vm =
    let (operands, vm') = pop_two vm in
    elim operands [
      | none ↦ abandon p vm'
      | some (l, r) ↦ elim (compute l r) [
        | none ↦ fail_with p VmError.type_mismatch vm'
        | some value ↦ exec_push p value vm'
      ]
    ]

-- Signed addition, subtraction and multiplication wrap around.
unfoldable pub add_value : Doubles → Value → Value → ℕ → ℕ → Value
unfolding numeric_result
add_value D (Value.int a) (Value.int b) x y = Value.int ((a + b) % 2 ^ 64)
add_value D l r x y = numeric_result D (D.add x y)

unfoldable pub sub_value : Doubles → Value → Value → ℕ → ℕ → Value
unfolding numeric_result
sub_value D (Value.int a) (Value.int b) x y = Value.int ((a + 2 ^ 64 - b) % 2 ^ 64)
sub_value D l r x y = numeric_result D (D.sub x y)

unfoldable pub mul_value : Doubles → Value → Value → ℕ → ℕ → Value
unfolding numeric_result
mul_value D (Value.int a) (Value.int b) x y = Value.int (a * b % 2 ^ 64)
mul_value D l r x y = numeric_result D (D.mul x y)

unfoldable pub mod_value : Doubles → Value → Value → ℕ → ℕ → Value
unfolding numeric_result rem64
mod_value D (Value.int a) (Value.int b) x y = Value.int (rem64 a b)
mod_value D l r x y =
    let quotient = D.of_int (D.to_int (D.div x y)) in numeric_result D (D.sub x (D.mul quotient y))

unfoldable pub div_value : Doubles → ℕ → ℕ → Value
unfolding numeric_result
div_value D x y = numeric_result D (D.div x y)

-- The double operations of the cases ADD_INT to LT_NUM; `none` is their type error.
unfoldable pub numeric_case :
    Doubles → (Value → Value → ℕ → ℕ → Option Value) → Value → Value → Option Value
unfolding as_number
numeric_case D compute l r = elim (as_number D l) [
  | none ↦ none
  | some x ↦ elim (as_number D r) [ none ↦ none | some y ↦ compute l r x y ]
]

-- DIV and MOD refuse a divisor that is 0 as a double.
abbrev pub unless_zero : Doubles → ℕ → Value → Option Value
unless_zero D y value = if D.eq y D.zero_value then none else some value

unfoldable pub int_equals : Value → Value → Option Value
int_equals (Value.int a) (Value.int b) = some (of_test (a == b))
int_equals l r = none

unfoldable pub exec_jump : Program → ℕ → Vm → Vm
exec_jump p operand vm = elim (operand_to_index operand) [
  | none ↦ fail_with p VmError.invalid_program vm
  | some target ↦
      if ltb p.instruction_count target
      then fail_with p VmError.invalid_program vm
      else record vm { instruction_pointer = target }
]

-- JUMP_IF_FALSE on the value that was popped.
unfoldable pub jump_on : Program → ℕ → Value → Vm → Vm
jump_on p target (Value.bool b) vm =
    if b == 0
    then if ltb p.instruction_count target
      then fail_with p VmError.invalid_program vm
      else record vm { instruction_pointer = target }
    else advance vm
jump_on p target value vm = fail_with p VmError.type_mismatch vm

unfoldable pub exec_jump_if_false : Program → ℕ → Vm → Vm
exec_jump_if_false p operand vm = elim (operand_to_index operand) [
  | none ↦ fail_with p VmError.invalid_program vm
  | some target ↦
      let (popped, vm') = stack_pop vm in
      elim popped [ none ↦ abandon p vm' | some value ↦ jump_on p target value vm' ]
]

unfoldable pub constant_at : Program → ℕ → Option Value
constant_at p index = elim p.constants [
  | none ↦ none
  | some values ↦ if leb p.constant_count index then none else get_elem? values index
]

unfoldable pub exec_const : Program → ℕ → Vm → Vm
unfolding exec_push
exec_const p operand vm = elim (operand_to_index operand) [
  | none ↦ fail_with p VmError.invalid_program vm
  | some index ↦ elim (constant_at p index) [
    | none ↦ fail_with p VmError.invalid_program vm
    | some value ↦ exec_push p value vm
  ]
]

module _ (D : Doubles) (S : SafePoint) (p : Program) (code : List Instruction) where
  -- The `switch` of `aivm_step`.
  unfoldable pub execute : Opcode → ℕ → Vm → Vm
  execute Opcode.nop operand vm = advance vm
  execute Opcode.halt operand vm = halt p vm
  execute Opcode.stub operand vm = set_vm_error vm VmError.invalid_opcode
  execute Opcode.push_int operand vm = exec_push p (Value.int operand) vm
  execute Opcode.pop operand vm = exec_pop p vm
  execute Opcode.store_local operand vm = exec_store_local p operand vm
  execute Opcode.load_local operand vm = exec_load_local p operand vm
  execute Opcode.add_int operand vm =
      exec_binary p (numeric_case D (λ l r x y. some (add_value D l r x y))) vm
  execute Opcode.sub_num operand vm =
      exec_binary p (numeric_case D (λ l r x y. some (sub_value D l r x y))) vm
  execute Opcode.mul_num operand vm =
      exec_binary p (numeric_case D (λ l r x y. some (mul_value D l r x y))) vm
  execute Opcode.div_num operand vm =
      exec_binary p (numeric_case D (λ l r x y. unless_zero D y (div_value D x y))) vm
  execute Opcode.mod_num operand vm =
      exec_binary p (numeric_case D (λ l r x y. unless_zero D y (mod_value D l r x y))) vm
  execute Opcode.pow_num operand vm =
      exec_binary p (numeric_case D (λ l r x y. some (numeric_result D (pow_whole D x y)))) vm
  execute Opcode.lt_num operand vm =
      exec_binary p (numeric_case D (λ l r x y. some (of_test (D.lt x y)))) vm
  execute Opcode.jump operand vm = exec_jump p operand vm
  execute Opcode.jump_if_false operand vm = exec_jump_if_false p operand vm
  execute Opcode.push_bool operand vm = exec_push p (of_test (not (operand == 0))) vm
  execute Opcode.call operand vm = exec_call p code operand vm
  execute Opcode.ret operand vm = exec_return S p vm
  execute Opcode.eq_int operand vm = exec_binary p int_equals vm
  execute Opcode.eq operand vm = exec_binary p (λ l r. some (of_test (value_equals D l r))) vm
  execute Opcode.const operand vm = exec_const p operand vm

abbrev pub mark_running : Vm → Vm
mark_running vm = record vm { status = Status.running }

-- The test at the end of `aivm_step`.
unfoldable pub settle : Program → Vm → Vm
settle p vm = elim vm.status [
  | Status.running ↦
      if leb p.instruction_count vm.instruction_pointer
      then record vm { status = Status.halted }
      else vm
  | _ ↦ vm
]

abbrev pub is_stopped : Status → Bool
is_stopped Status.halted = true
is_stopped Status.error = true
is_stopped _ = false

module _ (D : Doubles) (S : SafePoint) (p : Program) where
  -- A fetch past the code does not happen where the count is the code's length.
  unfoldable pub step_code : List Instruction → Vm → Vm
  unfolding settle
  step_code code vm = elim (get_elem? code vm.instruction_pointer) [
    | none ↦ vm
    | some i ↦ settle p (
        execute D S p code i.opcode i.operand
          (record_recent_opcode (mark_running vm) vm.instruction_pointer i.opcode vm.stack_count))
  ]

  -- `aivm_step`
  unfoldable pub step : Vm → Vm
  unfolding step_code
  step vm = elim p.instructions [
    | none ↦
        if p.instruction_count == 0
        then record vm { status = Status.halted }
        else fail_with p VmError.invalid_program vm
    | some code ↦
        if is_stopped vm.status
        then vm
        else if leb p.instruction_count vm.instruction_pointer
        then record vm { status = Status.halted }
        else step_code code vm
  ]

  abbrev pub goes_on : Vm → Bool
  goes_on vm = ltb vm.instruction_pointer p.instruction_count && not (is_stopped vm.status)

  -- The loop of `aivm_run`; `none` means that the fuel ran out.
  unfoldable pub run_loop : ℕ → Vm → Option Vm
  run_loop zero vm = none
  run_loop (suc fuel) vm =
      let rest = run_loop fuel (step vm) in if goes_on vm then rest else some vm

  unfoldable pub run : ℕ → Vm → Option Vm
  unfolding run_loop
  run fuel vm =
      if p.instruction_count == 0
      then some (record vm { status = Status.halted })
      else run_loop fuel vm
