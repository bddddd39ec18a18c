-- ===== src/Vm/Call.antt =====
-- CALL, RET and RETURN (src/aivm_vm.c): how the arguments of a call are found, the check of the
-- target's layout, tail calls, and the restore of the caller's state.
use ai_vm.Common.{
  ℕ, zero, suc, ◌+◌, ◌-◌, Bool, true, false, not, ◌&&◌, ◌||◌, Option, none, some, List, [], ◌∷◌,
  ltb, leb, ◌==◌, if◌then◌else◌, get_elem?, drop, move,
}
use ai_vm.Vm.Value.{is_negative}
use ai_vm.Vm.State.{
  Vm, VmError, Status, CallFrame, Instruction, Program, Opcode, size_add_checked, set_vm_error,
  top_frame, within_limits, record_recent_call, record_recent_return,
}
use ai_vm.Vm.Stack.{stack_push, frame_push, frame_pop}

-- `vm->instruction_pointer = vm->program->instruction_count`, which ends every failed case.
abbrev pub abandon : Program → Vm → Vm
abandon p vm = record vm { instruction_pointer = p.instruction_count }

-- The error that a case reports before it ends.
abbrev pub fail_with : Program → VmError → Vm → Vm
fail_with p e vm = abandon p (set_vm_error vm e)

-- `aivm_halt`
unfoldable pub halt : Program → Vm → Vm
halt p vm = record vm { instruction_pointer = p.instruction_count; status = Status.halted }

-- `operand_to_index`; `none` is its error.
unfoldable pub operand_to_index : ℕ → Option ℕ
operand_to_index operand = if is_negative operand then none else some operand

abbrev pub is_store_local : Opcode → Bool
is_store_local Opcode.store_local = true
is_store_local _ = false

abbrev pub is_return : Opcode → Bool
is_return Opcode.ret = true
is_return _ = false

-- How many STORE_LOCAL instructions a piece of code begins with.
unfoldable pub leading_stores : List Instruction → ℕ
leading_stores [] = 0
leading_stores (i ∷ code) = if is_store_local i.opcode then suc (leading_stores code) else 0

-- `infer_call_arg_count`
unfoldable pub infer_call_arg_count : Program → List Instruction → ℕ → ℕ
infer_call_arg_count p code target =
    if leb p.instruction_count target then 0 else leading_stores (drop target code)

unfoldable pub contains : ℕ → List ℕ → Bool
contains n [] = false
contains n (m ∷ ms) = m == n || contains n ms

-- The loop of `validate_call_target_layout` over the code from the target on.
unfoldable pub layout_valid : ℕ → List Instruction → List ℕ → Bool
unfolding contains operand_to_index
layout_valid zero code seen = true
layout_valid (suc n) [] seen = false
layout_valid (suc n) (i ∷ code) seen =
    if is_store_local i.opcode
    then elim (operand_to_index i.operand) [
      | none ↦ false
      | some index ↦ not (contains index seen) && layout_valid n code (index ∷ seen)
    ]
    else false

unfoldable pub validate_call_target_layout : List Instruction → ℕ → ℕ → Bool
unfolding layout_valid
validate_call_target_layout code target arg_count =
    if ltb 64 arg_count then false else layout_valid arg_count (drop target code) []

-- The instruction behind the call returns at once, and there is a frame to reuse.
unfoldable pub is_tail_call : List Instruction → Vm → Bool
is_tail_call code vm =
    ltb 0 vm.call_frame_count && elim (get_elem? code (vm.instruction_pointer + 1)) [
      | none ↦ false
      | some next ↦ is_return next.opcode
    ]

unfoldable pub tail_call : Program → ℕ → ℕ → ℕ → Vm → Vm
tail_call p target arg_count frame_base vm =
    let frame = top_frame vm in
    if ltb frame_base frame.frame_base then fail_with p VmError.invalid_program vm else record vm {
      stack = move vm.stack frame.frame_base frame_base arg_count;
      stack_count = frame.frame_base + arg_count;
      locals_count = frame.locals_base;
      instruction_pointer = target;
    }

unfoldable pub plain_call : Program → ℕ → ℕ → Vm → Vm
plain_call p target frame_base vm = elim (size_add_checked vm.instruction_pointer 1) [
  | none ↦ abandon p vm
  | some return_ip ↦
      let (done, vm') = frame_push vm return_ip frame_base in
      if done then record vm' { instruction_pointer = target } else abandon p vm'
]

-- The arguments lie below the caller's frame.
abbrev pub crosses_frame : Vm → ℕ → Bool
crosses_frame vm frame_base = ltb 0 vm.call_frame_count && ltb frame_base (top_frame vm).frame_base

-- A call whose target has passed the checks.
unfoldable pub enter_call : Program → List Instruction → ℕ → ℕ → Vm → Vm
unfolding is_tail_call
enter_call p code target arg_count vm₀ =
    let vm = record_recent_call vm₀ vm₀.instruction_pointer target arg_count vm₀.stack_count in
    let frame_base = vm.stack_count - arg_count in
    if crosses_frame vm frame_base
    then fail_with p VmError.invalid_program vm
    else if is_tail_call code vm
    then tail_call p target arg_count frame_base vm
    else plain_call p target frame_base vm

-- The case of AIVM_OP_CALL.
unfoldable pub exec_call : Program → List Instruction → ℕ → Vm → Vm
exec_call p code operand vm = elim (operand_to_index operand) [
  | none ↦ fail_with p VmError.invalid_program vm
  | some target ↦
      let arg_count = infer_call_arg_count p code target in
      if leb p.instruction_count target
      then fail_with p VmError.invalid_program vm
      else if ltb vm.stack_count arg_count
      then fail_with p VmError.invalid_program vm
      else if validate_call_target_layout code target arg_count
      then enter_call p code target arg_count vm
      else fail_with p VmError.invalid_program vm
]

-- `validate_vm_return_restore`
unfoldable pub return_restore_valid : Vm → CallFrame → ℕ → Bool
return_restore_valid vm frame pre_restore = elim (size_add_checked frame.frame_base 1) [
  | none ↦ false
  | some max_stack_count ↦ within_limits vm && leb pre_restore max_stack_count
]

-- The safe point behind a return, which may collect nodes and bytes (src/aivm_vm_node_gc.c,
-- src/aivm_vm_arena.c). It reports whether it went through.
pub record SafePoint : Type 0 where
  pub collect : Vm → Bool × Vm

-- The end of the case of AIVM_OP_RETURN, behind the restore.
unfoldable pub finish_return : SafePoint → Program → CallFrame → ℕ → Bool → Vm → Vm
finish_return S p frame pre_restore has_value vm₀ =
    let vm =
      record_recent_return vm₀ frame.return_instruction_pointer vm₀.stack_count pre_restore
        frame.frame_base has_value in
    let (collected, vm') = S.collect vm in
    if collected
    then record vm' { instruction_pointer = frame.return_instruction_pointer }
    else abandon p vm'

unfoldable pub restore_caller : SafePoint → Program → CallFrame → Vm → Vm
restore_caller S p frame vm =
    let result = vm.stack (vm.stack_count - 1) in
    let restored = record vm { stack_count = frame.frame_base; locals_count = frame.locals_base } in
    let (pushed, vm') = stack_push restored result in
    if ltb frame.frame_base vm.stack_count
    then (if pushed then finish_return S p frame vm.stack_count true vm' else abandon p vm')
    else finish_return S p frame vm.stack_count false restored

-- The case of AIVM_OP_RETURN on a frame that was taken off.
unfoldable pub return_to : SafePoint → Program → CallFrame → Vm → Vm
return_to S p frame vm =
    if ltb p.instruction_count frame.return_instruction_pointer
    then fail_with p VmError.invalid_program vm
    else if ltb vm.stack_count frame.frame_base
    then fail_with p VmError.invalid_program vm
    else if return_restore_valid vm frame vm.stack_count
    then restore_caller S p frame vm
    else fail_with p VmError.invalid_program vm

unfoldable pub exec_return : SafePoint → Program → Vm → Vm
exec_return S p vm =
    if vm.call_frame_count == 0
    then halt p vm
    else let (popped, vm') = frame_pop vm in
      elim popped [ none ↦ abandon p vm' | some frame ↦ return_to S p frame vm' ]
