-- ===== src/Vm/State.antt =====
-- The machine's state and programs (src/include/aivm_vm.h, src/include/aivm_program.h), its
-- errors (src/aivm_vm_error.c), histories (src/aivm_vm_history.c) and the checks of the frame
-- state (src/aivm_vm.c). The texts of error details are diagnostics and are left out.
use ai_vm.Common.{
  ℕ, ◌+◌, ◌-◌, Bool, true, false, ◌&&◌, Option, none, some, List, ◌∷◌, ltb, leb, if◌then◌else◌,
  take, Memory, size_mod,
}
use ai_vm.Vm.Value.{Value}

-- The opcodes that the model covers; `stub` is the opcode of that name.
pub data Opcode : Type 0 where
  nop halt stub push_int pop store_local load_local add_int : Opcode
  sub_num mul_num div_num mod_num pow_num lt_num : Opcode
  jump jump_if_false push_bool call ret eq_int eq const : Opcode

pub record Instruction : Type 0 where
  pub opcode : Opcode
  pub operand : ℕ

-- `instructions` and `constants` are null or hold as many entries as their counts say.
pub record Program : Type 0 where
  pub instructions : Option (List Instruction)
  pub instruction_count : ℕ
  pub constants : Option (List Value)
  pub constant_count : ℕ

pub data Status : Type 0 where
  ready running halted error : Status

pub data VmError : Type 0 where
  no_error invalid_opcode stack_overflow stack_underflow frame_overflow frame_underflow : VmError
  local_out_of_range type_mismatch invalid_program string_overflow syscall : VmError
  memory_pressure : VmError

pub record CallFrame : Type 0 where
  pub return_instruction_pointer : ℕ
  pub frame_base : ℕ
  pub locals_base : ℕ

pub record CallEntry : Type 0 where
  pub instruction_pointer : ℕ
  pub target : ℕ
  pub arg_count : ℕ
  pub stack_count : ℕ

pub record ReturnEntry : Type 0 where
  pub instruction_pointer : ℕ
  pub stack_count : ℕ
  pub pre_restore_stack_count : ℕ
  pub frame_base : ℕ
  pub has_return_value : Bool

pub record OpcodeEntry : Type 0 where
  pub instruction_pointer : ℕ
  pub opcode : Opcode
  pub stack_count : ℕ

-- The fields for control, the stack, the frames, the locals and the histories; the arenas, tables and
-- counters of the other opcodes are left out. A history is the list of its entries in use, newest
-- first.
pub record Vm : Type 0 where
  pub instruction_pointer : ℕ
  pub status : Status
  pub error_code : VmError
  pub stack : Memory Value
  pub stack_count : ℕ
  pub stack_limit : ℕ
  pub call_frames : Memory CallFrame
  pub call_frame_count : ℕ
  pub call_frame_limit : ℕ
  pub locals : Memory Value
  pub locals_count : ℕ
  pub locals_limit : ℕ
  pub recent_calls : List CallEntry
  pub recent_returns : List ReturnEntry
  pub recent_opcodes : List OpcodeEntry

abbrev pub stack_capacity : ℕ
stack_capacity = 20000

abbrev pub stack_growth_step : ℕ
stack_growth_step = 512

abbrev pub callframe_capacity : ℕ
callframe_capacity = 2048

abbrev pub callframe_growth_step : ℕ
callframe_growth_step = 256

abbrev pub locals_capacity : ℕ
locals_capacity = 16384

abbrev pub locals_growth_step : ℕ
locals_growth_step = 1024

-- `aivm_size_add_checked`
abbrev pub size_add_checked : ℕ → ℕ → Option ℕ
size_add_checked a b = if ltb (size_mod - 1 - b) a then none else some (a + b)

unfoldable pub set_vm_error : Vm → VmError → Vm
set_vm_error vm e = record vm { error_code = e; status = Status.error }

unfoldable pub record_recent_call : Vm → ℕ → ℕ → ℕ → ℕ → Vm
record_recent_call vm ip target arg_count stack_count =
    let entry : CallEntry = record {
      instruction_pointer = ip;
      target = target;
      arg_count = arg_count;
      stack_count = stack_count;
    } in
    record vm { recent_calls = take 4 (entry ∷ vm.recent_calls) }

unfoldable pub record_recent_return : Vm → ℕ → ℕ → ℕ → ℕ → Bool → Vm
record_recent_return vm ip stack_count pre_restore frame_base has_value =
    let entry : ReturnEntry = record {
      instruction_pointer = ip;
      stack_count = stack_count;
      pre_restore_stack_count = pre_restore;
      frame_base = frame_base;
      has_return_value = has_value;
    } in
    record vm { recent_returns = take 4 (entry ∷ vm.recent_returns) }

unfoldable pub record_recent_opcode : Vm → ℕ → Opcode → ℕ → Vm
record_recent_opcode vm ip opcode stack_count =
    let entry : OpcodeEntry = record {
      instruction_pointer = ip;
      opcode = opcode;
      stack_count = stack_count;
    } in
    record vm { recent_opcodes = take 24 (entry ∷ vm.recent_opcodes) }

-- The frame on top of the call stack, if there is one.
abbrev pub top_frame : Vm → CallFrame
top_frame vm = vm.call_frames (vm.call_frame_count - 1)

-- The base of the current locals: the top frame's, or 0.
unfoldable pub locals_start : Vm → ℕ
locals_start vm = if ltb 0 vm.call_frame_count then (top_frame vm).locals_base else 0

abbrev pub within_limits : Vm → Bool
within_limits vm =
    leb vm.stack_count vm.stack_limit
    && (leb vm.call_frame_count vm.call_frame_limit && leb vm.locals_count vm.locals_limit)

abbrev pub frame_fits : Vm → CallFrame → Bool
frame_fits vm frame = leb frame.frame_base vm.stack_count && leb frame.locals_base vm.locals_count

-- `aivm_vm_validate_call_local_state`. Its last test repeats the one on the frame's base.
unfoldable pub validate_call_local_state : Vm → Bool × Vm
validate_call_local_state vm =
    if within_limits vm
    then if ltb 0 vm.call_frame_count
      then if frame_fits vm (top_frame vm)
        then if ltb vm.locals_count (top_frame vm).locals_base
          then (false, set_vm_error vm VmError.invalid_program)
          else (true, vm)
        else (false, set_vm_error vm VmError.invalid_program)
      else (true, vm)
    else (false, set_vm_error vm VmError.invalid_program)

unfoldable pub validate_frame_record : Vm → CallFrame → Bool × Vm
validate_frame_record vm frame =
    if frame_fits vm frame then (true, vm) else (false, set_vm_error vm VmError.invalid_program)
