-- ===== src/Vm/Samples.antt =====
-- Parameters and states of the machine of src/aivm_vm.c for the tests.
use ai_vm.Common.{ℕ, refl, arith}
use ai_vm.Vm.Safety.Invariant.{IsSafe}
use ai_vm.Vm.Safety.Steps.{KeepsShape}
use ai_vm.Common.{ℕ, ◌+◌, ◌*◌, ◌-◌, ◌/◌, true, [], ltb, ◌==◌}
use ai_vm.Vm.Value.{Value, Doubles}
use ai_vm.Vm.State.{Vm, VmError, Instruction, Opcode, Status, CallFrame}
use ai_vm.Vm.Call.{SafePoint}

-- Doubles that are whole and not negative.
abbrev pub whole : Doubles
whole = record {
  of_int = λ n. n;
  to_int = λ n. n;
  eq = λ a b. a == b;
  lt = λ a b. ltb a b;
  add = λ a b. a + b;
  sub = λ a b. a - b;
  mul = λ a b. a * b;
  div = λ a b. a / b;
  zero_value = 0;
  one_value = 1;
}

-- A collector with nothing to do.
abbrev pub quiet : SafePoint
quiet = record { collect = λ vm. (true, vm) }

abbrev pub no_frame : CallFrame
no_frame = record { return_instruction_pointer = 0; frame_base = 0; locals_base = 0 }

abbrev pub fresh : Vm
fresh = record {
  instruction_pointer = 0;
  status = Status.ready;
  error_code = VmError.no_error;
  stack = λ i. Value.void;
  stack_count = 0;
  stack_limit = 256;
  call_frames = λ i. no_frame;
  call_frame_count = 0;
  call_frame_limit = 64;
  locals = λ i. Value.void;
  locals_count = 0;
  locals_limit = 256;
  recent_calls = [];
  recent_returns = [];
  recent_opcodes = [];
}

abbrev pub op : Opcode → ℕ → Instruction
op o n = record { opcode = o; operand = n }

pub fresh-IsSafe : (n : ℕ) → IsSafe n n fresh
fresh-IsSafe n = record {
  stack_count_le = omega arith;
  stack_limit_le = omega arith;
  frame_count_le = omega arith;
  frame_limit_le = omega arith;
  locals_count_le = omega arith;
  locals_limit_le = omega arith;
  in_code = omega arith;
  nested = tt;
}

pub quiet_keeps : KeepsShape quiet
quiet_keeps vm = record {
  same_ip = refl;
  same_stack_count = refl;
  same_stack_limit = refl;
  same_frames = refl;
  same_frame_count = refl;
  same_frame_limit = refl;
  same_locals_count = refl;
  same_locals_limit = refl;
}
