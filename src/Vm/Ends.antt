-- ===== src/Vm/Ends.antt =====
-- Programs without calls whose jumps lead forward, and what the cases of `aivm_step` (src/aivm_vm.c)
-- do to the instruction pointer.
pub mod Forward
pub mod Runs
use ai_vm.Common.{
  ℕ, zero, suc, ◌+◌, ◌-◌, ◌≤◌, ◌<◌, ◌≡◌, refl, sym, ap, ◌∙◌, ◌⊎◌, inl, inr, Bool, true, false, not,
  ◌&&◌, Option, none, some, List, ltb, leb, ◌==◌, if◌then◌else◌, arith, if_cases, option_cases,
}
use ai_vm.Vm.Value.{Value}
use ai_vm.Vm.State.{
  Vm, VmError, Program, Status, set_vm_error, locals_start, validate_call_local_state,
}
use ai_vm.Vm.Stack.{
  stack_push, stack_pop, local_set, set_checked_local, set_absolute_local, ensure_stack_capacity,
  ensure_locals_capacity, local_get,
}
use ai_vm.Vm.Call.{abandon, fail_with, halt, operand_to_index}
use ai_vm.Vm.Step.{
  advance, proceed, exec_push, exec_pop, exec_store_local, exec_load_local, pop_two, exec_binary,
  exec_jump, jump_on, exec_jump_if_false, constant_at, exec_const, is_stopped,
}

-- The machine is behind `i`, or it has stopped.
pub data Progress (i : ℕ) (vm : Vm) : Type 0 where
  progress : (i < vm.instruction_pointer) ⊎ (is_stopped vm.status ≡ true) → Progress i vm

stack_push-ip :
    (vm : Vm) (v : Value) → (stack_push vm v).1.instruction_pointer ≡ vm.instruction_pointer
unfolding stack_push set_vm_error ensure_stack_capacity
stack_push-ip vm v = ground arith

stack_pop-ip : (vm : Vm) → (stack_pop vm).1.instruction_pointer ≡ vm.instruction_pointer
unfolding stack_pop set_vm_error
stack_pop-ip vm = ground arith

validate-ip :
    (vm : Vm) → (validate_call_local_state vm).1.instruction_pointer ≡ vm.instruction_pointer
unfolding validate_call_local_state set_vm_error
validate-ip vm = ground arith

set_absolute_local-ip :
    (vm : Vm) (n : ℕ) (v : Value)
    → (set_absolute_local vm n v).1.instruction_pointer ≡ vm.instruction_pointer
unfolding set_absolute_local set_vm_error ensure_locals_capacity
set_absolute_local-ip vm n v = ground arith

set_checked_local-ip :
    (vm : Vm) (n : ℕ) (v : Value)
    → (set_checked_local vm n v).1.instruction_pointer ≡ vm.instruction_pointer
unfolding set_checked_local set_vm_error
set_checked_local-ip vm n v = ground (arith, set_absolute_local-ip vm (locals_start vm + n) v)

local_set-ip :
    (vm : Vm) (n : ℕ) (v : Value)
    → (local_set vm n v).1.instruction_pointer ≡ vm.instruction_pointer
unfolding local_set
local_set-ip vm n v =
    ground (arith, set_checked_local-ip (validate_call_local_state vm).1 n v, validate-ip vm)

pop_two-ip : (vm : Vm) → (pop_two vm).1.instruction_pointer ≡ vm.instruction_pointer
unfolding pop_two
pop_two-ip vm = ground (arith, stack_pop-ip vm, stack_pop-ip (stack_pop vm).1)

module _ (p : Program) {i : ℕ} (within : i < p.instruction_count) where
  abandon-Progress : (vm : Vm) → Progress i (abandon p vm)
  abandon-Progress vm = progress (inl within)

  fail_with-Progress : (e : VmError) (vm : Vm) → Progress i (fail_with p e vm)
  fail_with-Progress e vm = abandon-Progress (set_vm_error vm e)

  advance-Progress : (vm : Vm) → vm.instruction_pointer ≡ i → Progress i (advance vm)
  advance-Progress vm e = progress (inl (omega (arith, e)))

  pub halt-Progress : (vm : Vm) → Progress i (halt p vm)
  unfolding halt
  halt-Progress vm = progress (inr refl)

  proceed-Progress : (r : Bool × Vm) → r.1.instruction_pointer ≡ i → Progress i (proceed p r)
  proceed-Progress r e =
      if_cases (Progress i) r.0 (λ _. advance-Progress r.1 e) (λ _. abandon-Progress r.1)

  pub exec_push-Progress :
      (v : Value) (vm : Vm) → vm.instruction_pointer ≡ i → Progress i (exec_push p v vm)
  unfolding exec_push
  exec_push-Progress v vm e = proceed-Progress (stack_push vm v) (stack_push-ip vm v ∙ e)

  pub exec_pop-Progress : (vm : Vm) → vm.instruction_pointer ≡ i → Progress i (exec_pop p vm)
  unfolding exec_pop
  exec_pop-Progress vm e =
      option_cases (Progress i) (stack_pop vm).0 (λ _. abandon-Progress (stack_pop vm).1)
        λ v _. advance-Progress (stack_pop vm).1 (stack_pop-ip vm ∙ e)

  pub exec_store_local-Progress :
      (n : ℕ) (vm : Vm) → vm.instruction_pointer ≡ i → Progress i (exec_store_local p n vm)
  unfolding exec_store_local
  exec_store_local-Progress n vm e =
      option_cases (Progress i) (operand_to_index n)
        (λ _. fail_with-Progress VmError.invalid_program vm)
        λ k _.
          option_cases (Progress i) (stack_pop vm).0 (λ _. abandon-Progress (stack_pop vm).1)
            λ v _.
              proceed-Progress (local_set (stack_pop vm).1 k v)
                (local_set-ip (stack_pop vm).1 k v ∙ (stack_pop-ip vm ∙ e))

  pub exec_load_local-Progress :
      (n : ℕ) (vm : Vm) → vm.instruction_pointer ≡ i → Progress i (exec_load_local p n vm)
  unfolding exec_load_local
  exec_load_local-Progress n vm e =
      option_cases (Progress i) (operand_to_index n)
        (λ _. fail_with-Progress VmError.invalid_program vm)
        λ k _.
          option_cases (Progress i) (local_get vm k)
            (λ _. fail_with-Progress VmError.local_out_of_range vm) λ v _. exec_push-Progress v vm e

  pub exec_const-Progress :
      (n : ℕ) (vm : Vm) → vm.instruction_pointer ≡ i → Progress i (exec_const p n vm)
  unfolding exec_const
  exec_const-Progress n vm e =
      option_cases (Progress i) (operand_to_index n)
        (λ _. fail_with-Progress VmError.invalid_program vm)
        λ k _.
          option_cases (Progress i) (constant_at p k)
            (λ _. fail_with-Progress VmError.invalid_program vm) λ v _. exec_push-Progress v vm e

  pub exec_binary-Progress :
      (compute : Value → Value → Option Value) (vm : Vm)
      → vm.instruction_pointer ≡ i
      → Progress i (exec_binary p compute vm)
  unfolding exec_binary
  exec_binary-Progress compute vm e =
      option_cases (Progress i) (pop_two vm).0 (λ _. abandon-Progress (pop_two vm).1)
        λ o _.
          option_cases (Progress i) (compute o.0 o.1)
            (λ _. fail_with-Progress VmError.type_mismatch (pop_two vm).1)
            λ v _. exec_push-Progress v (pop_two vm).1 (pop_two-ip vm ∙ e)

  goes_to-Progress :
      (target : ℕ) (vm : Vm)
      → i < target
      → Progress i (
          if ltb p.instruction_count target
          then fail_with p VmError.invalid_program vm
          else record vm { instruction_pointer = target })
  goes_to-Progress target vm h =
      if_cases (Progress i) (ltb p.instruction_count target)
        (λ _. fail_with-Progress VmError.invalid_program vm) λ _. progress (inl h)

  index_of : (n k : ℕ) → operand_to_index n ≡ some k → k ≡ n
  unfolding operand_to_index
  index_of n k h = ground arith

  pub exec_jump-Progress : (n : ℕ) (vm : Vm) → i < n → Progress i (exec_jump p n vm)
  unfolding exec_jump
  exec_jump-Progress n vm h =
      option_cases (Progress i) (operand_to_index n)
        (λ _. fail_with-Progress VmError.invalid_program vm)
        λ k e. goes_to-Progress k vm (omega (arith, h, index_of n k e))

  jump_on-Progress :
      (t : ℕ) (v : Value) (vm : Vm)
      → i < t
      → vm.instruction_pointer ≡ i
      → Progress i (jump_on p t v vm)
  unfolding jump_on
  jump_on-Progress t (Value.bool b) vm h e =
      if_cases (Progress i) (b == 0) (λ _. goes_to-Progress t vm h) (λ _. advance-Progress vm e)
  jump_on-Progress t _ vm h e = fail_with-Progress VmError.type_mismatch vm

  pub exec_jump_if_false-Progress :
      (n : ℕ) (vm : Vm)
      → i < n
      → vm.instruction_pointer ≡ i
      → Progress i (exec_jump_if_false p n vm)
  unfolding exec_jump_if_false
  exec_jump_if_false-Progress n vm h e =
      option_cases (Progress i) (operand_to_index n)
        (λ _. fail_with-Progress VmError.invalid_program vm)
        λ k q.
          option_cases (Progress i) (stack_pop vm).0 (λ _. abandon-Progress (stack_pop vm).1)
            λ v _.
              jump_on-Progress k v (stack_pop vm).1 (omega (arith, h, index_of n k q))
                (stack_pop-ip vm ∙ e)
