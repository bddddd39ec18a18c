-- ===== src/Vm/Safety/Steps.antt =====
-- The safety invariant under the other cases of `aivm_step` (src/aivm_vm.c).
use ai_vm.Common.{
  ℕ, ◌+◌, ◌≤◌, ◌<◌, ◌≡◌, ltb, ◌==◌, arith, if◌then◌else◌, Option, Bool, true, false, if_cases,
  option_cases, ltb→ge,
}
use ai_vm.Vm.Value.{Value}
use ai_vm.Vm.State.{Vm, VmError, Program, set_vm_error}
use ai_vm.Vm.Stack.{stack_push, stack_pop, local_set, local_get}
use ai_vm.Vm.Call.{SafePoint, abandon, fail_with, halt, operand_to_index}
use ai_vm.Vm.Step.{
  advance, proceed, exec_push, exec_pop, exec_store_local, exec_load_local, pop_two, exec_binary,
  exec_jump, jump_on, exec_jump_if_false, exec_const, constant_at,
}
use ai_vm.Vm.Safety.Invariant.{Nested, Safe, safe, facts}
use ai_vm.Vm.Safety.StackOps.{set_vm_error-Safe, stack_push-Safe, stack_pop-Safe, local_set-Safe}

module _ (p : Program) {last : ℕ} (within : last < p.instruction_count) (vm : Vm)
    (s : Safe p.instruction_count last vm) where
  pub goes_to :
      (ip : ℕ)
      → ip ≤ p.instruction_count
      → Safe p.instruction_count p.instruction_count (record vm { instruction_pointer = ip })
  goes_to ip h = let f = facts s in safe (ground arith)

  pub abandon-Safe : Safe p.instruction_count p.instruction_count (abandon p vm)
  abandon-Safe = goes_to p.instruction_count (omega arith)

  pub advance-Safe : Safe p.instruction_count p.instruction_count (advance vm)
  advance-Safe = let f = facts s in goes_to (vm.instruction_pointer + 1) (omega arith)

  pub halt-Safe : Safe p.instruction_count p.instruction_count (halt p vm)
  unfolding halt
  halt-Safe = let f = facts s in safe (ground arith)

  pub stays : Safe p.instruction_count p.instruction_count vm
  stays = let f = facts s in safe (ground arith)

-- The state after a case of the switch.
abbrev pub Done : Program → Vm → Type 0
Done p vm = Safe p.instruction_count p.instruction_count vm

-- What a safe point leaves alone: everything but the values, the status and the error.
pub record SameShape (a b : Vm) : Type 0 where
  pub same_ip : b.instruction_pointer ≡ a.instruction_pointer
  pub same_stack_count : b.stack_count ≡ a.stack_count
  pub same_stack_limit : b.stack_limit ≡ a.stack_limit
  pub same_frames : b.call_frames ≡ a.call_frames
  pub same_frame_count : b.call_frame_count ≡ a.call_frame_count
  pub same_frame_limit : b.call_frame_limit ≡ a.call_frame_limit
  pub same_locals_count : b.locals_count ≡ a.locals_count
  pub same_locals_limit : b.locals_limit ≡ a.locals_limit

abbrev pub KeepsShape : SafePoint → Type 0
KeepsShape S = (vm : Vm) → SameShape vm (S.collect vm).1

pub SameShape-Safe :
    {code last : ℕ} (a b : Vm) → SameShape a b → Safe code last a → Safe code last b
SameShape-Safe {code} a b e s =
    let f = facts s in
    let frames = e.same_frames in
    let n : Nested code b.call_frames b.call_frame_count b.locals_count =
      rw (e.same_frames, e.same_frame_count, e.same_locals_count) f.nested in
    safe (ground arith)

module _ (p : Program) {last : ℕ} (within : last < p.instruction_count) where
  pub fail_with-Safe :
      (vm : Vm) (s : Safe p.instruction_count last vm) (e : VmError) → Done p (fail_with p e vm)
  fail_with-Safe vm s e = abandon-Safe p within (set_vm_error vm e) (set_vm_error-Safe vm s e)

  proceed-Safe : (r : Bool × Vm) → Safe p.instruction_count last r.1 → Done p (proceed p r)
  proceed-Safe (true, vm) s = advance-Safe p within vm s
  proceed-Safe (false, vm) s = abandon-Safe p within vm s

  pub exec_push-Safe :
      (v : Value) (vm : Vm) (s : Safe p.instruction_count last vm) → Done p (exec_push p v vm)
  unfolding exec_push
  exec_push-Safe v vm s = proceed-Safe (stack_push vm v) (stack_push-Safe vm s v)

  pub exec_pop-Safe : (vm : Vm) (s : Safe p.instruction_count last vm) → Done p (exec_pop p vm)
  unfolding exec_pop
  exec_pop-Safe vm s =
      let t = stack_pop-Safe vm s in
      ground
        (arith, abandon-Safe p within (stack_pop vm).1 t, advance-Safe p within (stack_pop vm).1 t)

  pub exec_store_local-Safe :
      (n : ℕ) (vm : Vm) (s : Safe p.instruction_count last vm) → Done p (exec_store_local p n vm)
  unfolding exec_store_local
  exec_store_local-Safe n vm s =
      option_cases (Done p) (operand_to_index n) (λ _. fail_with-Safe vm s VmError.invalid_program)
        λ i _.
          option_cases (Done p) (stack_pop vm).0
            (λ _. abandon-Safe p within (stack_pop vm).1 (stack_pop-Safe vm s))
            λ v _.
              proceed-Safe (local_set (stack_pop vm).1 i v)
                (local_set-Safe (stack_pop vm).1 (stack_pop-Safe vm s) i v)

  pub exec_load_local-Safe :
      (n : ℕ) (vm : Vm) (s : Safe p.instruction_count last vm) → Done p (exec_load_local p n vm)
  unfolding exec_load_local
  exec_load_local-Safe n vm s =
      option_cases (Done p) (operand_to_index n) (λ _. fail_with-Safe vm s VmError.invalid_program)
        λ i _.
          option_cases (Done p) (local_get vm i)
            (λ _. fail_with-Safe vm s VmError.local_out_of_range) λ v _. exec_push-Safe v vm s

  pub exec_const-Safe :
      (n : ℕ) (vm : Vm) (s : Safe p.instruction_count last vm) → Done p (exec_const p n vm)
  unfolding exec_const
  exec_const-Safe n vm s =
      option_cases (Done p) (operand_to_index n) (λ _. fail_with-Safe vm s VmError.invalid_program)
        λ i _.
          option_cases (Done p) (constant_at p i) (λ _. fail_with-Safe vm s VmError.invalid_program)
            λ v _. exec_push-Safe v vm s

  pop_two-Safe :
      (vm : Vm) (s : Safe p.instruction_count last vm)
      → Safe p.instruction_count last (pop_two vm).1
  unfolding pop_two
  pop_two-Safe vm s =
      let t = stack_pop-Safe vm s in let u = stack_pop-Safe (stack_pop vm).1 t in ground arith

  pub exec_binary-Safe :
      (compute : Value → Value → Option Value) (vm : Vm) (s : Safe p.instruction_count last vm)
      → Done p (exec_binary p compute vm)
  unfolding exec_binary
  exec_binary-Safe compute vm s =
      let t = pop_two-Safe vm s in
      option_cases (Done p) (pop_two vm).0 (λ _. abandon-Safe p within (pop_two vm).1 t)
        λ o _.
          option_cases (Done p) (compute o.0 o.1)
            (λ _. fail_with-Safe (pop_two vm).1 t VmError.type_mismatch)
            λ v _. exec_push-Safe v (pop_two vm).1 t

  goes_to_operand-Safe :
      (target : ℕ) (vm : Vm) (s : Safe p.instruction_count last vm)
      → Done p (
          if ltb p.instruction_count target
          then fail_with p VmError.invalid_program vm
          else record vm { instruction_pointer = target })
  goes_to_operand-Safe target vm s =
      if_cases (Done p) (ltb p.instruction_count target)
        (λ _. fail_with-Safe vm s VmError.invalid_program)
        λ e. goes_to p within vm s target (ltb→ge _ _ e)

  pub exec_jump-Safe :
      (n : ℕ) (vm : Vm) (s : Safe p.instruction_count last vm) → Done p (exec_jump p n vm)
  unfolding exec_jump
  exec_jump-Safe n vm s =
      option_cases (Done p) (operand_to_index n) (λ _. fail_with-Safe vm s VmError.invalid_program)
        λ t _. goes_to_operand-Safe t vm s

  jump_on-Safe :
      (t : ℕ) (v : Value) (vm : Vm) (s : Safe p.instruction_count last vm)
      → Done p (jump_on p t v vm)
  unfolding jump_on
  jump_on-Safe t (Value.bool b) vm s =
      if_cases (Done p) (b == 0) (λ _. goes_to_operand-Safe t vm s)
        (λ _. advance-Safe p within vm s)
  jump_on-Safe t _ vm s = fail_with-Safe vm s VmError.type_mismatch

  pub exec_jump_if_false-Safe :
      (n : ℕ) (vm : Vm) (s : Safe p.instruction_count last vm) → Done p (exec_jump_if_false p n vm)
  unfolding exec_jump_if_false
  exec_jump_if_false-Safe n vm s =
      option_cases (Done p) (operand_to_index n) (λ _. fail_with-Safe vm s VmError.invalid_program)
        λ t _.
          option_cases (Done p) (stack_pop vm).0
            (λ _. abandon-Safe p within (stack_pop vm).1 (stack_pop-Safe vm s))
            λ v _. jump_on-Safe t v (stack_pop vm).1 (stack_pop-Safe vm s)
