-- ===== src/Vm/Safety/Run.antt =====
-- The invariant along `aivm_step` and `aivm_run` (src/aivm_vm.c).
use ai_vm.Common.{
  ℕ, zero, suc, ◌<◌, ◌≡◌, leb, ◌==◌, arith, none, some, false, List, if_cases, option_cases,
  Bool-cases, inl, inr, get_elem?, subst,
}
use mathlib.Core.Option.{some-injective}
use ai_vm.Vm.Value.{Doubles}
use ai_vm.Vm.State.{Vm, VmError, Program, Instruction, Opcode, set_vm_error, record_recent_opcode}
use ai_vm.Vm.Call.{SafePoint}
use ai_vm.Vm.Step.{
  execute, mark_running, settle, is_stopped, step_code, step, goes_on, run_loop, run,
}
use ai_vm.Vm.Safety.Invariant.{IsSafe, Safe, safe, facts}
use ai_vm.Vm.Safety.StackOps.{set_vm_error-Safe}
use ai_vm.Vm.Safety.Steps.{
  Done, KeepsShape, advance-Safe, halt-Safe, stays, exec_push-Safe, exec_pop-Safe,
  exec_store_local-Safe, exec_load_local-Safe, exec_binary-Safe, exec_jump-Safe,
  exec_jump_if_false-Safe, exec_const-Safe,
}
use ai_vm.Vm.Safety.Calls.{exec_call-Safe, exec_return-Safe}

none_ne_some {ℓ} : {A : Type ℓ} {a : A} → none ≡ some a → ⊥
none_ne_some e = cc

module _ (D : Doubles) (S : SafePoint) (keeps : KeepsShape S) (p : Program) where
  execute-Safe :
      {last : ℕ} (code : List Instruction) (within : last < p.instruction_count) (o : Opcode)
      (n : ℕ) (vm : Vm) (s : Safe p.instruction_count last vm)
      → Done p (execute D S p code o n vm)
  unfolding execute
  execute-Safe code w Opcode.nop n vm s = advance-Safe p w vm s
  execute-Safe code w Opcode.halt n vm s = halt-Safe p w vm s
  execute-Safe code w Opcode.stub n vm s =
      stays p w (set_vm_error vm VmError.invalid_opcode)
        (set_vm_error-Safe vm s VmError.invalid_opcode)
  execute-Safe code w Opcode.push_int n vm s = exec_push-Safe p w _ vm s
  execute-Safe code w Opcode.pop n vm s = exec_pop-Safe p w vm s
  execute-Safe code w Opcode.store_local n vm s = exec_store_local-Safe p w n vm s
  execute-Safe code w Opcode.load_local n vm s = exec_load_local-Safe p w n vm s
  execute-Safe code w Opcode.jump n vm s = exec_jump-Safe p w n vm s
  execute-Safe code w Opcode.jump_if_false n vm s = exec_jump_if_false-Safe p w n vm s
  execute-Safe code w Opcode.push_bool n vm s = exec_push-Safe p w _ vm s
  execute-Safe code w Opcode.call n vm s = exec_call-Safe p w code n vm s
  execute-Safe code w Opcode.ret n vm s = exec_return-Safe p w S keeps vm s
  execute-Safe code w Opcode.const n vm s = exec_const-Safe p w n vm s
  execute-Safe code w _ n vm s = exec_binary-Safe p w _ vm s

  settle-Safe : (vm : Vm) → Done p vm → Done p (settle p vm)
  unfolding settle
  settle-Safe vm s = let f = facts s in safe (ground arith)

  step_code-Safe :
      (code : List Instruction) (vm : Vm)
      → vm.instruction_pointer < p.instruction_count
      → Done p vm
      → Done p (step_code D S p code vm)
  unfolding step_code record_recent_opcode
  step_code-Safe code vm h s =
      let f = facts s in
      option_cases (Done p) (get_elem? code vm.instruction_pointer) (λ _. s)
        λ i _.
          let vm' =
            record_recent_opcode (mark_running vm) vm.instruction_pointer i.opcode vm.stack_count in
          let s' : Safe p.instruction_count vm.instruction_pointer vm' = safe (ground arith) in
          settle-Safe _ (execute-Safe code h i.opcode i.operand vm' s')

  step-Done : (vm : Vm) → Done p vm → Done p (step D S p vm)
  unfolding step set_vm_error
  step-Done vm s =
      let f = facts s in
      option_cases (Done p) p.instructions (λ _. safe (ground arith))
        λ code _.
          if_cases (Done p) (is_stopped vm.status) (λ _. s)
            λ _.
              if_cases (Done p) (leb p.instruction_count vm.instruction_pointer)
                (λ _. safe (ground arith)) λ h. step_code-Safe code vm (ground arith) s

  -- Every step keeps the machine safe, whatever the program and the operands: the counts stay
  -- within the limits and these within the arrays, the frames stay nested, and the instruction
  -- pointer stays in the code or at its end. Of the safe point behind a return it is assumed
  -- that it changes no count, limit or frame.
  pub step-IsSafe :
      (vm : Vm)
      → IsSafe p.instruction_count p.instruction_count vm
      → IsSafe p.instruction_count p.instruction_count (step D S p vm)
  step-IsSafe vm s = facts (step-Done vm (safe s))

  run_loop-Ends :
      (fuel : ℕ) (vm final : Vm)
      → Done p vm
      → run_loop D S p fuel vm ≡ some final
      → Done p final × (goes_on D S p final ≡ false)
  unfolding run_loop
  run_loop-Ends zero vm final s e = absurd (none_ne_some e)
  run_loop-Ends (suc fuel) vm final s e = elim (Bool-cases (goes_on D S p vm)) [
    | inl more ↦ run_loop-Ends fuel (step D S p vm) final (step-Done vm s) (rw more at e)
    | inr stop ↦
        let same : vm ≡ final = some-injective vm final (rw stop at e) in
        subst (λ w. Done p w × (goes_on D S p w ≡ false)) same (s, stop)
  ]

  -- A run that ends leaves the machine safe, and stopped or at the end of the code; the program
  -- has an instruction, and of the safe point it is assumed that it changes no count, limit or
  -- frame.
  pub run-Ends :
      (fuel : ℕ) (vm final : Vm)
      → 0 < p.instruction_count
      → IsSafe p.instruction_count p.instruction_count vm
      → run D S p fuel vm ≡ some final
      → IsSafe p.instruction_count p.instruction_count final × (goes_on D S p final ≡ false)
  unfolding run
  run-Ends fuel vm final h s e =
      let nonzero : (p.instruction_count == 0) ≡ false = ground arith in
      let (t, u) = run_loop-Ends fuel vm final (safe s) (rw nonzero at e) in (facts t, u)
