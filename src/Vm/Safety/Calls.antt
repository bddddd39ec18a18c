-- ===== src/Vm/Safety/Calls.antt =====
-- The safety invariant under CALL and RETURN (src/aivm_vm.c).
use ai_vm.Common.{
  ℕ, ◌-◌, ◌≤◌, ◌<◌, ◌≡◌, refl, ltb, leb, ◌==◌, arith, Bool, true, false, List, if_cases,
  option_cases, ltb→ge, ◌≢◌,
}
use ai_vm.Vm.State.{
  Vm, VmError, CallFrame, Program, Instruction, top_frame, record_recent_call, record_recent_return,
  size_add_checked,
}
use ai_vm.Vm.Stack.{stack_push, frame_push, frame_pop}
use ai_vm.Vm.Call.{
  SafePoint, operand_to_index, infer_call_arg_count, crosses_frame, is_tail_call,
  validate_call_target_layout, tail_call, plain_call, enter_call, exec_call, finish_return,
  restore_caller, return_to, exec_return, return_restore_valid,
}
use ai_vm.Vm.Safety.Invariant.{Nested, Safe, safe, facts, Nested-pop, Nested-cut}
use ai_vm.Vm.Safety.StackOps.{stack_push-Safe, frame_push-Safe, frame_pop-Safe, frame_pop-frame}
use ai_vm.Vm.Safety.Steps.{
  Done, KeepsShape, SameShape-Safe, goes_to, abandon-Safe, halt-Safe, fail_with-Safe,
}

record_recent_call-Safe :
    {code last : ℕ} (vm : Vm) (a b c d : ℕ)
    → Safe code last vm
    → Safe code last (record_recent_call vm a b c d)
unfolding record_recent_call
record_recent_call-Safe vm a b c d s = let f = facts s in safe (ground arith)

record_recent_return-Safe :
    {code last : ℕ} (vm : Vm) (a b c d : ℕ) (v : Bool)
    → Safe code last vm
    → Safe code last (record_recent_return vm a b c d v)
unfolding record_recent_return
record_recent_return-Safe vm a b c d v s = let f = facts s in safe (ground arith)

-- A tail call reuses a frame, so there is one.
tail_call_needs_frame :
    (code : List Instruction) (vm : Vm) → is_tail_call code vm ≡ true → vm.call_frame_count ≢ 0
unfolding is_tail_call
tail_call_needs_frame code vm e z = ground arith

module _ (p : Program) {last : ℕ} (within : last < p.instruction_count) where
  -- The arguments move down to the frame's base, where the stack was higher.
  tail_call-Safe :
      (target n base : ℕ) (vm : Vm) (s : Safe p.instruction_count last vm)
      → target < p.instruction_count
      → n ≤ vm.stack_count
      → base ≡ vm.stack_count - n
      → vm.call_frame_count ≢ 0
      → Done p (tail_call p target n base vm)
  unfolding tail_call
  tail_call-Safe target n base vm s t h e c =
      if_cases (Done p) (ltb base (top_frame vm).frame_base)
        (λ _. fail_with-Safe p within vm s VmError.invalid_program)
        λ b.
          let f = facts s in
          let g : (top_frame vm).frame_base ≤ base = ltb→ge _ _ b in
          let top =
            Nested-pop p.instruction_count vm.call_frames vm.call_frame_count vm.locals_count c
              f.nested in
          let cut =
            Nested-cut p.instruction_count vm.call_frames vm.call_frame_count vm.locals_count c
              f.nested in
          safe (ground arith)

  plain_call-Safe :
      (target base : ℕ) (vm : Vm) (s : Safe p.instruction_count last vm)
      → target < p.instruction_count
      → Done p (plain_call p target base vm)
  unfolding plain_call
  plain_call-Safe target base vm s t =
      option_cases (Done p) (size_add_checked vm.instruction_pointer 1)
        (λ _. abandon-Safe p within vm s)
        λ ip e.
          let f = facts s in
          let h : ip ≤ p.instruction_count = ground arith in
          let q = frame_push-Safe vm s ip base h in
          if_cases (Done p) (frame_push vm ip base).0
            (λ _. goes_to p within (frame_push vm ip base).1 q target (omega arith))
            (λ _. abandon-Safe p within (frame_push vm ip base).1 q)

  enter_call-Safe :
      (code : List Instruction) (target n : ℕ) (vm : Vm) (s : Safe p.instruction_count last vm)
      → target < p.instruction_count
      → n ≤ vm.stack_count
      → Done p (enter_call p code target n vm)
  unfolding enter_call record_recent_call
  enter_call-Safe code target n vm s t h =
      let vm' = record_recent_call vm vm.instruction_pointer target n vm.stack_count in
      let s' = record_recent_call-Safe vm vm.instruction_pointer target n vm.stack_count s in
      if_cases (Done p) (crosses_frame vm' (vm'.stack_count - n))
        (λ _. fail_with-Safe p within vm' s' VmError.invalid_program)
        λ _.
          if_cases (Done p) (is_tail_call code vm')
            (λ e.
              tail_call-Safe target n (vm'.stack_count - n) vm' s' t h refl
                (tail_call_needs_frame code vm' e))
            (λ _. plain_call-Safe target (vm'.stack_count - n) vm' s' t)

  pub exec_call-Safe :
      (code : List Instruction) (n : ℕ) (vm : Vm) (s : Safe p.instruction_count last vm)
      → Done p (exec_call p code n vm)
  unfolding exec_call
  exec_call-Safe code n vm s =
      let failed = fail_with-Safe p within vm s VmError.invalid_program in
      option_cases (Done p) (operand_to_index n) (λ _. failed)
        λ t _.
          if_cases (Done p) (leb p.instruction_count t) (λ _. failed)
            λ a.
              if_cases (Done p) (ltb vm.stack_count (infer_call_arg_count p code t)) (λ _. failed)
                λ b.
                  if_cases (Done p)
                    (validate_call_target_layout code t (infer_call_arg_count p code t))
                    (λ _.
                      enter_call-Safe code t (infer_call_arg_count p code t) vm s (ground arith)
                        (ltb→ge _ _ b))
                    (λ _. failed)

  module _ (S : SafePoint) (keeps : KeepsShape S) where
    finish_return-Safe :
        (frame : CallFrame) (n : ℕ) (v : Bool) (vm : Vm) (s : Safe p.instruction_count last vm)
        → frame.return_instruction_pointer ≤ p.instruction_count
        → Done p (finish_return S p frame n v vm)
    unfolding finish_return
    finish_return-Safe frame n v vm s h =
        let vm₁ =
          record_recent_return vm frame.return_instruction_pointer vm.stack_count n frame.frame_base
            v in
        let s₁ =
          record_recent_return-Safe vm frame.return_instruction_pointer vm.stack_count n
            frame.frame_base v s in
        let s₂ = SameShape-Safe vm₁ (S.collect vm₁).1 (keeps vm₁) s₁ in
        if_cases (Done p) (S.collect vm₁).0
          (λ _. goes_to p within (S.collect vm₁).1 s₂ frame.return_instruction_pointer h)
          (λ _. abandon-Safe p within (S.collect vm₁).1 s₂)

    restore_caller-Safe :
        (frame : CallFrame) (vm : Vm) (s : Safe p.instruction_count last vm)
        → frame.return_instruction_pointer ≤ p.instruction_count
        → frame.frame_base ≤ vm.stack_count
        → Nested p.instruction_count vm.call_frames vm.call_frame_count frame.locals_base
        → frame.locals_base ≤ vm.locals_count
        → Done p (restore_caller S p frame vm)
    unfolding restore_caller
    restore_caller-Safe frame vm s h b n l =
        let f = facts s in
        let restored = record vm {
          stack_count = frame.frame_base;
          locals_count = frame.locals_base;
        } in
        let r : Safe p.instruction_count last restored = safe (ground arith) in
        let result = vm.stack (vm.stack_count - 1) in
        let q = stack_push-Safe restored r result in
        if_cases (Done p) (ltb frame.frame_base vm.stack_count)
          (λ _.
            if_cases (Done p) (stack_push restored result).0
              (λ _. finish_return-Safe frame vm.stack_count true (stack_push restored result).1 q h)
              (λ _. abandon-Safe p within (stack_push restored result).1 q))
          (λ _. finish_return-Safe frame vm.stack_count false restored r h)

    return_to-Safe :
        (frame : CallFrame) (vm : Vm) (s : Safe p.instruction_count last vm)
        → Nested p.instruction_count vm.call_frames vm.call_frame_count frame.locals_base
        → frame.locals_base ≤ vm.locals_count
        → Done p (return_to S p frame vm)
    unfolding return_to
    return_to-Safe frame vm s n l =
        let failed = fail_with-Safe p within vm s VmError.invalid_program in
        if_cases (Done p) (ltb p.instruction_count frame.return_instruction_pointer) (λ _. failed)
          λ a.
            if_cases (Done p) (ltb vm.stack_count frame.frame_base) (λ _. failed)
              λ b.
                if_cases (Done p) (return_restore_valid vm frame vm.stack_count)
                  (λ _. restore_caller-Safe frame vm s (ltb→ge _ _ a) (ltb→ge _ _ b) n l)
                  (λ _. failed)

    pub exec_return-Safe :
        (vm : Vm) (s : Safe p.instruction_count last vm) → Done p (exec_return S p vm)
    unfolding exec_return
    exec_return-Safe vm s =
        let q = frame_pop-Safe vm s in
        if_cases (Done p) (vm.call_frame_count == 0) (λ _. halt-Safe p within vm s)
          λ _.
            option_cases (Done p) (frame_pop vm).0 (λ _. abandon-Safe p within (frame_pop vm).1 q)
              λ frame e.
                let k = frame_pop-frame vm s frame e in
                return_to-Safe frame (frame_pop vm).1 q k.0 k.1
