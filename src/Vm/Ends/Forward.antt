-- ===== src/Vm/Ends/Forward.antt =====
-- The run of a program without calls whose jumps lead forward (`aivm_run` of src/aivm_vm.c).
use ai_vm.Common.{
  ℕ, zero, suc, ◌+◌, ◌≤◌, ◌<◌, ◌≡◌, refl, ◌⊎◌, inl, inr, Bool, true, false, none, some, List, [],
  ◌∷◌, ltb, leb, ◌==◌, arith, if_cases, option_cases, Bool-cases, get_elem?, length,
}
use ai_vm.Vm.Value.{Doubles}
use ai_vm.Vm.State.{Vm, Program, Status, Instruction, Opcode, set_vm_error, record_recent_opcode}
use ai_vm.Vm.Call.{SafePoint}
use ai_vm.Vm.Step.{
  execute, mark_running, settle, is_stopped, step_code, step, goes_on, run_loop, run,
}
use ai_vm.Vm.Ends.{
  Progress, progress, halt-Progress, exec_push-Progress, exec_pop-Progress,
  exec_store_local-Progress, exec_load_local-Progress, exec_const-Progress, exec_binary-Progress,
  exec_jump-Progress, exec_jump_if_false-Progress,
}

-- No call and no return, and no jump to the instruction itself or one before it.
abbrev pub leads_on : ℕ → Instruction → Bool
leads_on i instruction = elim instruction.opcode [
  | Opcode.jump ↦ ltb i instruction.operand
  | Opcode.jump_if_false ↦ ltb i instruction.operand
  | Opcode.call ↦ false
  | Opcode.ret ↦ false
  | _ ↦ true
]

-- The code has as many instructions as the program says, and each leads on.
abbrev pub IsForward : Program → Type 0
IsForward p =
    (code : List Instruction)
    → p.instructions ≡ some code
    → (p.instruction_count ≤ length code)
      × ((i : ℕ) (instruction : Instruction)
          → get_elem? code i ≡ some instruction
          → leads_on i instruction ≡ true)

past_the_end : (code : List Instruction) (i : ℕ) → get_elem? code i ≡ none → length code ≤ i
past_the_end [] i h = omega arith
past_the_end (x ∷ code) zero h = ground arith
past_the_end (x ∷ code) (suc i) h = omega (arith, past_the_end code i h)

module _ (D : Doubles) (S : SafePoint) (p : Program) where
  execute-Progress :
      {i : ℕ} (code : List Instruction) (o : Opcode) (n : ℕ) (vm : Vm)
      → i < p.instruction_count
      → leads_on i (record { opcode = o; operand = n }) ≡ true
      → vm.instruction_pointer ≡ i
      → Progress i (execute D S p code o n vm)
  unfolding execute set_vm_error
  execute-Progress code Opcode.nop n vm w l e = progress (inl (omega (arith, e)))
  execute-Progress code Opcode.halt n vm w l e = halt-Progress p w vm
  execute-Progress code Opcode.stub n vm w l e = progress (inr refl)
  execute-Progress code Opcode.push_int n vm w l e = exec_push-Progress p w _ vm e
  execute-Progress code Opcode.pop n vm w l e = exec_pop-Progress p w vm e
  execute-Progress code Opcode.store_local n vm w l e = exec_store_local-Progress p w n vm e
  execute-Progress code Opcode.load_local n vm w l e = exec_load_local-Progress p w n vm e
  execute-Progress code Opcode.jump n vm w l e = exec_jump-Progress p w n vm (ground (arith, l))
  execute-Progress code Opcode.jump_if_false n vm w l e =
      exec_jump_if_false-Progress p w n vm (ground (arith, l)) e
  execute-Progress code Opcode.push_bool n vm w l e = exec_push-Progress p w _ vm e
  execute-Progress code Opcode.call n vm w l e = ground arith
  execute-Progress code Opcode.ret n vm w l e = ground arith
  execute-Progress code Opcode.const n vm w l e = exec_const-Progress p w n vm e
  execute-Progress code _ n vm w l e = exec_binary-Progress p w _ vm e

  settle-Progress : {i : ℕ} (vm : Vm) → Progress i vm → Progress i (settle p vm)
  unfolding settle
  settle-Progress vm (progress s) = progress (ground arith)

  step_code-Progress :
      (code : List Instruction) (vm : Vm)
      → vm.instruction_pointer < p.instruction_count
      → p.instruction_count ≤ length code
      → ((i : ℕ) (instruction : Instruction)
          → get_elem? code i ≡ some instruction
          → leads_on i instruction ≡ true)
      → Progress vm.instruction_pointer (step_code D S p code vm)
  unfolding step_code record_recent_opcode
  step_code-Progress code vm w full leads =
      option_cases (Progress vm.instruction_pointer) (get_elem? code vm.instruction_pointer)
        (λ e. progress (inl (omega (arith, past_the_end code vm.instruction_pointer e, w, full))))
        λ i e. settle-Progress _ (
          execute-Progress code i.opcode i.operand
            (record_recent_opcode (mark_running vm) vm.instruction_pointer i.opcode vm.stack_count)
            w (leads vm.instruction_pointer i e) refl)

  step-Progress :
      (vm : Vm)
      → IsForward p
      → vm.instruction_pointer < p.instruction_count
      → Progress vm.instruction_pointer (step D S p vm)
  unfolding step
  step-Progress vm forward w =
      option_cases (Progress vm.instruction_pointer) p.instructions
        (λ _.
          if_cases (Progress vm.instruction_pointer) (p.instruction_count == 0)
            (λ _. progress (inr refl)) (λ _. progress (inl w)))
        λ code e.
          if_cases (Progress vm.instruction_pointer) (is_stopped vm.status) (λ s. progress (inr s))
            λ _.
              if_cases (Progress vm.instruction_pointer)
                (leb p.instruction_count vm.instruction_pointer) (λ _. progress (inr refl))
                (λ _. step_code-Progress code vm w (forward code e).0 (forward code e).1)

  -- Fuel for the rest of the code, or one unit where the machine has stopped.
  run_loop_terminates :
      (fuel : ℕ) (vm : Vm)
      → IsForward p
      → 0 < fuel
      → (p.instruction_count < fuel + vm.instruction_pointer) ⊎ (is_stopped vm.status ≡ true)
      → (final : Vm) × (run_loop D S p fuel vm ≡ some final)
  unfolding run_loop
  run_loop_terminates zero vm forward h enough = ground arith
  run_loop_terminates (suc fuel) vm forward h enough = elim (Bool-cases (goes_on D S p vm)) [
    | inr stop ↦ (vm, rw stop refl)
    | inl more ↦
        let w : vm.instruction_pointer < p.instruction_count = ground (arith, more) in
        let room : p.instruction_count < suc fuel + vm.instruction_pointer =
          ground (arith, more, enough) in
        let (final, e) =
          elim (step-Progress vm forward w)
            as (λ _. (final : Vm) × (run_loop D S p fuel (step D S p vm) ≡ some final)) [
              | progress (inl later) ↦
                  run_loop_terminates fuel (step D S p vm) forward (omega (arith, w, room))
                    (inl (omega (arith, later, room)))
              | progress (inr stopped) ↦
                  run_loop_terminates fuel (step D S p vm) forward (omega (arith, w, room))
                    (inr stopped)
            ] in
        (final, rw more e)
  ]

  -- A program without calls and returns whose jumps lead forward ends from every state of the
  -- machine within as many steps as it has instructions; the program has as many instructions as
  -- it says.
  pub run_terminates :
      (vm : Vm) → IsForward p → (final : Vm) × (run D S p (suc p.instruction_count) vm ≡ some final)
  unfolding run
  run_terminates vm forward = elim (Bool-cases (p.instruction_count == 0)) [
    | inl e ↦ (record vm { status = Status.halted }, rw e refl)
    | inr e ↦
        let (final, q) =
          run_loop_terminates (suc p.instruction_count) vm forward (omega arith)
            (inl omega arith) in
        (final, rw e q)
  ]
