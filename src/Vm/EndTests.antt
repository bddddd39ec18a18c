-- ===== src/Vm/EndTests.antt =====
-- The run of a concrete program whose jumps lead forward (src/aivm_vm.c).
use ai_vm.Common.{ℕ, zero, suc, ◌+◌, ◌≡◌, refl, Bool, true, none, some, List, [], ◌∷◌, arith}
use ai_vm.Vm.State.{Vm, Program, Instruction, Opcode}
use ai_vm.Vm.Step.{run}
use ai_vm.Common.{◌⊎◌}
use ai_vm.Vm.Ends.Runs.{IsFirstEnd, run_ends_safely}
use ai_vm.Vm.Safety.Invariant.{IsSafe}
use ai_vm.Vm.Step.{is_stopped}
use ai_vm.Vm.Samples.{fresh-IsSafe, quiet_keeps}
use mathlib.Core.Option.{some-injective}
use ai_vm.Common.{suc, ◌&&◌, get_elem?, length, subst, ◌≤◌}
use ai_vm.Vm.Ends.Forward.{leads_on, IsForward, run_terminates}
use ai_vm.Vm.Step.{run}
use ai_vm.Vm.Samples.{whole, quiet, fresh, op}

-- Every instruction of a list leads on, the first of which stands at `start`.
abbrev forward_from : ℕ → List Instruction → Bool
forward_from start [] = true
forward_from start (x ∷ code) = leads_on start x && forward_from (suc start) code

leads_on_at :
    (start : ℕ) (code : List Instruction) (i : ℕ) (x : Instruction)
    → forward_from start code ≡ true
    → get_elem? code i ≡ some x
    → leads_on (start + i) x ≡ true
leads_on_at start [] i x h e = ground arith
leads_on_at start (y ∷ code) zero x h e =
    let same : y ≡ x = some-injective y x e in
    let at : start ≡ start + 0 = omega arith in
    subst (λ z. leads_on (start + 0) z ≡ true) same
      (subst (λ k. leads_on k y ≡ true) at (ground (arith, h)))
leads_on_at start (y ∷ code) (suc i) x h e =
    let at : suc start + i ≡ start + suc i = omega arith in
    subst (λ k. leads_on k x ≡ true) at (leads_on_at (suc start) code i x (ground (arith, h)) e)

-- A jump over an instruction.
abbrev skip_code : List Instruction
skip_code =
    op Opcode.push_bool 0 ∷ op Opcode.jump_if_false 3 ∷ op Opcode.stub 0 ∷ op Opcode.push_int 5 ∷ []

abbrev skip : Program
skip = record {
  instructions = some skip_code;
  instruction_count = 4;
  constants = none;
  constant_count = 0;
}

skip-IsForward : IsForward skip
skip-IsForward code e =
    let same : skip_code ≡ code = some-injective skip_code code e in
    subst
      (λ c.
        (4 ≤ length c) × ((i : ℕ) (x : Instruction) → get_elem? c i ≡ some x → leads_on i x ≡ true))
      same
      (
        omega arith,
        λ i x h.
            let at : 0 + i ≡ i = omega arith in
            subst (λ k. leads_on k x ≡ true) at (leads_on_at 0 skip_code i x refl h),
      )

run_terminates_example : (final : Vm) × (run whole quiet skip 5 fresh ≡ some final)
run_terminates_example = run_terminates whole quiet skip fresh skip-IsForward

run_ends_safely_example :
    (final : Vm) × (count : ℕ) × (run whole quiet skip 5 fresh ≡ some final)
    × (count ≤ 4)
    × IsFirstEnd whole quiet skip fresh final count
    × IsSafe 4 4 final
    × ((final.instruction_pointer ≡ 4) ⊎ (is_stopped final.status ≡ true))
run_ends_safely_example =
    run_ends_safely whole quiet skip fresh quiet_keeps skip-IsForward (omega arith) (fresh-IsSafe 4)
