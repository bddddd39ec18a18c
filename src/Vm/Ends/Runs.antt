-- ===== src/Vm/Ends/Runs.antt =====
-- Which state `aivm_run` (src/aivm_vm.c) leaves, as one of the states that `aivm_step` runs through.
use ai_vm.Common.{
  ℕ, zero, suc, ◌≤◌, ◌<◌, ◌≡◌, ◌⊎◌, inl, inr, true, false, none, some, ◌==◌, arith, Bool-cases,
}
use mathlib.Core.Option.{some-injective}
use ai_vm.Vm.Value.{Doubles}
use ai_vm.Vm.State.{Vm, Program}
use ai_vm.Vm.Call.{SafePoint}
use ai_vm.Vm.Step.{is_stopped, step, goes_on, run_loop, run}
use ai_vm.Vm.Safety.Invariant.{IsSafe}
use ai_vm.Vm.Safety.Steps.{KeepsShape}
use ai_vm.Vm.Safety.Run.{run-Ends}
use ai_vm.Vm.Ends.Forward.{IsForward, run_terminates}

module _ (D : Doubles) (S : SafePoint) (p : Program) where
  -- The machine after a number of steps.
  unfoldable pub steps : ℕ → Vm → Vm
  steps zero vm = vm
  steps (suc n) vm = steps n (step D S p vm)

  -- The first state at which the machine is stopped or at the end of the code, after `count` steps.
  pub record IsFirstEnd (vm final : Vm) (count : ℕ) : Type 0 where
    pub reached : steps count vm ≡ final
    pub going : (k : ℕ) → k < count → goes_on D S p (steps k vm) ≡ true
    pub ended : goes_on D S p final ≡ false

  after_step :
      (vm final : Vm) (count : ℕ)
      → goes_on D S p vm ≡ true
      → IsFirstEnd (step D S p vm) final count
      → IsFirstEnd vm final (suc count)
  unfolding steps
  after_step vm final count more w = record { reached = w.reached; going = before; ended = w.ended }
    where
      before : (k : ℕ) → k < suc count → goes_on D S p (steps k vm) ≡ true
      before zero l = more
      before (suc k) l = w.going k (omega (arith, l))

  run_loop-IsFirstEnd :
      (fuel : ℕ) (vm final : Vm)
      → run_loop D S p fuel vm ≡ some final
      → (count : ℕ) × (count < fuel) × IsFirstEnd vm final count
  unfolding run_loop steps
  run_loop-IsFirstEnd zero vm final e = absurd (none_is_some e)
    where
      none_is_some : none ≡ some final → ⊥
      none_is_some q = cc
  run_loop-IsFirstEnd (suc fuel) vm final e = elim (Bool-cases (goes_on D S p vm)) [
    | inl more ↦
        let (count, l, w) = run_loop-IsFirstEnd fuel (step D S p vm) final (rw more at e) in
        (suc count, omega (arith, l), after_step vm final count more w)
    | inr stop ↦
        let same : vm ≡ final = some-injective vm final (rw stop at e) in
        (
          0,
          omega arith,
          record {
            reached = same;
            going = λ k l. absurd (omega (arith, l));
            ended = rw (← same) stop;
          },
        )
  ]

  -- A program with instructions, without calls and returns, whose jumps lead forward, runs to its
  -- end from every safe state: `aivm_run` returns after at most as many steps as there are
  -- instructions, with the first state at which the machine is stopped or its instruction pointer
  -- at the end of the code, and this state is safe. The program has as many instructions as it
  -- says; of the safe point it is assumed that it changes no count, limit or frame.
  pub run_ends_safely :
      (vm : Vm)
      → KeepsShape S
      → IsForward p
      → 0 < p.instruction_count
      → IsSafe p.instruction_count p.instruction_count vm
      → (final : Vm) × (count : ℕ) × (run D S p (suc p.instruction_count) vm ≡ some final)
        × (count ≤ p.instruction_count)
        × IsFirstEnd vm final count
        × IsSafe p.instruction_count p.instruction_count final
        × ((final.instruction_pointer ≡ p.instruction_count) ⊎ (is_stopped final.status ≡ true))
  unfolding run
  run_ends_safely vm keeps forward h s =
      let fuel = suc p.instruction_count in
      let (final, e) = run_terminates D S p vm forward in
      let (t, u) = run-Ends D S keeps p fuel vm final h s e in
      let nonzero : (p.instruction_count == 0) ≡ false = ground (arith, h) in
      let (count, l, w) = run_loop-IsFirstEnd fuel vm final (rw nonzero at e) in
      (final, count, e, omega (arith, l), w, t, ground (arith, t, u))
