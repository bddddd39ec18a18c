-- ===== src/Vm/Laws/StackLaws.antt =====
-- The operand stack (src/aivm_vm_stack.c) against a list of at most `stack_capacity` values, the
-- topmost last.
use ai_vm.Common.{
  ℕ, ◌+◌, ◌-◌, ◌≡◌, refl, ltb, arith, if◌then◌else◌, Option, none, some, Bool, true, false, List,
  [], ◌∷◌, ◌++◌, length, cells, length-cells, cells-push, cells-pop, cells-zero,
}
use ai_vm.Vm.Value.{Value}
use ai_vm.Vm.State.{Vm, set_vm_error, stack_capacity, stack_growth_step}
use ai_vm.Vm.Stack.{stack_push, stack_pop, ensure_stack_capacity}
use ai_vm.Vm.Safety.Limits.{ensured_limit_lem}
use ai_vm.Vm.Safety.Invariant.{IsSafe}

-- The values on the stack, from the bottom up.
abbrev pub contents : Vm → List Value
contents vm = cells vm.stack vm.stack_count

pub length-contents : (vm : Vm) → length (contents vm) ≡ vm.stack_count
length-contents vm = length-cells vm.stack vm.stack_count

-- The specification: a list that holds at most `stack_capacity` values.
unfoldable pub bounded_push : List Value → Value → Bool × List Value
bounded_push xs v = if ltb (length xs) stack_capacity then (true, xs ++ (v ∷ [])) else (false, xs)

unfoldable pub bounded_pop : List Value → Option Value × List Value
bounded_pop [] = (none, [])
bounded_pop (x ∷ []) = (some x, [])
bounded_pop (x ∷ y ∷ xs) = let (v, rest) = bounded_pop (y ∷ xs) in (v, x ∷ rest)

-- `aivm_stack_push` reports success and leaves on the stack what pushing on the bounded list of
-- the stack's contents gives, so it fails only at the full capacity, whatever the limit was.
pub push_refines :
    {code last : ℕ} (vm : Vm) (v : Value)
    → IsSafe code last vm
    → let (done, vm') = stack_push vm v in (done, contents vm') ≡ bounded_push (contents vm) v
unfolding stack_push bounded_push ensure_stack_capacity set_vm_error
push_refines vm v s = ground (
  arith,
  length-contents vm,
  cells-push vm.stack vm.stack_count v,
  ensured_limit_lem (vm.stack_count + 1) stack_growth_step stack_capacity vm.stack_limit,
)

bounded_pop-nil : bounded_pop [] ≡ (none, [])
unfolding bounded_pop
bounded_pop-nil = refl

bounded_pop-append : (xs : List Value) (v : Value) → bounded_pop (xs ++ (v ∷ [])) ≡ (some v, xs)
unfolding bounded_pop
bounded_pop-append [] v = refl
bounded_pop-append (x ∷ []) v = refl
bounded_pop-append (x ∷ y ∷ xs) v = rw (bounded_pop-append (y ∷ xs) v)

-- `aivm_stack_pop` gives the value, or the failure, and leaves the stack that popping the list of
-- the stack's contents gives.
pub pop_refines :
    (vm : Vm) → let (value, vm') = stack_pop vm in (value, contents vm') ≡ bounded_pop (contents vm)
unfolding stack_pop set_vm_error
pop_refines vm = ground (
  arith,
  bounded_pop-nil,
  cells-zero vm.stack vm.stack_count,
  cells-pop vm.stack vm.stack_count,
  bounded_pop-append (cells vm.stack (vm.stack_count - 1)) (vm.stack (vm.stack_count - 1)),
)
