-- ===== src/Vm/Laws/LocalLaws.antt =====
-- Locals as cells (`aivm_local_set` and `aivm_local_get` of src/aivm_vm_stack.c).
use ai_vm.Common.{
  ℕ, ◌+◌, ◌<◌, ◌≡◌, refl, leb, arith, if◌then◌else◌, none, some, true, write, ◌≢◌, ◌⊎◌, ◌∙◌, sym,
}
use ai_vm.Vm.Value.{Value}
use ai_vm.Vm.State.{
  Vm, locals_capacity, locals_growth_step, validate_call_local_state, top_frame, within_limits,
  frame_fits, locals_start,
}
use ai_vm.Vm.Stack.{
  ensured_limit, ensure_locals_capacity, set_absolute_local, set_checked_local, local_set,
  get_checked_local, local_get,
}
use ai_vm.Vm.Safety.Limits.{ensured_limit_lem}
use ai_vm.Vm.Safety.Invariant.{IsSafe}
use ai_vm.Vm.Laws.FrameLaws.{IsConsistent, validate-IsConsistent}

-- The state behind a successful `aivm_local_set`, at an absolute index.
abbrev stored : Vm → ℕ → Value → Vm
stored vm index v = record vm {
  locals_limit = ensured_limit (index + 1) locals_growth_step locals_capacity vm.locals_limit;
  locals = write vm.locals index v;
  locals_count = if leb vm.locals_count index then index + 1 else vm.locals_count;
}

set_absolute_local_lem :
    {code last : ℕ} (vm : Vm) (index : ℕ) (v : Value)
    → IsSafe code last vm
    → index < locals_capacity
    → set_absolute_local vm index v ≡ (true, stored vm index v)
unfolding set_absolute_local ensure_locals_capacity
set_absolute_local_lem vm index v s h =
    let bound =
      ensured_limit_lem (index + 1) locals_growth_step locals_capacity vm.locals_limit
        s.locals_limit_le (omega arith) (omega arith) in
    ground arith

local_set_lem :
    {code last : ℕ} (vm : Vm) (i : ℕ) (v : Value)
    → IsSafe code last vm
    → IsConsistent vm
    → locals_start vm + i < locals_capacity
    → local_set vm i v ≡ (true, stored vm (locals_start vm + i) v)
unfolding local_set set_checked_local
local_set_lem vm i v s c h =
    let checked = validate-IsConsistent vm c in
    let written = set_absolute_local_lem vm (locals_start vm + i) v s h in ground arith

consistent_parts :
    (vm : Vm)
    → IsConsistent vm
    → (within_limits vm ≡ true)
      × ((vm.call_frame_count ≡ 0) ⊎ (frame_fits vm (top_frame vm) ≡ true))
unfolding validate_call_local_state
consistent_parts vm c = ground arith

local_get_lem :
    (vm : Vm) (i : ℕ)
    → IsConsistent vm
    → locals_start vm + i < locals_capacity
    → local_get vm i ≡ (
        if leb vm.locals_count (locals_start vm + i)
        then none
        else some (vm.locals (locals_start vm + i)))
unfolding local_get get_checked_local
local_get_lem vm i c h = let parts = consistent_parts vm c in ground arith

IsConsistent-of_parts :
    (vm : Vm)
    → within_limits vm ≡ true
    → (vm.call_frame_count ≡ 0) ⊎ (frame_fits vm (top_frame vm) ≡ true)
    → IsConsistent vm
unfolding validate_call_local_state
IsConsistent-of_parts vm h k = ground arith

stored_within :
    {code last : ℕ} (vm : Vm) (index : ℕ) (v : Value)
    → IsSafe code last vm
    → index < locals_capacity
    → within_limits (stored vm index v) ≡ true
stored_within vm index v s h =
    let bound =
      ensured_limit_lem (index + 1) locals_growth_step locals_capacity vm.locals_limit
        s.locals_limit_le (omega arith) (omega arith) in
    ground arith

stored_fits :
    (vm : Vm) (index : ℕ) (v : Value)
    → (vm.call_frame_count ≡ 0) ⊎ (frame_fits vm (top_frame vm) ≡ true)
    → (vm.call_frame_count ≡ 0) ⊎ (frame_fits (stored vm index v) (top_frame vm) ≡ true)
stored_fits vm index v h = ground arith

stored-IsConsistent :
    {code last : ℕ} (vm : Vm) (index : ℕ) (v : Value)
    → IsSafe code last vm
    → IsConsistent vm
    → index < locals_capacity
    → IsConsistent (stored vm index v)
stored-IsConsistent vm index v s c h =
    IsConsistent-of_parts (stored vm index v) (stored_within vm index v s h)
      (stored_fits vm index v (consistent_parts vm c).1)

read_stored :
    (vm : Vm) (index : ℕ) (v : Value)
    → (if leb (stored vm index v).locals_count index
        then none
        else some ((stored vm index v).locals index))
      ≡ some v
read_stored vm index v = ground arith

read_other :
    (vm : Vm) (index other : ℕ) (v : Value)
    → index ≢ other
    → other < vm.locals_count
    → (if leb (stored vm index v).locals_count other
        then none
        else some ((stored vm index v).locals other))
      ≡ (if leb vm.locals_count other then none else some (vm.locals other))
read_other vm index other v ne h = ground arith

-- A local that was set is read back, and every other local in use keeps its value. The state is
-- safe and consistent, and the two locals lie in the storage.
pub local_get-local_set :
    {code last : ℕ} (vm : Vm) (i j : ℕ) (v : Value)
    → IsSafe code last vm
    → IsConsistent vm
    → locals_start vm + i < locals_capacity
    → locals_start vm + j < vm.locals_count
    → let (done, vm') = local_set vm i v in
      (done ≡ true) × (local_get vm' i ≡ some v) × (i ≢ j → local_get vm' j ≡ local_get vm j)
unfolding locals_start
local_get-local_set vm i j v s c hi hj =
    let vm' = stored vm (locals_start vm + i) v in
    let c' = stored-IsConsistent vm (locals_start vm + i) v s c hi in
    rw (local_set_lem vm i v s c hi) (
      refl,
      local_get_lem vm' i c' hi ∙ read_stored vm (locals_start vm + i) v,
      λ ne.
          local_get_lem vm' j c' (omega arith)
          ∙ read_other vm (locals_start vm + i) (locals_start vm + j) v (λ e. ne (omega arith)) hj
          ∙ sym (local_get_lem vm j c (omega arith)),
    )
