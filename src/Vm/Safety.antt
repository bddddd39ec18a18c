-- ===== src/Vm/Safety.antt =====
-- The safety invariant of the machine (src/aivm_vm_stack.c, src/aivm_vm.c).
pub mod Limits
pub mod Invariant
pub mod StackOps
pub mod Steps
pub mod Calls
pub mod Run
