-- ===== src/Vm/Laws.antt =====
-- What the operations of src/aivm_vm_stack.c do: the operand stack as a bounded list, frames as a
-- last-in first-out record, locals as cells.
pub mod StackLaws
pub mod FrameLaws
pub mod LocalLaws
