-- ===== src/Vm.antt =====
-- The virtual machine's core: values, state, stack, frames, locals and the step function.
pub mod Value
pub mod State
pub mod Stack
pub mod Call
pub mod Step
pub mod Safety
pub mod Laws
pub mod Ends
mod Samples
mod Tests
mod EndTests
