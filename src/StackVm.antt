-- ===== src/StackVm.antt =====
-- src/stackvm/stackvm.c: a stack machine that runs game scripts.
pub mod Code
pub mod Machine
pub mod Memory
pub mod Floats
pub mod Arith
pub mod Instructions
pub mod Exec
pub mod Slice
pub mod Call
mod Tests
