-- ===== src/Vm.antt =====
-- crates/vm: the intelligence virtual machine.
pub mod Opcode
pub mod Instruction
pub mod Build
pub mod Register
pub mod Stack
pub mod Syscall
pub mod Program
pub mod Machine
pub mod Executor
pub mod Front
