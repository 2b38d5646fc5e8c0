-- ===== src/Cpu8.antt =====
-- modules/cpu8: the simulator.
pub mod Machine
pub mod Exec
pub mod Valid
pub mod Run
pub mod Trace
pub mod Main
pub mod Alu
pub mod Control
