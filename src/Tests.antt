-- ===== src/Tests.antt =====
-- Runs of the models at concrete inputs, and the theorems at inputs that meet their hypotheses.
pub mod Cpu8
pub mod Isa
pub mod Socgen
pub mod Firmware
pub mod Runs
pub mod Mandelbrot
pub mod Toolchain
pub mod Aes
pub mod Cli
pub mod Nist
pub mod Audio
pub mod Collect
pub mod Synth
pub mod Programs
