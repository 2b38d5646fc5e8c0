-- ===== src/Socgen.antt =====
-- socgen: the RISC-V assembler for the firmware, the memory map and the firmware's programs.
pub mod Asm
pub mod Rv32
pub mod Memmap
pub mod Firmware
pub mod Toolchain
pub mod Registry
pub mod Cli
