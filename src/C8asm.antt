-- ===== src/C8asm.antt =====
-- modules/cpu8/asm/c8asm.py: the assembler.
pub mod Syntax
pub mod Lexer
pub mod Operand
pub mod Encode
pub mod Passes
pub mod Hex
pub mod Listing
pub mod Main
pub mod Fresh
pub mod Places
