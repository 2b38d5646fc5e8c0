-- ===== src/C8asm/Syntax.antt =====
-- modules/cpu8/asm/c8asm.py: `Line`, and the exceptions of the assembler, one constructor for each
-- `raise`, with the line number. `value_error` and `index_error` are Python's own, which the
-- assembler does not catch.
use risc_v_so_c.Base.{ℕ, Option, List}
use risc_v_so_c.Base.Int.{ℤ}
use risc_v_so_c.Base.Text.{Text}

pub data AsmError : Type 0 where
  invalid_integer : Text → ℕ → AsmError
  expected_register : Text → ℕ → AsmError
  duplicate_label : Text → ℕ → AsmError
  invalid_memory : Text → ℕ → AsmError
  offset_range : ℤ → ℕ → AsmError
  unknown_mnemonic : Text → ℕ → AsmError
  operand_count : Text → ℕ → AsmError
  unknown_shift : Text → ℕ → AsmError
  immediate_range : ℤ → ℕ → AsmError
  unknown_condition : Text → ℕ → AsmError
  branch_range : ℤ → ℕ → AsmError
  address_range : ℤ → ℕ → AsmError
  unhandled_mnemonic : Text → ℕ → AsmError
  rom_size : ℤ → ℕ → AsmError
  value_error : AsmError
  index_error : AsmError

pub record Line : Type 0 where
  pub line_no : ℕ
  pub raw : Text
  pub label : Option Text
  pub mnem : Option Text
  pub args : List Text
  pub addr : ℤ
  pub word : Option ℕ
