-- ===== src/Isa.antt =====
-- The instruction set of docs/cpu8.md, between the assembler (C8asm) and the simulator (Cpu8): an
-- instruction, the word that stands for it in the assembler's formats, and what the simulator's
-- operations make of it.
pub mod Formats
pub mod Execute
pub mod Assembled
use risc_v_so_c.Base.{
  ℕ, ◌+◌, ◌<◌, ◌≤◌, Bool, Option, some, get_elem?, if◌then◌else◌, bit_and, bit_or, bit_xor, low,
}
use risc_v_so_c.Base.Int.{ℤ, pos, negsuc, ◌≤ℤ◌, ◌+ℤ◌, wrap}
use risc_v_so_c.Base.Options.{◌>>=◌}
use risc_v_so_c.Cpu8.Machine.{Sim, reg_read, reg_write, branch_taken}
use risc_v_so_c.Cpu8.Exec.{
  op_add, op_sub, op_and, op_or, op_xor, op_shf, op_cmp, op_ldi, op_ld, op_st, op_br, op_jmp,
  op_call, op_ret, op_hlt, exec_add, exec_sub, exec_cmp, exec_logic, exec_shf, exec_ld, exec_st,
  exec_call, exec_ret, store, straight, advance, halt,
}
use risc_v_so_c.C8asm.Encode.{encode_r, encode_i, encode_j, encode_b, encode_mem}

-- The operations with two source registers and a destination.
pub data Alu : Type 0 where
  add sub and or xor : Alu

pub data Insn : Type 0 where
  nop ret hlt : Insn
  alu : Alu → ℕ → ℕ → ℕ → Insn
  cmp : ℕ → ℕ → Insn
  shf : ℕ → ℕ → ℕ → Insn
  ldi : ℕ → ℕ → Insn
  ld st : ℕ → ℕ → ℤ → Insn
  br : ℕ → ℤ → Insn
  jmp call : ℕ → Insn

abbrev pub alu_op : Alu → ℕ
alu_op add = op_add
alu_op sub = op_sub
alu_op and = op_and
alu_op or = op_or
alu_op xor = op_xor

-- The ranges that the fields of the formats have room for.
abbrev pub Fits : Insn → Type 0
Fits nop = Unit
Fits ret = Unit
Fits hlt = Unit
Fits (alu o rd rs1 rs2) = (rd < 8) × (rs1 < 8) × (rs2 < 8)
Fits (cmp rs1 rs2) = (rs1 < 8) × (rs2 < 8)
Fits (shf rd rs1 fn) = (rd < 8) × (rs1 < 8) × (fn < 3)
Fits (ldi rd imm) = (rd < 8) × (imm < 256)
Fits (ld rd rs1 off) = (rd < 8) × (rs1 < 8) × (negsuc 31 ≤ℤ off) × (off ≤ℤ pos 31)
Fits (st rs2 rs1 off) = (rs2 < 8) × (rs1 < 8) × (negsuc 31 ≤ℤ off) × (off ≤ℤ pos 31)
Fits (br c off) = (c < 8) × (negsuc 255 ≤ℤ off) × (off ≤ℤ pos 255)
Fits (jmp a) = a < 256
Fits (call a) = a < 256

unfoldable pub encode : Insn → ℕ
unfolding encode_r encode_i encode_j encode_b encode_mem
encode nop = 0x0000
encode ret = 0xe000
encode hlt = 0xf000
encode (alu o rd rs1 rs2) = encode_r (alu_op o) rd rs1 rs2 0
encode (cmp rs1 rs2) = encode_r op_cmp 0 rs1 rs2 0
encode (shf rd rs1 fn) = encode_r op_shf rd rs1 0 fn
encode (ldi rd imm) = encode_i op_ldi rd (pos imm)
encode (ld rd rs1 off) = encode_mem op_ld rd rs1 off
encode (st rs2 rs1 off) = encode_mem op_st rs2 rs1 off
encode (br c off) = encode_b op_br c off
encode (jmp a) = encode_j op_jmp (pos a)
encode (call a) = encode_j op_call (pos a)

pub exec_alu : Alu → ℕ → ℕ → ℕ → Sim → Option Sim
exec_alu add rd a b = exec_add rd a b
exec_alu sub rd a b = exec_sub rd a b
exec_alu and rd a b = exec_logic rd (bit_and a b)
exec_alu or rd a b = exec_logic rd (bit_or a b)
exec_alu xor rd a b = exec_logic rd (bit_xor a b)

-- What an instruction does to the machine.
unfoldable pub perform : Insn → Sim → Option (Bool × Sim)
unfolding exec_alu
perform nop s = some (advance (low 8 (s.pc + 1)) s)
perform ret s = exec_ret s >>= λ (t, s'). some (advance t s')
perform hlt s = some (halt s)
perform (alu o rd rs1 rs2) s = do
  a ← reg_read s rs1
  b ← reg_read s rs2
  straight (low 8 (s.pc + 1)) (exec_alu o rd a b s)
perform (cmp rs1 rs2) s = do
  a ← reg_read s rs1
  b ← reg_read s rs2
  some (advance (low 8 (s.pc + 1)) (exec_cmp a b s))
perform (shf rd rs1 fn) s = do a ← reg_read s rs1; straight (low 8 (s.pc + 1)) (exec_shf rd fn a s)
perform (ldi rd imm) s = straight (low 8 (s.pc + 1)) (reg_write rd imm s)
perform (ld rd rs1 off) s = do
  a ← reg_read s rs1
  v ← get_elem? s.dmem (wrap 8 (pos a +ℤ off))
  straight (low 8 (s.pc + 1)) (reg_write rd v s)
perform (st rs2 rs1 off) s = do
  a ← reg_read s rs1
  v ← reg_read s rs2
  straight (low 8 (s.pc + 1)) (store (wrap 8 (pos a +ℤ off)) v s)
perform (br c off) s = do
  taken ← branch_taken s.flags c
  some (advance (if taken then wrap 8 (pos s.pc +ℤ off) else low 8 (s.pc + 1)) s)
perform (jmp a) s = some (advance a s)
perform (call a) s = straight a (exec_call (low 8 (s.pc + 1)) s)
