-- ===== src/Cpu8/Exec/Decode.antt =====
-- modules/cpu8/sim/sim.py: the opcodes, and the fields that `Sim.step` cuts out of a word.
use risc_v_so_c.Base.{ℕ, low, ◌>>>◌}

abbrev pub op_nop : ℕ
op_nop = 0x0

abbrev pub op_add : ℕ
op_add = 0x1

abbrev pub op_sub : ℕ
op_sub = 0x2

abbrev pub op_and : ℕ
op_and = 0x3

abbrev pub op_or : ℕ
op_or = 0x4

abbrev pub op_xor : ℕ
op_xor = 0x5

abbrev pub op_shf : ℕ
op_shf = 0x6

abbrev pub op_cmp : ℕ
op_cmp = 0x7

abbrev pub op_ldi : ℕ
op_ldi = 0x8

abbrev pub op_ld : ℕ
op_ld = 0x9

abbrev pub op_st : ℕ
op_st = 0xa

abbrev pub op_br : ℕ
op_br = 0xb

abbrev pub op_jmp : ℕ
op_jmp = 0xc

abbrev pub op_call : ℕ
op_call = 0xd

abbrev pub op_ret : ℕ
op_ret = 0xe

abbrev pub op_hlt : ℕ
op_hlt = 0xf

-- The fields that `step` cuts out of `self.imem[self.pc] & 0xFFFF`.
pub record Fields : Type 0 where
  pub op : ℕ
  pub rd : ℕ
  pub rs1 : ℕ
  pub rs2 : ℕ
  pub fn : ℕ
  pub imm9 : ℕ
  pub imm8 : ℕ
  pub addr8 : ℕ
  pub imm6 : ℕ
  pub cc_code : ℕ

unfoldable pub fields : ℕ → Fields
fields word =
    let insn = low 16 word in
    record {
      op = low 4 (insn >>> 12);
      rd = low 3 (insn >>> 9);
      rs1 = low 3 (insn >>> 6);
      rs2 = low 3 (insn >>> 3);
      fn = low 3 insn;
      imm9 = low 9 insn;
      imm8 = low 8 insn;
      addr8 = low 8 insn;
      imm6 = low 6 insn;
      cc_code = low 3 (insn >>> 9);
    }
