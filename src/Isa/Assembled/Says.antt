-- ===== src/Isa/Assembled/Says.antt =====
-- When a line of assembly says an instruction: its mnemonic and operands are the instruction's.
use risc_v_so_c.Base.{ℕ, ◌≡◌, some, List, [], ◌∷◌}
use risc_v_so_c.Base.Int.{ℤ, pos, ◌-ℤ◌}
use risc_v_so_c.Base.Text.{Text, codes, upper}
use risc_v_so_c.Base.Dict.{get, text_key}
use risc_v_so_c.Base.Results.{ok}
use risc_v_so_c.C8asm.Encode.{shf_fn, cc_codes}
use risc_v_so_c.C8asm.Operand.{parse_reg, parse_mem, resolve}
use risc_v_so_c.C8asm.Passes.{Labels}
use risc_v_so_c.Isa.{
  Insn, Alu, Fits, encode, add, sub, and, or, xor, nop, ret, hlt, alu, cmp, shf, ldi, ld, st, br,
  jmp, call,
}

abbrev pub alu_name : Alu → Text
alu_name add = codes "ADD"
alu_name sub = codes "SUB"
alu_name and = codes "AND"
alu_name or = codes "OR"
alu_name xor = codes "XOR"

-- The operands of a line at `addr`, number `n`, are those of the instruction.
abbrev pub Operands : Insn → List Text → Labels → ℤ → ℕ → Type 0
Operands nop a labels addr n = Unit
Operands ret a labels addr n = Unit
Operands hlt a labels addr n = Unit
Operands (alu o rd rs1 rs2) a labels addr n =
    (x : Text) × (y : Text) × (z : Text) × (a ≡ x ∷ y ∷ z ∷ [])
    × (parse_reg x n ≡ ok rd)
    × (parse_reg y n ≡ ok rs1)
    × (parse_reg z n ≡ ok rs2)
Operands (cmp rs1 rs2) a labels addr n =
    (x : Text) × (y : Text) × (a ≡ x ∷ y ∷ []) × (parse_reg x n ≡ ok rs1) × (parse_reg y n ≡ ok rs2)
Operands (shf rd rs1 fn) a labels addr n =
    (x : Text) × (y : Text) × (z : Text) × (a ≡ x ∷ y ∷ z ∷ [])
    × (parse_reg x n ≡ ok rd)
    × (parse_reg y n ≡ ok rs1)
    × (get shf_fn (upper z) ≡ some fn)
Operands (ldi rd imm) a labels addr n =
    (x : Text) × (y : Text) × (a ≡ x ∷ y ∷ [])
    × (parse_reg x n ≡ ok rd)
    × (resolve y labels n ≡ ok (pos imm))
Operands (ld rd rs1 off) a labels addr n =
    (x : Text) × (y : Text) × (a ≡ x ∷ y ∷ [])
    × (parse_reg x n ≡ ok rd)
    × (parse_mem y n ≡ ok (rs1, off))
Operands (st rs2 rs1 off) a labels addr n =
    (x : Text) × (y : Text) × (a ≡ x ∷ y ∷ [])
    × (parse_mem x n ≡ ok (rs1, off))
    × (parse_reg y n ≡ ok rs2)
Operands (br c off) a labels addr n =
    (x : Text) × (y : Text) × (target : ℤ) × (a ≡ x ∷ y ∷ [])
    × (get cc_codes (upper x) ≡ some c)
    × (resolve y labels n ≡ ok target)
    × (off ≡ target -ℤ addr)
Operands (jmp t) a labels addr n = (x : Text) × (a ≡ x ∷ []) × (resolve x labels n ≡ ok (pos t))
Operands (call t) a labels addr n = (x : Text) × (a ≡ x ∷ []) × (resolve x labels n ≡ ok (pos t))

abbrev pub mnemonic : Insn → Text
mnemonic nop = codes "NOP"
mnemonic ret = codes "RET"
mnemonic hlt = codes "HLT"
mnemonic (alu o rd rs1 rs2) = alu_name o
mnemonic (cmp rs1 rs2) = codes "CMP"
mnemonic (shf rd rs1 fn) = codes "SHF"
mnemonic (ldi rd imm) = codes "LDI"
mnemonic (ld rd rs1 off) = codes "LD"
mnemonic (st rs2 rs1 off) = codes "ST"
mnemonic (br c off) = codes "BR"
mnemonic (jmp t) = codes "JMP"
mnemonic (call t) = codes "CALL"

-- The line is an instruction that the formats have room for, and `w` is its word.
pub record Encodes (m : Text) (a : List Text) (labels : Labels) (addr : ℤ) (n w : ℕ) : Type 0 where
  pub insn : Insn
  pub fits : Fits insn
  pub same_mnemonic : m ≡ mnemonic insn
  pub operands : Operands insn a labels addr n
  pub same_word : w ≡ encode insn
