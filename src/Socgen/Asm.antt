-- ===== src/Socgen/Asm.antt =====
-- socgen/asm.py: the state of `Assembler`, the formats and the instructions. These methods raise before
-- they change the object, so that a result is the new object or the exception. For `assemble` the object
-- that it leaves is a function of its own, `after_assemble` of Socgen.Asm.Output.
mod Operands
pub mod Output
pub mod Left
pub mod Placed
pub mod Calls
use risc_v_so_c.Base.{
  ℕ, ◌+◌, ◌-◌, ◌*◌, ◌==◌, Bool, true, false, not, ◌||◌, if◌then◌else◌, List, [], ◌∷◌, ◌++◌, length,
  low, bit, bit_or, bit_and, ◌<<<◌, ◌>>>◌,
}
use risc_v_so_c.Base.Int.{ℤ, pos, pos_part, ◌-ℤ◌, ltb_ℤ, eqb_ℤ, wrap}
use risc_v_so_c.Base.Text.{Text, codes}
use risc_v_so_c.Base.Dict.{Dict, get, put, contains, text_key}
use risc_v_so_c.Base.Results.{Result, ok, err, ◌>>=◌, ◌>>◌, raise_if, or_raise}
unfoldable pub use Operands.*

pub data Kind : Type 0 where
  on_equal on_different : Kind

-- A word, or a branch to resolve: its kind, `rs1`, `rs2`, its target and its own address.
pub data Entry : Type 0 where
  word : ℕ → Entry
  branch : Kind → Register → Register → Text → ℕ → Entry

pub record Assembler : Type 0 where
  pub words : List Entry
  pub labels : Dict Text ℕ

abbrev pub assembler : Assembler
assembler = record { words = []; labels = [] }

abbrev pub pc : Assembler → ℕ
pc a = length a.words * 4

unfoldable pub label : Text → Assembler → Result AsmError Assembler
unfolding contains put
label name a =
    if contains a.labels name
    then err (label_twice name)
    else ok (record a { labels = put a.labels name (pc a) })

abbrev pub append : Entry → Assembler → Assembler
append entry a = record a { words = a.words ++ entry ∷ [] }

unfoldable pub emit : ℕ → Assembler → Assembler
emit w a = append (word (low 32 w)) a

unfoldable pub r_type :
    ℕ → Register → Register → ℕ → Register → ℕ → Assembler → Result AsmError Assembler
unfolding emit
r_type funct7 rs2 rs1 funct3 rd opcode a = do
  s2 ← reg rs2
  s1 ← reg rs1
  d ← reg rd
  ok (
      emit
        (bit_or
          (bit_or (bit_or (bit_or (bit_or (funct7 <<< 25) (s2 <<< 20)) (s1 <<< 15)) (funct3 <<< 12))
            (d <<< 7))
          opcode)
        a)

-- The word of `_i`, `lui` and `_system` with all fields but the upper ones.
unfoldable pub i_word : ℕ → ℕ → ℕ → ℕ → ℕ → ℕ
i_word top s1 funct3 d opcode =
    bit_or (bit_or (bit_or (bit_or (top <<< 20) (s1 <<< 15)) (funct3 <<< 12)) (d <<< 7)) opcode

unfoldable pub i_type : ℤ → Register → ℕ → Register → ℕ → Assembler → Result AsmError Assembler
unfolding i_word emit
i_type imm rs1 funct3 rd opcode a = do
  value ← check_imm imm 12 true
  s1 ← reg rs1
  d ← reg rd
  ok (emit (i_word value s1 funct3 d opcode) a)

unfoldable pub s_word : ℕ → ℕ → ℕ → ℕ → ℕ → ℕ
s_word value s2 s1 funct3 opcode =
    bit_or
      (bit_or
        (bit_or (bit_or (bit_or ((value >>> 5) <<< 25) (s2 <<< 20)) (s1 <<< 15)) (funct3 <<< 12))
        (low 5 value <<< 7))
      opcode

unfoldable pub s_type : ℤ → Register → Register → ℕ → ℕ → Assembler → Result AsmError Assembler
unfolding s_word emit
s_type imm rs2 rs1 funct3 opcode a = do
  value ← check_imm imm 12 true
  s2 ← reg rs2
  s1 ← reg rs1
  ok (emit (s_word value s2 s1 funct3 opcode) a)

unfoldable pub b_word : ℕ → ℕ → ℕ → ℕ → ℕ
b_word value s2 s1 funct3 =
    bit_or
      (bit_or
        (bit_or
          (bit_or
            (bit_or (bit_or (bit_or (bit 12 value <<< 31) (low 6 (value >>> 5) <<< 25)) (s2 <<< 20))
              (s1 <<< 15))
            (funct3 <<< 12))
          (low 4 (value >>> 1) <<< 8))
        (bit 11 value <<< 7))
      0x63

unfoldable pub b_type : ℤ → Register → Register → ℕ → Assembler → Result AsmError Assembler
unfolding b_word emit
b_type offset rs2 rs1 funct3 a = do
  value ← check_imm offset 13 true
  s2 ← reg rs2
  s1 ← reg rs1
  ok (emit (b_word value s2 s1 funct3) a)

unfoldable pub lui : Register → ℤ → Assembler → Result AsmError Assembler
unfolding emit
lui rd imm20 a = do d ← reg rd; ok (emit (bit_or (bit_or (wrap 20 imm20 <<< 12) (d <<< 7)) 0x37) a)

unfoldable pub addi : Register → Register → ℤ → Assembler → Result AsmError Assembler
addi rd rs1 imm a = i_type imm rs1 0 rd 0x13 a

unfoldable pub add : Register → Register → Register → Assembler → Result AsmError Assembler
add rd rs1 rs2 a = r_type 0 rs2 rs1 0 rd 0x33 a

unfoldable pub andi : Register → Register → ℤ → Assembler → Result AsmError Assembler
andi rd rs1 imm a = i_type imm rs1 7 rd 0x13 a

unfoldable pub sw : Register → Register → ℤ → Assembler → Result AsmError Assembler
sw rs2 rs1 offset a = s_type offset rs2 rs1 2 0x23 a

unfoldable pub lw : Register → Register → ℤ → Assembler → Result AsmError Assembler
lw rd rs1 offset a = i_type offset rs1 2 rd 0x03 a

unfoldable pub beq : Register → Register → Text → Assembler → Assembler
beq rs1 rs2 target a = append (branch on_equal rs1 rs2 target (pc a)) a

unfoldable pub bne : Register → Register → Text → Assembler → Assembler
bne rs1 rs2 target a = append (branch on_different rs1 rs2 target (pc a)) a

abbrev pub x0 : Register
x0 = named (codes "x0")

unfoldable pub nop : Assembler → Result AsmError Assembler
nop a = addi x0 x0 (pos 0) a

-- The source field: an immediate where bit 2 of `funct3` says so.
unfoldable pub csr_source : Register → ℕ → Result AsmError ℤ
csr_source (numbered n) funct3 =
    if bit_and funct3 4 == 0 then (reg (numbered n) >>= λ r. ok (pos r)) else ok n
csr_source (named name) funct3 = reg (named name) >>= λ r. ok (pos r)

unfoldable pub system : ℤ → Register → ℕ → Register → Assembler → Result AsmError Assembler
unfolding csr_source i_word emit
system csr rs1_or_uimm funct3 rd a = do
  raise_if (outside (pos 0) (pos 0xfff) csr) (csr_fit csr)
  src ← csr_source rs1_or_uimm funct3
  raise_if (if bit_and funct3 4 == 0 then false else outside (pos 0) (pos 31) src)
      (csr_immediate_fit src)
  d ← reg rd
  ok (emit (i_word (pos_part csr) (pos_part src) funct3 d 0x73) a)

unfoldable pub csrrw : Register → ℤ → Register → Assembler → Result AsmError Assembler
csrrw rd csr rs1 a = system csr rs1 1 rd a

unfoldable pub csrrs : Register → ℤ → Register → Assembler → Result AsmError Assembler
csrrs rd csr rs1 a = system csr rs1 2 rd a

unfoldable pub csrrc : Register → ℤ → Register → Assembler → Result AsmError Assembler
csrrc rd csr rs1 a = system csr rs1 3 rd a

unfoldable pub csrrwi : Register → ℤ → ℤ → Assembler → Result AsmError Assembler
csrrwi rd csr uimm a = system csr (numbered uimm) 5 rd a

unfoldable pub csrrsi : Register → ℤ → ℤ → Assembler → Result AsmError Assembler
csrrsi rd csr uimm a = system csr (numbered uimm) 6 rd a

unfoldable pub csrrci : Register → ℤ → ℤ → Assembler → Result AsmError Assembler
csrrci rd csr uimm a = system csr (numbered uimm) 7 rd a

unfoldable pub ecall : Assembler → Assembler
ecall a = emit 0x00000073 a

unfoldable pub ebreak : Assembler → Assembler
ebreak a = emit 0x00100073 a

unfoldable pub mret : Assembler → Assembler
mret a = emit 0x30200073 a

unfoldable pub csrw : ℤ → Register → Assembler → Result AsmError Assembler
csrw csr rs1 a = csrrw x0 csr rs1 a

unfoldable pub csrr : Register → ℤ → Assembler → Result AsmError Assembler
csrr rd csr a = csrrs rd csr x0 a

unfoldable pub csrs : ℤ → Register → Assembler → Result AsmError Assembler
csrs csr rs1 a = csrrs x0 csr rs1 a

unfoldable pub csrc : ℤ → Register → Assembler → Result AsmError Assembler
csrc csr rs1 a = csrrc x0 csr rs1 a

-- The upper and the lower part that `li` loads: a lower part with bit 11 set is taken as negative,
-- and the upper part makes up for it.
unfoldable pub li_parts : ℤ → ℕ × ℤ
li_parts value =
    let value' = wrap 32 value in
    let low' = low 12 value' in
    let high = low 20 (value' >>> 12) in
    if bit_and low' 0x800 == 0
    then (high, pos low')
    else (low 20 (high + 1), pos low' -ℤ pos 0x1000)

unfoldable pub li : Register → ℤ → Assembler → Result AsmError Assembler
unfolding li_parts
li rd value a =
    let (high, low') = li_parts value in
    if not (high == 0)
    then (do
      a' ← lui rd (pos high) a
      if not (eqb_ℤ low' (pos 0)) then addi rd rd low' a' else ok a')
    else addi rd x0 low' a
