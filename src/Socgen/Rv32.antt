-- ===== src/Socgen/Rv32.antt =====
-- RV32I as its manual numbers the bits of a word: the fields of an instruction, its immediates, and
-- LUI and ADDI on the integer registers.
pub mod Formats
pub mod Li
pub mod Loads
pub mod Branches
pub mod Hart
use risc_v_so_c.Base.{
  ℕ, ◌+◌, ◌-◌, ◌*◌, ◌/◌, ◌%◌, ◌^◌, ltb, ◌==◌, if◌then◌else◌, Option, none, some, List, [], ◌∷◌,
}
use risc_v_so_c.Base.Int.{ℤ, pos, ◌+ℤ◌, ◌-ℤ◌, wrap}

-- A field of `k` bits as a signed number.
abbrev pub signed : ℕ → ℕ → ℤ
signed k x = if ltb x (2 ^ (k - 1)) then pos x else pos x -ℤ pos (2 ^ k)

abbrev pub opcode : ℕ → ℕ
opcode w = w % 2 ^ 7

abbrev pub rd_field : ℕ → ℕ
rd_field w = w / 2 ^ 7 % 2 ^ 5

abbrev pub funct3 : ℕ → ℕ
funct3 w = w / 2 ^ 12 % 2 ^ 3

abbrev pub rs1_field : ℕ → ℕ
rs1_field w = w / 2 ^ 15 % 2 ^ 5

abbrev pub rs2_field : ℕ → ℕ
rs2_field w = w / 2 ^ 20 % 2 ^ 5

-- Bits 31 to 20.
abbrev pub i_field : ℕ → ℕ
i_field w = w / 2 ^ 20

-- Bits 31 to 25 above bits 11 to 7.
abbrev pub s_field : ℕ → ℕ
s_field w = w / 2 ^ 25 * 2 ^ 5 + rd_field w

-- Bit 31, bit 7, bits 30 to 25 and bits 11 to 8, above a zero.
abbrev pub b_field : ℕ → ℕ
b_field w =
    w / 2 ^ 31 * 2 ^ 12
    + w / 2 ^ 7 % 2 * 2 ^ 11
    + w / 2 ^ 25 % 2 ^ 6 * 2 ^ 5
    + w / 2 ^ 8 % 2 ^ 4 * 2

abbrev pub Registers : Type 0
Registers = ℕ → ℕ

-- Register 0 reads as zero.
abbrev pub read : Registers → ℕ → ℕ
read r i = if i == 0 then 0 else r i

abbrev pub update : Registers → ℕ → ℕ → Registers
update r d v i = if i == d then v else r i

-- LUI and ADDI; no other instruction.
unfoldable pub run_word : ℕ → Registers → Option Registers
run_word w r =
    if opcode w == 0x37
    then some (update r (rd_field w) (w / 2 ^ 12 * 2 ^ 12))
    else if opcode w == 0x13
    then if funct3 w == 0
      then some
          (update r (rd_field w) (wrap 32 (pos (read r (rs1_field w)) +ℤ signed 12 (i_field w))))
      else none
    else none

unfoldable pub run_words : List ℕ → Registers → Option Registers
unfolding run_word
run_words [] r = some r
run_words (w ∷ ws) r = elim (run_word w r) [ none ↦ none | some r' ↦ run_words ws r' ]
