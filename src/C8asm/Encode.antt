-- ===== src/C8asm/Encode.antt =====
-- modules/cpu8/asm/c8asm.py: the tables of the instruction set and the instruction formats.
use risc_v_so_c.Base.{ℕ, [], ◌∷◌, bit_or, ◌<<<◌}
use risc_v_so_c.Base.Int.{ℤ, wrap}
use risc_v_so_c.Base.Text.{Text, codes}
use risc_v_so_c.Base.Dict.{Dict}

abbrev pub opcodes : Dict Text ℕ
opcodes =
    (codes "NOP", 0x0)
    ∷ (codes "ADD", 0x1)
    ∷ (codes "SUB", 0x2)
    ∷ (codes "AND", 0x3)
    ∷ (codes "OR", 0x4)
    ∷ (codes "XOR", 0x5)
    ∷ (codes "SHF", 0x6)
    ∷ (codes "CMP", 0x7)
    ∷ (codes "LDI", 0x8)
    ∷ (codes "LD", 0x9)
    ∷ (codes "ST", 0xa)
    ∷ (codes "BR", 0xb)
    ∷ (codes "JMP", 0xc)
    ∷ (codes "CALL", 0xd)
    ∷ (codes "RET", 0xe)
    ∷ (codes "HLT", 0xf)
    ∷ []

abbrev pub shf_fn : Dict Text ℕ
shf_fn = (codes "SHL", 0) ∷ (codes "SHR", 1) ∷ (codes "ROR", 2) ∷ []

abbrev pub cc_codes : Dict Text ℕ
cc_codes =
    (codes "EQ", 0)
    ∷ (codes "NE", 1)
    ∷ (codes "LT", 2)
    ∷ (codes "GE", 3)
    ∷ (codes "CS", 4)
    ∷ (codes "CC", 5)
    ∷ (codes "ALW", 6)
    ∷ (codes "NEV", 7)
    ∷ []

unfoldable pub encode_r : ℕ → ℕ → ℕ → ℕ → ℕ → ℕ
encode_r op rd rs1 rs2 fn =
    bit_or (bit_or (bit_or (bit_or (op <<< 12) (rd <<< 9)) (rs1 <<< 6)) (rs2 <<< 3)) fn

unfoldable pub encode_i : ℕ → ℕ → ℤ → ℕ
encode_i op rd imm9 = bit_or (bit_or (op <<< 12) (rd <<< 9)) (wrap 9 imm9)

unfoldable pub encode_j : ℕ → ℤ → ℕ
encode_j op addr8 = bit_or (op <<< 12) (wrap 8 addr8)

unfoldable pub encode_b : ℕ → ℕ → ℤ → ℕ
encode_b op cc_val off9 = bit_or (bit_or (op <<< 12) (cc_val <<< 9)) (wrap 9 off9)

-- The word of LD and ST, which `_second_pass` writes out: `reg` is the register loaded or stored.
unfoldable pub encode_mem : ℕ → ℕ → ℕ → ℤ → ℕ
encode_mem op reg rs1 off =
    bit_or (bit_or (bit_or (op <<< 12) (reg <<< 9)) (rs1 <<< 6)) (wrap 6 off)
