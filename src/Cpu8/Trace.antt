-- ===== src/Cpu8/Trace.antt =====
-- modules/cpu8/sim/sim.py: the line that `Sim.step` prints when it traces, and those of a run.
pub mod Rows
use risc_v_so_c.Base.{
  ℕ, zero, suc, ◌+◌, ◌-◌, ltb, Bool, not, ◌&&◌, if◌then◌else◌, Option, none, some, List, [], ◌∷◌,
  ◌++◌, length, replicate, get_elem?, low,
}
use risc_v_so_c.Base.Text.{Text, codes}
use risc_v_so_c.Base.Options.{◌>>=◌}
use risc_v_so_c.Base.Hex.{hex_padded, decimal_from, decimal_text}
use risc_v_so_c.Cpu8.Machine.{Flags, Sim, reg_read}
use risc_v_so_c.Cpu8.Exec.{Fields, fields, step}

abbrev pub hex2 : ℕ → Text
hex2 = hex_padded b'A' 2

-- `MNEM`, by opcode.
abbrev pub mnemonics : List Text
mnemonics =
    codes "NOP"
    ∷ codes "ADD"
    ∷ codes "SUB"
    ∷ codes "AND"
    ∷ codes "OR"
    ∷ codes "XOR"
    ∷ codes "SHF"
    ∷ codes "CMP"
    ∷ codes "LDI"
    ∷ codes "LD"
    ∷ codes "ST"
    ∷ codes "BR"
    ∷ codes "JMP"
    ∷ codes "CALL"
    ∷ codes "RET"
    ∷ codes "HLT"
    ∷ []

-- `MNEM.get(op, '???')` in the format `<4`.
unfoldable pub mnemonic_column : ℕ → Text
mnemonic_column op =
    let name : Text = elim (get_elem? mnemonics op) [ none ↦ codes "???" | some m ↦ m ] in
    name ++ replicate (4 - length name) 32

-- The flags in reverse order.
unfoldable pub flags_text : Flags → Text
unfolding decimal_from
flags_text f = decimal_text f.v ++ (decimal_text f.c ++ (decimal_text f.n ++ decimal_text f.z))

abbrev pub register_text : ℕ → ℕ → Text
register_text i v = codes "R" ++ (decimal_text i ++ (codes "=" ++ hex2 v))

-- The line for the instruction at the program counter, before it is executed.
unfoldable pub trace_row : Sim → Option Text
unfolding mnemonic_column flags_text hex_padded decimal_from
trace_row s = do
  word ← get_elem? s.imem s.pc
  let d = fields word
  rs1 ← reg_read s d.rs1
  rs2 ← reg_read s d.rs2
  rd ← reg_read s d.rd
  some (
      codes "  PC="
      ++ (hex2 s.pc
          ++ (codes "  "
              ++ (hex_padded b'A' 4 (low 16 word)
                  ++ (codes "  "
                      ++ (mnemonic_column d.op
                          ++ (codes "  "
                              ++ (register_text d.rd rd
                                  ++ (codes "  "
                                      ++ (register_text d.rs1 rs1
                                          ++ (codes "  "
                                              ++ (register_text d.rs2 rs2
                                                  ++ (codes "  FLAGS="
                                                      ++ flags_text s.flags)))))))))))))

-- The lines of the loop of `run`, on its fuel.
unfoldable pub trace_loop : ℕ → ℕ → Sim → Option (List Text)
unfolding trace_row
trace_loop zero max_cycles s = none
trace_loop (suc fuel) max_cycles s =
    let rows = trace_row s >>= λ row.
    step s >>= λ (_, s'). trace_loop fuel max_cycles s' >>= λ rest. some (row ∷ rest) in
    if not s.halted && ltb s.cycles max_cycles then rows else some []

-- What `run` prints, with `trace` or without.
unfoldable pub trace_rows : Bool → ℕ → Sim → Option (List Text)
unfolding trace_loop
trace_rows traces max_cycles s =
    if traces then trace_loop (suc max_cycles) max_cycles s else some []
