-- ===== src/Tests/Isa.antt =====
-- The assembler and the simulator together, on single lines.
use risc_v_so_c.Base.{◌≡◌, refl, false, some, none, [], ◌∷◌, arith, if◌then◌else◌}
use risc_v_so_c.Base.Int.{pos}
use risc_v_so_c.Base.Text.{codes, upper, text_eq}
use risc_v_so_c.Base.Dict.{get}
use risc_v_so_c.Base.Results.{ok}
use risc_v_so_c.Cpu8.Machine.{Sim, init, branch_taken}
use risc_v_so_c.Cpu8.Exec.{step, execute, advance}
use risc_v_so_c.Cpu8.Run.{init-IsValid}
use risc_v_so_c.C8asm.Syntax.{Line}
use risc_v_so_c.C8asm.Operand.{parse_reg, resolve}
use risc_v_so_c.C8asm.Passes.{encode_line, encode_mnem, encode_op, encode_ldi, encode_br}
use risc_v_so_c.Isa.{encode, perform, br}
use risc_v_so_c.Isa.Execute.{execute-encode}
use risc_v_so_c.Isa.Assembled.Lines.{step-branch}

-- `LDI R1, 5` as the first line.
abbrev ldi_line : Line
ldi_line = record {
  line_no = 1;
  raw = codes "LDI R1, 5";
  label = none;
  mnem = some (codes "LDI");
  args = codes "R1" ∷ codes "5" ∷ [];
  addr = pos 0;
  word = none;
}

abbrev machine : Sim
machine = init ((pos 0, 0x8205) ∷ [])

ldi_word : encode_line ldi_line [] ≡ ok (some 0x8205)
unfolding encode_line encode_op text_eq encode_ldi parse_reg resolve
ldi_word = refl

execute-encode_example : execute (encode (br 6 (pos 3))) machine ≡ perform (br 6 (pos 3)) machine
execute-encode_example =
    execute-encode (br 6 (pos 3)) machine (omega arith) (init-IsValid ((pos 0, 0x8205) ∷ []))

-- BR EQ, end with `end` at 7, at address 0 with the flags clear.
abbrev branching : Sim
branching = init ((pos 0, 0xb007) ∷ [])

step-branch_example : step branching ≡ some (advance (if false then 7 else 1) branching)
unfolding init get encode_mnem encode_op text_eq encode_br resolve branch_taken upper
step-branch_example =
    step-branch (codes "EQ") (codes "end") ((codes "end", pos 7) ∷ []) 1 0xb007 0 7 false branching
      refl refl refl (omega arith) (init-IsValid ((pos 0, 0xb007) ∷ [])) refl refl refl
