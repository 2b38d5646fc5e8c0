-- ===== src/Isa/Execute.antt =====
-- The simulator executes the word of an instruction as the instruction.
mod Dispatch
use mathlib.Core.Path.{subst}
use risc_v_so_c.Base.{ℕ, ◌+◌, ◌<◌, ◌≡◌, refl, ◌∙◌, arith, low, some, get_elem?, if◌then◌else◌}
use risc_v_so_c.Base.Int.{ℤ, pos, negsuc, wrap, ◌≤ℤ◌, ◌+ℤ◌}
use risc_v_so_c.Base.Options.{◌>>=◌, Returns→some, bind_assoc}
use risc_v_so_c.Cpu8.Machine.{Sim, s6, s9, reg_read, reg_write, branch_taken}
use risc_v_so_c.Cpu8.Exec.{
  op_nop, op_shf, op_cmp, op_ldi, op_ld, op_st, op_br, op_jmp, op_call, Fields, fields, dispatch,
  dispatch_control, execute, straight, advance, exec_cmp, exec_shf, exec_ld, exec_st, exec_call,
  store, mem_addr, branch_target,
}
use risc_v_so_c.Cpu8.Valid.{IsByte, IsValid, reg_read-IsByte, fields-AreFields}
use risc_v_so_c.C8asm.Encode.{encode_r, encode_i, encode_j, encode_b, encode_mem}
use risc_v_so_c.Isa.{
  Insn, Alu, Fits, encode, perform, alu_op, exec_alu, add, sub, and, or, xor, nop, ret, hlt, alu,
  cmp, shf, ldi, ld, st, br, jmp, call,
}
use risc_v_so_c.Isa.Formats.{
  fields-encode_r, fields-encode_i, fields-encode_b, fields-encode_j, fields-encode_mem,
}
unfoldable pub use Dispatch.*

pub s6-wrap : (z : ℤ) → negsuc 31 ≤ℤ z → z ≤ℤ pos 31 → s6 (wrap 6 z) ≡ z
unfolding s6
s6-wrap z h k = ground arith

pub s9-wrap : (z : ℤ) → negsuc 255 ≤ℤ z → z ≤ℤ pos 255 → s9 (wrap 9 z) ≡ z
unfolding s9
s9-wrap z h k = ground arith

pub alu_op-lt : (o : Alu) → alu_op o < 16
alu_op-lt add = omega arith
alu_op-lt sub = omega arith
alu_op-lt and = omega arith
alu_op-lt or = omega arith
alu_op-lt xor = omega arith

-- A read of the register that a field names.
at_field : (s : Sim) {i j : ℕ} (a : ℕ) → i ≡ j → reg_read s i ≡ some a → reg_read s j ≡ some a
at_field s a e h = subst (λ k. reg_read s k ≡ some a) e h

module _ (s : Sim) (v : IsValid s) where
  run_alu :
      (o : Alu) (rd rs1 rs2 : ℕ)
      → Fits (alu o rd rs1 rs2)
      → execute (encode (alu o rd rs1 rs2)) s ≡ perform (alu o rd rs1 rs2) s
  unfolding encode perform
  run_alu o rd rs1 rs2 (h, k, l) =
      let w = encode_r (alu_op o) rd rs1 rs2 0 in
      let f = fields-encode_r (alu_op o) rd rs1 rs2 0 (alu_op-lt o) h k l (omega arith) in
      let (a, b, ea, eb, e) = reads w s v in
      e
      ∙ dispatch_alu (fields w) a b _ s o f.op_field
      ∙ rw (f.rd_field, at_field s a f.rs1_field ea, at_field s b f.rs2_field eb) refl

  run_cmp :
      (rs1 rs2 : ℕ)
      → Fits (cmp rs1 rs2)
      → execute (encode (cmp rs1 rs2)) s ≡ perform (cmp rs1 rs2) s
  unfolding encode perform
  run_cmp rs1 rs2 (k, l) =
      let w = encode_r op_cmp 0 rs1 rs2 0 in
      let f = fields-encode_r op_cmp 0 rs1 rs2 0 (omega arith) (omega arith) k l (omega arith) in
      let (a, b, ea, eb, e) = reads w s v in
      e
      ∙ dispatch_cmp (fields w) a b _ s f.op_field
      ∙ rw (at_field s a f.rs1_field ea, at_field s b f.rs2_field eb) refl

  run_shf :
      (rd rs1 fn : ℕ)
      → Fits (shf rd rs1 fn)
      → execute (encode (shf rd rs1 fn)) s ≡ perform (shf rd rs1 fn) s
  unfolding encode perform
  run_shf rd rs1 fn (h, k, l) =
      let w = encode_r op_shf rd rs1 0 fn in
      let f = fields-encode_r op_shf rd rs1 0 fn (omega arith) h k (omega arith) (omega arith) in
      let (a, b, ea, eb, e) = reads w s v in
      e
      ∙ dispatch_shf (fields w) a b _ s f.op_field
      ∙ rw (f.rd_field, f.fn_field, at_field s a f.rs1_field ea) refl

  run_ldi :
      (rd imm : ℕ) → Fits (ldi rd imm) → execute (encode (ldi rd imm)) s ≡ perform (ldi rd imm) s
  unfolding encode perform
  run_ldi rd imm (h, k) =
      let w = encode_i op_ldi rd (pos imm) in
      let f = fields-encode_i op_ldi rd (pos imm) (omega arith) h in
      let (a, b, ea, eb, e) = reads w s v in
      let value : (fields w).imm8 ≡ imm = omega (arith, f.imm8_field) in
      e ∙ dispatch_ldi (fields w) a b _ s f.op_field ∙ rw (f.rd_field, value) refl

  run_ld :
      (rd rs1 : ℕ) (off : ℤ)
      → Fits (ld rd rs1 off)
      → execute (encode (ld rd rs1 off)) s ≡ perform (ld rd rs1 off) s
  unfolding encode perform exec_ld mem_addr
  run_ld rd rs1 off (h, k, l, m) =
      let w = encode_mem op_ld rd rs1 off in
      let f = fields-encode_mem op_ld rd rs1 off (omega arith) h k in
      let (a, b, ea, eb, e) = reads w s v in
      e
      ∙ dispatch_ld (fields w) a b _ s f.op_field
      ∙ rw (f.rd_field, f.imm6_field, s6-wrap off l m, at_field s a f.rs1_field ea)
          (bind_assoc (get_elem? s.dmem (wrap 8 (pos a +ℤ off))) (λ x. reg_write rd x s)
            (λ s'. some (advance (low 8 (s.pc + 1)) s')))

  run_st :
      (rs2 rs1 : ℕ) (off : ℤ)
      → Fits (st rs2 rs1 off)
      → execute (encode (st rs2 rs1 off)) s ≡ perform (st rs2 rs1 off) s
  unfolding encode perform exec_st mem_addr
  run_st rs2 rs1 off (h, k, l, m) =
      let w = encode_mem op_st rs2 rs1 off in
      let f = fields-encode_mem op_st rs2 rs1 off (omega arith) h k in
      let (a, b, ea, eb, e) = reads w s v in
      e
      ∙ dispatch_st (fields w) a b _ s f.op_field
      ∙ rw (f.rd_field, f.imm6_field, s6-wrap off l m, at_field s a f.rs1_field ea)
          (bind_assoc (reg_read s rs2) (λ x. store (wrap 8 (pos a +ℤ off)) x s)
            (λ s'. some (advance (low 8 (s.pc + 1)) s')))

  run_br :
      (c : ℕ) (off : ℤ) → Fits (br c off) → execute (encode (br c off)) s ≡ perform (br c off) s
  unfolding encode perform branch_target
  run_br c off (h, l, m) =
      let w = encode_b op_br c off in
      let f = fields-encode_b op_br c off (omega arith) h in
      let (a, b, ea, eb, e) = reads w s v in
      e
      ∙ dispatch_br (fields w) a b _ s f.op_field
      ∙ rw (f.cc_field, f.imm9_field, s9-wrap off l m)
          (bind_assoc (branch_taken s.flags c)
            (λ taken. some (if taken then wrap 8 (pos s.pc +ℤ off) else low 8 (s.pc + 1)))
            (λ t. some (advance t s)))

  run_jmp : (t : ℕ) → Fits (jmp t) → execute (encode (jmp t)) s ≡ perform (jmp t) s
  unfolding encode perform
  run_jmp t h =
      let w = encode_j op_jmp (pos t) in
      let f = fields-encode_j op_jmp (pos t) (omega arith) in
      let (a, b, ea, eb, e) = reads w s v in
      let target : (fields w).addr8 ≡ t = omega (arith, f.1) in
      e ∙ dispatch_jmp (fields w) a b _ s f.0 ∙ rw target refl

  run_call : (t : ℕ) → Fits (call t) → execute (encode (call t)) s ≡ perform (call t) s
  unfolding encode perform
  run_call t h =
      let w = encode_j op_call (pos t) in
      let f = fields-encode_j op_call (pos t) (omega arith) in
      let (a, b, ea, eb, e) = reads w s v in
      let target : (fields w).addr8 ≡ t = omega (arith, f.1) in
      e ∙ dispatch_call (fields w) a b _ s f.0 ∙ rw target refl

  -- The words of NOP, RET and HLT are constants.
  run_nop : execute (encode nop) s ≡ perform nop s
  unfolding encode perform execute fields dispatch reg_read
  run_nop = refl

  run_ret : execute (encode ret) s ≡ perform ret s
  unfolding encode perform execute fields dispatch dispatch_control reg_read
  run_ret = refl

  run_hlt : execute (encode hlt) s ≡ perform hlt s
  unfolding encode perform execute fields dispatch dispatch_control reg_read
  run_hlt = refl

-- Executing the word that the assembler's formats give an instruction performs the instruction, on
-- every well-formed state.
pub execute-encode : (i : Insn) (s : Sim) → Fits i → IsValid s → execute (encode i) s ≡ perform i s
execute-encode nop s h v = run_nop s v
execute-encode ret s h v = run_ret s v
execute-encode hlt s h v = run_hlt s v
execute-encode (alu o rd rs1 rs2) s h v = run_alu s v o rd rs1 rs2 h
execute-encode (cmp rs1 rs2) s h v = run_cmp s v rs1 rs2 h
execute-encode (shf rd rs1 fn) s h v = run_shf s v rd rs1 fn h
execute-encode (ldi rd imm) s h v = run_ldi s v rd imm h
execute-encode (ld rd rs1 off) s h v = run_ld s v rd rs1 off h
execute-encode (st rs2 rs1 off) s h v = run_st s v rs2 rs1 off h
execute-encode (br c off) s h v = run_br s v c off h
execute-encode (jmp t) s h v = run_jmp s v t h
execute-encode (call t) s h v = run_call s v t h
