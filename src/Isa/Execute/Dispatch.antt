-- ===== src/Isa/Execute/Dispatch.antt =====
-- What modules/cpu8/sim/sim.py's `step` does for each opcode.
use risc_v_so_c.Base.{ℕ, ◌+◌, ◌≡◌, refl, low, some}
use risc_v_so_c.Base.Options.{◌>>=◌, Returns→some}
use risc_v_so_c.Cpu8.Machine.{Sim, reg_read, reg_write}
use risc_v_so_c.Cpu8.Exec.{
  op_nop, op_shf, op_cmp, op_ldi, op_ld, op_st, op_br, op_jmp, op_call, Fields, fields, dispatch,
  dispatch_control, execute, straight, advance, exec_cmp, exec_shf, exec_ld, exec_st, exec_call,
  branch_target,
}
use risc_v_so_c.Cpu8.Valid.{IsByte, IsValid, reg_read-IsByte, fields-AreFields}
use risc_v_so_c.Isa.{Alu, alu_op, exec_alu, add, sub, and, or, xor}

-- The operation that the opcode picks.
module _ (d : Fields) (a b pc : ℕ) (s : Sim) where
  pub dispatch_nop : d.op ≡ op_nop → dispatch d a b pc s ≡ some (advance pc s)
  unfolding dispatch
  dispatch_nop e = rw e refl

  pub dispatch_alu :
      (o : Alu) → d.op ≡ alu_op o → dispatch d a b pc s ≡ straight pc (exec_alu o d.rd a b s)
  unfolding dispatch exec_alu
  dispatch_alu add e = rw e refl
  dispatch_alu sub e = rw e refl
  dispatch_alu and e = rw e refl
  dispatch_alu or e = rw e refl
  dispatch_alu xor e = rw e refl

  pub dispatch_shf : d.op ≡ op_shf → dispatch d a b pc s ≡ straight pc (exec_shf d.rd d.fn a s)
  unfolding dispatch
  dispatch_shf e = rw e refl

  pub dispatch_cmp : d.op ≡ op_cmp → dispatch d a b pc s ≡ some (advance pc (exec_cmp a b s))
  unfolding dispatch
  dispatch_cmp e = rw e refl

  pub dispatch_ldi : d.op ≡ op_ldi → dispatch d a b pc s ≡ straight pc (reg_write d.rd d.imm8 s)
  unfolding dispatch dispatch_control
  dispatch_ldi e = rw e refl

  pub dispatch_ld : d.op ≡ op_ld → dispatch d a b pc s ≡ straight pc (exec_ld d.rd a d.imm6 s)
  unfolding dispatch dispatch_control
  dispatch_ld e = rw e refl

  pub dispatch_st : d.op ≡ op_st → dispatch d a b pc s ≡ straight pc (exec_st d.rd a d.imm6 s)
  unfolding dispatch dispatch_control
  dispatch_st e = rw e refl

  pub dispatch_br :
      d.op ≡ op_br
      → dispatch d a b pc s ≡ (branch_target d.cc_code d.imm9 pc s >>= λ t. some (advance t s))
  unfolding dispatch dispatch_control
  dispatch_br e = rw e refl

  pub dispatch_jmp : d.op ≡ op_jmp → dispatch d a b pc s ≡ some (advance d.addr8 s)
  unfolding dispatch dispatch_control
  dispatch_jmp e = rw e refl

  pub dispatch_call : d.op ≡ op_call → dispatch d a b pc s ≡ straight d.addr8 (exec_call pc s)
  unfolding dispatch dispatch_control
  dispatch_call e = rw e refl

-- On a well-formed state the two register reads succeed.
pub reads :
    (w : ℕ) (s : Sim)
    → IsValid s
    → (a : ℕ) × (b : ℕ) × (reg_read s (fields w).rs1 ≡ some a)
      × (reg_read s (fields w).rs2 ≡ some b)
      × (execute w s ≡ dispatch (fields w) a b (low 8 (s.pc + 1)) s)
unfolding execute
reads w s v =
    let f = fields-AreFields w in
    let (a, ea, _) = Returns→some IsByte _ (reg_read-IsByte s (fields w).rs1 v f.rs1_small) in
    let (b, eb, _) = Returns→some IsByte _ (reg_read-IsByte s (fields w).rs2 v f.rs2_small) in
    (a, b, ea, eb, rw (ea, eb) refl)
