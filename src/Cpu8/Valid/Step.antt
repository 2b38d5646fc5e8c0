-- ===== src/Cpu8/Valid/Step.antt =====
-- `Sim.step` on well-formed states.
use mathlib.Core.Path.{subst}
use risc_v_so_c.Base.{
  ℕ, suc, ◌≡◌, refl, Bool, true, false, not, ◌==◌, Option, some, List, All-any, get_elem?,
  get_elem?-All, arith,
}
use risc_v_so_c.Base.Options.{◌>>=◌, Returns, Returns-bind, Returns-if}
use risc_v_so_c.Cpu8.Machine.{Sim}
use risc_v_so_c.Cpu8.Exec.{
  Fields, fields, straight, exec_cmp, exec_ret, branch_target, advance, halt, dispatch,
  dispatch_control, execute, step,
}
use risc_v_so_c.Cpu8.Valid.{
  IsByte, WellFormed, Live, IsValid, branch_target-IsByte, AreFields, fields-AreFields,
  reg_read-IsByte, reg_write-Live,
}
use risc_v_so_c.Cpu8.Valid.Exec.{
  Continues, exec_add-Live, exec_call-Live, exec_cmp-Live, exec_ld-Live, exec_logic-Live,
  exec_ret-Live, exec_shf-Live, exec_st-Live, exec_sub-Live,
}

module _ (program : List ℕ) (k : ℕ) where
  -- One cycle later; `step` returns false exactly when it leaves the machine halted.
  abbrev After : Bool × Sim → Type 0
  After r = WellFormed program (suc k) (not r.0) r.1

  advance-Live : (pc : ℕ) (s : Sim) → Live program k s → IsByte pc → After (advance pc s)
  unfolding advance
  advance-Live pc s v b = record {
    same_program = v.same_program;
    at_cycle = omega (arith, v.at_cycle);
    halt_flag = v.halt_flag;
    imem_size = v.imem_size;
    dmem_size = v.dmem_size;
    regs_size = v.regs_size;
    dmem_bytes = v.dmem_bytes;
    regs_bytes = v.regs_bytes;
    pc_byte = b;
    sp_byte = v.sp_byte;
    flag_bits = v.flag_bits;
  }

  straight-Live :
      (pc : ℕ) (m : Option Sim)
      → IsByte pc
      → Returns (Live program k) m
      → Returns After (straight pc m)
  straight-Live pc m b h = Returns-bind (Live program k) After m _ h λ s v. advance-Live pc s v b

  halt-Live : (s : Sim) → Live program k s → After (halt s)
  unfolding halt
  halt-Live s v = record {
    same_program = v.same_program;
    at_cycle = omega (arith, v.at_cycle);
    halt_flag = refl;
    imem_size = v.imem_size;
    dmem_size = v.dmem_size;
    regs_size = v.regs_size;
    dmem_bytes = v.dmem_bytes;
    regs_bytes = v.regs_bytes;
    pc_byte = v.pc_byte;
    sp_byte = v.sp_byte;
    flag_bits = v.flag_bits;
  }

  module _ (d : Fields) (a pc : ℕ) (s : Sim) (v : Live program k s) (f : AreFields d)
      (p : IsByte pc) where
    go : (m : Option Sim) → Returns (Live program k) m → Returns After (straight pc m)
    go m h = straight-Live pc m p h

    to_addr : (m : Option Sim) → Returns (Live program k) m → Returns After (straight d.addr8 m)
    to_addr m h = straight-Live d.addr8 m f.addr_byte h

    branch-Live : Returns After (branch_target d.cc_code d.imm9 pc s >>= λ t. some (advance t s))
    branch-Live =
        Returns-bind IsByte After _ _ (branch_target-IsByte d.cc_code d.imm9 pc s f.cc_small p)
          λ t b. advance-Live t s v b

    return-Live : Returns After (exec_ret s >>= λ (t, s'). some (advance t s'))
    return-Live =
        Returns-bind (Continues program k) After _ _ (exec_ret-Live s v)
          λ r h. advance-Live r.0 r.1 h.1 h.0

    dispatch_control-Live : Returns After (dispatch_control d a pc s)
    unfolding dispatch_control
    dispatch_control-Live =
        Returns-if After (d.op == 8) _ _ (go _ (reg_write-Live d.rd d.imm8 s v f.rd_small)) (
          Returns-if After (d.op == 9) _ _ (go _ (exec_ld-Live d.rd a d.imm6 s v f.rd_small)) (
            Returns-if After (d.op == 10) _ _ (go _ (exec_st-Live d.rd a d.imm6 s v f.rd_small)) (
              Returns-if After (d.op == 11) _ _ branch-Live (
                Returns-if After (d.op == 12) _ _ (to_addr (some s) v) (
                  Returns-if After (d.op == 13) _ _ (to_addr _ (exec_call-Live pc s v p)) (
                    Returns-if After (d.op == 14) _ _ return-Live
                      (Returns-if After (d.op == 15) _ _ (halt-Live s v) (go (some s) v))))))))

    dispatch-Live : (b : ℕ) → Returns After (dispatch d a b pc s)
    unfolding dispatch
    dispatch-Live b = Returns-if After (d.op == 0) _ _ (go (some s) v) (
        Returns-if After (d.op == 1) _ _ (go _ (exec_add-Live d.rd a b s v f.rd_small)) (
          Returns-if After (d.op == 2) _ _ (go _ (exec_sub-Live d.rd a b s v f.rd_small)) (
            Returns-if After (d.op == 3) _ _ (go _ (exec_logic-Live d.rd _ s v f.rd_small)) (
              Returns-if After (d.op == 4) _ _ (go _ (exec_logic-Live d.rd _ s v f.rd_small)) (
                Returns-if After (d.op == 5) _ _ (go _ (exec_logic-Live d.rd _ s v f.rd_small)) (
                  Returns-if After (d.op == 6) _ _ (go _ (exec_shf-Live d.rd d.fn a s v f.rd_small))
                    (Returns-if After (d.op == 7) _ _
                      (go (some (exec_cmp a b s)) (exec_cmp-Live a b s v))
                      dispatch_control-Live)))))))

  execute-Live : (w : ℕ) (s : Sim) → Live program k s → Returns After (execute w s)
  unfolding execute
  execute-Live w s v =
      let f = fields-AreFields w in
      Returns-bind IsByte After _ _ (reg_read-IsByte s _ v f.rs1_small) λ a ha.
        Returns-bind IsByte After _ _ (reg_read-IsByte s _ v f.rs2_small)
          λ b hb. dispatch-Live (fields w) a _ s v f (omega arith) b

-- HLT freezes the machine: a step of a halted state returns false and changes nothing.
pub step_halted : (s : Sim) → s.halted ≡ true → step s ≡ some (false, s)
unfolding step
step_halted s h = ground arith

pub step_running :
    (s : Sim) (w : ℕ) → s.halted ≡ false → get_elem? s.imem s.pc ≡ some w → step s ≡ execute w s
unfolding step
step_running s w h e = ground arith

-- A step of a well-formed running state raises no IndexError, whatever the program holds. It ends
-- one cycle later in a well-formed state with the same program, and returns false exactly when it
-- leaves the machine halted.
pub step-WellFormed :
    (s : Sim)
    → IsValid s
    → s.halted ≡ false
    → Returns (λ r. WellFormed s.imem (suc s.cycles) (not r.0) r.1) (step s)
step-WellFormed s v running =
    let (w, e, _) =
      get_elem?-All (λ _. Unit {0}) s.imem s.pc (All-any s.imem)
        (omega (arith, v.imem_size, v.pc_byte)) in
    let live = subst (λ h. WellFormed s.imem s.cycles h s) running v in
    rw (step_running s w running e) (execute-Live s.imem s.cycles w s live)
