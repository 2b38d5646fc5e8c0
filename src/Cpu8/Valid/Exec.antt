-- ===== src/Cpu8/Valid/Exec.antt =====
-- Each operation of the simulator keeps a well-formed state, and reads nothing out of range.
use risc_v_so_c.Base.{ℕ, ◌+◌, ◌<◌, List, low, arith}
use risc_v_so_c.Base.Options.{Returns, Returns-bind}
use risc_v_so_c.Cpu8.Machine.{Sim}
use risc_v_so_c.Cpu8.Exec.{
  exec_add, exec_cmp, exec_sub, exec_logic, exec_shf, exec_ld, exec_st, exec_call, exec_ret,
  mem_addr,
}
use risc_v_so_c.Cpu8.Valid.{
  IsByte, Live, wrap_byte, reg_read-IsByte, reg_write-Live, set_flags-Live, store-Live, load-IsByte,
  with_sp,
}

-- A next program counter and a state, both in range.
abbrev pub Continues : List ℕ → ℕ → ℕ × Sim → Type 0
Continues program k r = IsByte r.0 × Live program k r.1

module _ {program : List ℕ} {k : ℕ} where
  pub exec_add-Live :
      (rd a b : ℕ) (s : Sim)
      → Live program k s
      → rd < 8
      → Returns (Live program k) (exec_add rd a b s)
  unfolding exec_add
  exec_add-Live rd a b s v lt = reg_write-Live rd _ _ (set_flags-Live _ _ _ s v) lt

  pub exec_cmp-Live : (a b : ℕ) (s : Sim) → Live program k s → Live program k (exec_cmp a b s)
  unfolding exec_cmp
  exec_cmp-Live a b s v = set_flags-Live _ _ _ s v

  pub exec_sub-Live :
      (rd a b : ℕ) (s : Sim)
      → Live program k s
      → rd < 8
      → Returns (Live program k) (exec_sub rd a b s)
  unfolding exec_sub
  exec_sub-Live rd a b s v lt = reg_write-Live rd _ _ (set_flags-Live _ _ _ s v) lt

  pub exec_logic-Live :
      (rd r : ℕ) (s : Sim)
      → Live program k s
      → rd < 8
      → Returns (Live program k) (exec_logic rd r s)
  unfolding exec_logic
  exec_logic-Live rd r s v lt = reg_write-Live rd _ _ (set_flags-Live _ _ _ s v) lt

  pub exec_shf-Live :
      (rd fn a : ℕ) (s : Sim)
      → Live program k s
      → rd < 8
      → Returns (Live program k) (exec_shf rd fn a s)
  unfolding exec_shf
  exec_shf-Live rd fn a s v lt =
      reg_write-Live rd _ _
        (record {
          same_program = v.same_program;
          at_cycle = v.at_cycle;
          halt_flag = v.halt_flag;
          imem_size = v.imem_size;
          dmem_size = v.dmem_size;
          regs_size = v.regs_size;
          dmem_bytes = v.dmem_bytes;
          regs_bytes = v.regs_bytes;
          pc_byte = v.pc_byte;
          sp_byte = v.sp_byte;
          flag_bits = record {
            z_bit = ground arith;
            n_bit = omega arith;
            c_bit = ground arith;
            v_bit = omega arith;
          };
        })
        lt

  pub exec_ld-Live :
      (rd a imm6 : ℕ) (s : Sim)
      → Live program k s
      → rd < 8
      → Returns (Live program k) (exec_ld rd a imm6 s)
  unfolding exec_ld mem_addr
  exec_ld-Live rd a imm6 s v lt =
      Returns-bind IsByte (Live program k) _ _ (load-IsByte s _ v (wrap_byte _))
        λ x _. reg_write-Live rd x s v lt

  pub exec_st-Live :
      (rd a imm6 : ℕ) (s : Sim)
      → Live program k s
      → rd < 8
      → Returns (Live program k) (exec_st rd a imm6 s)
  unfolding exec_st mem_addr
  exec_st-Live rd a imm6 s v lt =
      Returns-bind IsByte (Live program k) _ _ (reg_read-IsByte s rd v lt)
        λ x b. store-Live _ x s v (wrap_byte _) b

  pub exec_call-Live :
      (t : ℕ) (s : Sim) → Live program k s → IsByte t → Returns (Live program k) (exec_call t s)
  unfolding exec_call
  exec_call-Live t s v b =
      Returns-bind (Live program k) (Live program k) _ _ (store-Live s.sp t s v v.sp_byte b)
        λ s' v'. with_sp s' _ v' (wrap_byte _)

  pub exec_ret-Live : (s : Sim) → Live program k s → Returns (Continues program k) (exec_ret s)
  unfolding exec_ret
  exec_ret-Live s v =
      let v' = with_sp s (low 8 (s.sp + 1)) v (omega arith) in
      Returns-bind IsByte (Continues program k) _ _ (load-IsByte _ _ v' v'.sp_byte) λ t b. (b, v')
