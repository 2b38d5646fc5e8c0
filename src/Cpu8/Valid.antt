-- ===== src/Cpu8/Valid.antt =====
-- The well-formed states of the simulator of modules/cpu8/sim/sim.py: sizes, bytes and ranges,
-- and the parts of an operation that keep them.
pub mod Exec
pub mod Step
use risc_v_so_c.Base.{
  ℕ, suc, ◌+◌, ◌<◌, ◌≡◌, refl, ◌∙◌, Bool, true, false, not, ◌==◌, if◌then◌else◌, inl, inr,
  Bool-cases, lt→ltb, Option, none, some, List, All, All-any, length, get_elem?, get_elem?-All,
  All-set, length-set, low, arith,
}
use risc_v_so_c.Base.Int.{ℤ, pos, negsuc, wrap}
use risc_v_so_c.Base.Options.{◌>>=◌, Returns, Returns-bind, Returns-if}
use risc_v_so_c.Cpu8.Machine.{Sim, Flags, reg_read, reg_write, set_flags, conditions, branch_taken}
use risc_v_so_c.Cpu8.Exec.{
  Fields, fields, straight, exec_add, exec_cmp, exec_sub, exec_logic, exec_shf, exec_ld, exec_st,
  exec_call, exec_ret, mem_addr, store, branch_target, advance, halt, dispatch, dispatch_control,
  step,
}

abbrev pub IsByte : ℕ → Type 0
IsByte n = n < 256

pub record AreFlags (f : Flags) : Type 0 where
  pub z_bit : f.z < 2
  pub n_bit : f.n < 2
  pub c_bit : f.c < 2
  pub v_bit : f.v < 2

-- A state of the right shape that holds `program`, at cycle `k`, halted or not as `h` says.
pub record WellFormed (program : List ℕ) (k : ℕ) (h : Bool) (s : Sim) : Type 0 where
  pub same_program : s.imem ≡ program
  pub at_cycle : s.cycles ≡ k
  pub halt_flag : s.halted ≡ h
  pub imem_size : length s.imem ≡ 256
  pub dmem_size : length s.dmem ≡ 256
  pub regs_size : length s.regs ≡ 8
  pub dmem_bytes : All IsByte s.dmem
  pub regs_bytes : All IsByte s.regs
  pub pc_byte : IsByte s.pc
  pub sp_byte : IsByte s.sp
  pub flag_bits : AreFlags s.flags

-- A state that can take a step.
abbrev pub Live : List ℕ → ℕ → Sim → Type 0
Live program k = WellFormed program k false

abbrev pub IsValid : Sim → Type 0
IsValid s = WellFormed s.imem s.cycles s.halted s

pub wrap_byte : (z : ℤ) → wrap 8 z < 256
wrap_byte (pos n) = omega arith
wrap_byte (negsuc n) = omega arith

pub wrap_bit : (z : ℤ) → wrap 1 z < 2
wrap_bit (pos n) = omega arith
wrap_bit (negsuc n) = omega arith

pub IsByte-if :
    (b : Bool) {x y : ℕ} → IsByte x → IsByte y → Returns IsByte (some (if b then x else y))
IsByte-if true h k = h
IsByte-if false h k = k

pub branch_taken_total : (f : Flags) (c : ℕ) → c < 8 → Returns (λ _. Unit) (branch_taken f c)
unfolding branch_taken
branch_taken_total f c lt =
    let (b, e, _) = get_elem?-All (λ _. Unit {0}) (conditions f) c (All-any (conditions f)) lt in
    rw e tt

pub branch_target-IsByte :
    (c imm9 pc_inc : ℕ) (s : Sim)
    → c < 8
    → IsByte pc_inc
    → Returns IsByte (branch_target c imm9 pc_inc s)
unfolding branch_target
branch_target-IsByte c imm9 pc_inc s lt b =
    Returns-bind (λ _. Unit) IsByte _ _ (branch_taken_total s.flags c lt)
      λ taken _. IsByte-if taken (wrap_byte _) b

-- What `step` hands to the operations: three-bit fields and bytes.
pub record AreFields (d : Fields) : Type 0 where
  pub rd_small : d.rd < 8
  pub cc_small : d.cc_code < 8
  pub addr_byte : IsByte d.addr8
  pub rs1_small : d.rs1 < 8
  pub rs2_small : d.rs2 < 8

pub fields-AreFields : (w : ℕ) → AreFields (fields w)
unfolding fields
fields-AreFields w = omega arith

module _ {program : List ℕ} {k : ℕ} where
  pub reg_read-IsByte :
      {h : Bool} (s : Sim) (i : ℕ)
      → WellFormed program k h s
      → i < 8
      → Returns IsByte (reg_read s i)
  unfolding reg_read
  reg_read-IsByte s i v lt =
      let (a, e, b) = get_elem?-All IsByte s.regs i v.regs_bytes (omega (arith, v.regs_size)) in
      elim (Bool-cases (i == 0)) [
        | inl zero_reg ↦ rw zero_reg (omega arith)
        | inr other ↦ rw (other, e) (omega arith)
      ]

  pub reg_write-Live :
      (i x : ℕ) (s : Sim) → Live program k s → i < 8 → Returns (Live program k) (reg_write i x s)
  unfolding reg_write
  reg_write-Live i x s v lt = elim (Bool-cases (i == 0)) [
    | inl zero_reg ↦ rw zero_reg v
    | inr other ↦
        rw (other, lt→ltb i (length s.regs) (omega (arith, v.regs_size)))
          (record {
            same_program = v.same_program;
            at_cycle = v.at_cycle;
            halt_flag = v.halt_flag;
            imem_size = v.imem_size;
            dmem_size = v.dmem_size;
            regs_size = length-set s.regs i (low 8 x) ∙ v.regs_size;
            dmem_bytes = v.dmem_bytes;
            regs_bytes = All-set IsByte s.regs i (low 8 x) v.regs_bytes (omega arith);
            pc_byte = v.pc_byte;
            sp_byte = v.sp_byte;
            flag_bits = v.flag_bits;
          })
  ]

  pub set_flags-Live :
      (r : ℕ) (carry overflow : ℤ) (s : Sim)
      → Live program k s
      → Live program k (set_flags r carry overflow s)
  unfolding set_flags
  set_flags-Live r carry overflow s v = record {
    same_program = v.same_program;
    at_cycle = v.at_cycle;
    halt_flag = v.halt_flag;
    imem_size = v.imem_size;
    dmem_size = v.dmem_size;
    regs_size = v.regs_size;
    dmem_bytes = v.dmem_bytes;
    regs_bytes = v.regs_bytes;
    pc_byte = v.pc_byte;
    sp_byte = v.sp_byte;
    flag_bits = record {
      z_bit = ground arith;
      n_bit = omega arith;
      c_bit = wrap_bit carry;
      v_bit = wrap_bit overflow;
    };
  }

  pub store-Live :
      (a x : ℕ) (s : Sim)
      → Live program k s
      → IsByte a
      → IsByte x
      → Returns (Live program k) (store a x s)
  unfolding store
  store-Live a x s v la lx = rw (lt→ltb a (length s.dmem) (omega (arith, v.dmem_size))) (record {
    same_program = v.same_program;
    at_cycle = v.at_cycle;
    halt_flag = v.halt_flag;
    imem_size = v.imem_size;
    dmem_size = length-set s.dmem a x ∙ v.dmem_size;
    regs_size = v.regs_size;
    dmem_bytes = All-set IsByte s.dmem a x v.dmem_bytes lx;
    regs_bytes = v.regs_bytes;
    pc_byte = v.pc_byte;
    sp_byte = v.sp_byte;
    flag_bits = v.flag_bits;
  })

  pub load-IsByte :
      (s : Sim) (a : ℕ) → Live program k s → IsByte a → Returns IsByte (get_elem? s.dmem a)
  load-IsByte s a v la =
      let (x, e, b) = get_elem?-All IsByte s.dmem a v.dmem_bytes (omega (arith, v.dmem_size)) in
      rw e b

  pub with_sp :
      (s : Sim) (n : ℕ) → Live program k s → IsByte n → Live program k (record s { sp = n })
  with_sp s n v b = record {
    same_program = v.same_program;
    at_cycle = v.at_cycle;
    halt_flag = v.halt_flag;
    imem_size = v.imem_size;
    dmem_size = v.dmem_size;
    regs_size = v.regs_size;
    dmem_bytes = v.dmem_bytes;
    regs_bytes = v.regs_bytes;
    pc_byte = v.pc_byte;
    sp_byte = b;
    flag_bits = v.flag_bits;
  }
