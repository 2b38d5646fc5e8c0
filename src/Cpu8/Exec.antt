-- ===== src/Cpu8/Exec.antt =====
-- modules/cpu8/sim/sim.py: `Sim.step`, one function for each group of operations, and `Sim.run`.
-- Tracing changes no state; Cpu8.Trace has the lines that it prints.
mod Decode
use risc_v_so_c.Base.{
  ℕ, zero, suc, ◌+◌, ◌==◌, ltb, if◌then◌else◌, Bool, true, false, not, ◌&&◌, Option, none, some,
  get_elem?, set, length, low, bit, ◌>>>◌, ◌<<<◌, bit_and, bit_or, bit_xor,
}
use risc_v_so_c.Base.Int.{ℤ, pos, ◌+ℤ◌, ◌-ℤ◌, wrap, shr_ℤ, not_ℤ, and_ℤ, or_ℤ}
use risc_v_so_c.Base.Options.{◌>>=◌}
use risc_v_so_c.Cpu8.Machine.{Sim, s6, s9, reg_read, reg_write, set_flags, branch_taken}
unfoldable pub use Decode.*

-- `((~rs1 & ~rs2 & r) | (rs1 & rs2 & ~r)) >> 7`.
unfoldable pub add_overflow : ℕ → ℕ → ℕ → ℤ
add_overflow a b r =
    shr_ℤ
      (or_ℤ (and_ℤ (and_ℤ (not_ℤ (pos a)) (not_ℤ (pos b))) (pos r))
        (and_ℤ (and_ℤ (pos a) (pos b)) (not_ℤ (pos r))))
      7

-- `((rs1 & ~rs2 & ~r) | (~rs1 & rs2 & r)) >> 7`.
unfoldable pub sub_overflow : ℕ → ℕ → ℕ → ℤ
sub_overflow a b r =
    shr_ℤ
      (or_ℤ (and_ℤ (and_ℤ (pos a) (not_ℤ (pos b))) (not_ℤ (pos r)))
        (and_ℤ (and_ℤ (not_ℤ (pos a)) (pos b)) (pos r)))
      7

unfoldable pub exec_add : ℕ → ℕ → ℕ → Sim → Option Sim
exec_add rd rs1 rs2 s =
    let wide = rs1 + rs2 in
    let r = low 8 wide in reg_write rd r (set_flags r (pos (wide >>> 8)) (add_overflow rs1 rs2 r) s)

-- CMP: the flags of `rs1 - rs2`, and no write.
unfoldable pub exec_cmp : ℕ → ℕ → Sim → Sim
exec_cmp rs1 rs2 s =
    let wide = pos rs1 -ℤ pos rs2 in
    let r = wrap 8 wide in set_flags r (pos (wrap 1 (shr_ℤ wide 8))) (sub_overflow rs1 rs2 r) s

unfoldable pub exec_sub : ℕ → ℕ → ℕ → Sim → Option Sim
exec_sub rd rs1 rs2 s =
    let wide = pos rs1 -ℤ pos rs2 in
    let r = wrap 8 wide in
    reg_write rd r (set_flags r (pos (wrap 1 (shr_ℤ wide 8))) (sub_overflow rs1 rs2 r) s)

-- AND, OR and XOR, by the result.
unfoldable pub exec_logic : ℕ → ℕ → Sim → Option Sim
exec_logic rd r s = reg_write rd r (set_flags r (pos 0) (pos 0) s)

-- The result and the carry of SHL, SHR and ROR.
unfoldable pub shift : ℕ → ℕ → ℕ × ℕ
shift sh rs1 =
    if sh == 0
    then (low 8 (rs1 <<< 1), bit 7 rs1)
    else if sh == 1
    then (rs1 >>> 1, bit 0 rs1)
    else (low 8 (bit_or (rs1 >>> 1) (bit 0 rs1 <<< 7)), bit 0 rs1)

unfoldable pub exec_shf : ℕ → ℕ → ℕ → Sim → Option Sim
unfolding shift
exec_shf rd fn rs1 s =
    let (r, c) = shift (low 2 fn) rs1 in
    reg_write rd r
      (record s { flags = record { z = if r == 0 then 1 else 0; n = bit 7 r; c = c; v = 0 } })

unfoldable pub mem_addr : ℕ → ℕ → ℕ
unfolding s6
mem_addr rs1 imm6 = wrap 8 (pos rs1 +ℤ s6 imm6)

unfoldable pub exec_ld : ℕ → ℕ → ℕ → Sim → Option Sim
exec_ld rd rs1 imm6 s = do v ← get_elem? s.dmem (mem_addr rs1 imm6); reg_write rd v s

-- `self.dmem[addr] = val`.
unfoldable pub store : ℕ → ℕ → Sim → Option Sim
store addr val s =
    if ltb addr (length s.dmem) then some (record s { dmem = set s.dmem addr val }) else none

unfoldable pub exec_st : ℕ → ℕ → ℕ → Sim → Option Sim
exec_st rd rs1 imm6 s = do src ← reg_read s rd; store (mem_addr rs1 imm6) src s

-- The next program counter of BR.
unfoldable pub branch_target : ℕ → ℕ → ℕ → Sim → Option ℕ
unfolding s9
branch_target cc' imm9 pc_inc s = do
  taken ← branch_taken s.flags cc'
  some (if taken then wrap 8 (pos s.pc +ℤ s9 imm9) else pc_inc)

unfoldable pub exec_call : ℕ → Sim → Option Sim
exec_call pc_inc s = do
  s' ← store s.sp pc_inc s
  some (record s' { sp = wrap 8 (pos s'.sp -ℤ pos 1) })

-- The stack pointer moves before the read.
unfoldable pub exec_ret : Sim → Option (ℕ × Sim)
exec_ret s = do
  let s' = record s { sp = low 8 (s.sp + 1) }
  target ← get_elem? s'.dmem s'.sp
  some (target, s')

-- `self.pc = next_pc; self.cycles += 1; return True`.
unfoldable pub advance : ℕ → Sim → Bool × Sim
advance next_pc s = (true, record s { pc = next_pc; cycles = s.cycles + 1 })

unfoldable pub halt : Sim → Bool × Sim
halt s = (false, record s { halted = true; cycles = s.cycles + 1 })

-- The next instruction follows unless the operation says otherwise.
abbrev pub straight : ℕ → Option Sim → Option (Bool × Sim)
straight pc_inc m = m >>= λ s. some (advance pc_inc s)

-- The chain of `elif` on the opcode, from LDI on: loads, stores and control.
unfoldable pub dispatch_control : Fields → ℕ → ℕ → Sim → Option (Bool × Sim)
dispatch_control d rs1 pc_inc s =
    if d.op == op_ldi
    then straight pc_inc (reg_write d.rd d.imm8 s)
    else if d.op == op_ld
    then straight pc_inc (exec_ld d.rd rs1 d.imm6 s)
    else if d.op == op_st
    then straight pc_inc (exec_st d.rd rs1 d.imm6 s)
    else if d.op == op_br
    then (branch_target d.cc_code d.imm9 pc_inc s >>= λ t. some (advance t s))
    else if d.op == op_jmp
    then straight d.addr8 (some s)
    else if d.op == op_call
    then straight d.addr8 (exec_call pc_inc s)
    else if d.op == op_ret
    then (exec_ret s >>= λ (t, s'). some (advance t s'))
    else if d.op == op_hlt
    then some (halt s)
    else straight pc_inc (some s)

-- The chain from its start.
unfoldable pub dispatch : Fields → ℕ → ℕ → ℕ → Sim → Option (Bool × Sim)
dispatch d rs1 rs2 pc_inc s =
    if d.op == op_nop
    then straight pc_inc (some s)
    else if d.op == op_add
    then straight pc_inc (exec_add d.rd rs1 rs2 s)
    else if d.op == op_sub
    then straight pc_inc (exec_sub d.rd rs1 rs2 s)
    else if d.op == op_and
    then straight pc_inc (exec_logic d.rd (bit_and rs1 rs2) s)
    else if d.op == op_or
    then straight pc_inc (exec_logic d.rd (bit_or rs1 rs2) s)
    else if d.op == op_xor
    then straight pc_inc (exec_logic d.rd (bit_xor rs1 rs2) s)
    else if d.op == op_shf
    then straight pc_inc (exec_shf d.rd d.fn rs1 s)
    else if d.op == op_cmp
    then straight pc_inc (some (exec_cmp rs1 rs2 s))
    else dispatch_control d rs1 pc_inc s

-- A step on the word that was fetched.
unfoldable pub execute : ℕ → Sim → Option (Bool × Sim)
execute word s = do
  let d = fields word
  rs1 ← reg_read s d.rs1
  rs2 ← reg_read s d.rs2
  dispatch d rs1 rs2 (low 8 (s.pc + 1)) s

unfoldable pub step : Sim → Option (Bool × Sim)
step s = if s.halted then some (false, s) else do word ← get_elem? s.imem s.pc; execute word s

-- `while not self.halted and self.cycles < max_cycles: self.step()` on fuel; the outer `none`
-- says that the fuel ran out.
unfoldable pub run_loop : ℕ → ℕ → Sim → Option (Option Sim)
run_loop zero max_cycles s = none
run_loop (suc fuel) max_cycles s =
    let rest = step s >>= λ (_, s'). some (run_loop fuel max_cycles s') in
    if not s.halted && ltb s.cycles max_cycles
    then (elim rest [ none ↦ some none | some r ↦ r ])
    else some (some s)

-- `run` returns the cycle count. A step adds a cycle unless the machine has halted, so one more
-- round than `max_cycles` is enough.
unfoldable pub run : ℕ → Sim → Option (Option (ℕ × Sim))
unfolding run_loop
run max_cycles s =
    run_loop (suc max_cycles) max_cycles s >>= λ r. some (r >>= λ s'. some (s'.cycles, s'))
