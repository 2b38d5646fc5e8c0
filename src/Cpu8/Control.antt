-- ===== src/Cpu8/Control.antt =====
-- CALL, RET, LD and ST of the simulator as they work together.
use risc_v_so_c.Base.{
  ℕ, ◌+◌, ◌%◌, ◌<◌, ◌≡◌, refl, sym, ◌∙◌, some, get_elem?, set, get_elem?-set_self, length, lt→ltb,
  arith,
}
use risc_v_so_c.Base.Int.{pos, wrap, ◌+ℤ◌, ◌-ℤ◌}
use risc_v_so_c.Cpu8.Machine.{Sim, reg_read, reg_write, s6}
use risc_v_so_c.Cpu8.Exec.{store, exec_call, exec_ret, exec_ld, exec_st, mem_addr}
use risc_v_so_c.Cpu8.Valid.{IsByte, IsValid, wrap_byte}

store_lem :
    (a x : ℕ) (s : Sim)
    → IsValid s
    → IsByte a
    → store a x s ≡ some (record s { dmem = set s.dmem a x })
unfolding store
store_lem a x s v lt = rw (lt→ltb a (length s.dmem) (omega (arith, v.dmem_size))) refl

down : (n : ℕ) → n < 256 → wrap 8 (pos n -ℤ pos 1) ≡ (n + 255) % 256
down n h = ground arith

down_up : (n : ℕ) → n < 256 → ((n + 255) % 256 + 1) % 256 ≡ n
down_up n h = omega arith

-- CALL saves the return address `t` in the one byte that the stack pointer names and moves the
-- pointer down. Whatever the subroutine does then, if it comes to its RET in a state `late` with the
-- pointer where CALL put it and with `t` still in that byte, RET goes to `t`, puts the pointer back
-- and changes nothing else.
pub exec_call-ret :
    (t : ℕ) (s late : Sim)
    → IsValid s
    → late.sp ≡ (s.sp + 255) % 256
    → get_elem? late.dmem s.sp ≡ some t
    → (s' : Sim) × (exec_call t s ≡ some s')
      × (s'.sp ≡ late.sp)
      × (get_elem? s'.dmem s.sp ≡ some t)
      × (s'.dmem ≡ set s.dmem s.sp t)
      × (exec_ret late ≡ some (t, record late { sp = s.sp }))
unfolding exec_call exec_ret
exec_call-ret t s late v same kept = (
  record s { dmem = set s.dmem s.sp t; sp = wrap 8 (pos s.sp -ℤ pos 1) },
  rw (store_lem s.sp t s v v.sp_byte) refl,
  down s.sp v.sp_byte ∙ sym same,
  get_elem?-set_self s.dmem s.sp t (omega (arith, v.dmem_size, v.sp_byte)),
  refl,
  rw (same, down_up s.sp v.sp_byte, kept) refl,
)

-- ST writes the source register's value at `rs1 + imm6` modulo 256 and nowhere else, and an LD from
-- an operand with the same address then loads that value.
pub exec_st-ld :
    (rd src a imm6 rd' b imm6' : ℕ) (s : Sim)
    → IsValid s
    → reg_read s rd ≡ some src
    → mem_addr b imm6' ≡ mem_addr a imm6
    → (s' : Sim) × (exec_st rd a imm6 s ≡ some s')
      × (s' ≡ record s { dmem = set s.dmem (wrap 8 (pos a +ℤ s6 imm6)) src })
      × (exec_ld rd' b imm6' s' ≡ reg_write rd' src s')
unfolding exec_st exec_ld mem_addr
exec_st-ld rd src a imm6 rd' b imm6' s v e same = (
  record s { dmem = set s.dmem (wrap 8 (pos a +ℤ s6 imm6)) src },
  rw (e, store_lem (wrap 8 (pos a +ℤ s6 imm6)) src s v (wrap_byte _)) refl,
  refl,
  rw
      (
        same,
        get_elem?-set_self s.dmem (wrap 8 (pos a +ℤ s6 imm6)) src
            (omega (arith, v.dmem_size, wrap_byte (pos a +ℤ s6 imm6))),
      )
      refl,
)
