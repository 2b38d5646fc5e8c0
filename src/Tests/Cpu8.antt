-- ===== src/Tests/Cpu8.antt =====
-- The simulator on small programs of modules/cpu8/tests/test_c8.py.
use risc_v_so_c.Base.{
  ℕ, suc, ◌≡◌, ◌≢◌, ◌⊎◌, set, ◌↔◌, refl, true, not, some, none, Option, [], ◌∷◌, arith, get_elem?,
}
use risc_v_so_c.Base.Int.{wrap, ◌+ℤ◌, ℤ, pos, ltb_ℤ}
use risc_v_so_c.Base.Dict.{Dict, get}
use risc_v_so_c.Base.Options.{Returns}
use risc_v_so_c.Cpu8.Machine.{Sim, s8, s6, init, reg_read, reg_write, set_flags}
use risc_v_so_c.Cpu8.Exec.{
  fields, exec_add, exec_add, exec_cmp, exec_call, exec_ret, exec_st, exec_ld, mem_addr, step,
  execute, dispatch, dispatch_control, run, add_overflow, halt, advance,
}
use risc_v_so_c.Cpu8.Valid.{WellFormed}
use risc_v_so_c.Cpu8.Valid.Step.{step-WellFormed}
use risc_v_so_c.Cpu8.Run.{init-IsValid, Ends, run-Ends}
use risc_v_so_c.Cpu8.Alu.Ops.{exec_cmp_signed}
use risc_v_so_c.Cpu8.Control.{exec_call-ret, exec_st-ld}

-- LDI R1, 5; ADD R3, R1, R1; HLT.
abbrev sample : Dict ℤ ℕ
sample = (pos 0, 0x8205) ∷ (pos 1, 0x1648) ∷ (pos 2, 0xf000) ∷ []

abbrev start : Sim
start = init sample

-- R3 and the cycle counter after a run of at most 100 steps.
abbrev third_register : Option (Option (ℕ × Sim)) → Option ℕ
third_register (some (some (n, s))) = reg_read s 3
third_register (some none) = none
third_register none = none

sample_sum : third_register (run 100 start) ≡ some 10
unfolding run init get step execute fields dispatch dispatch_control reg_read reg_write exec_add
    set_flags add_overflow halt advance
sample_sum = refl

step-WellFormed_example :
    Returns (λ r. WellFormed start.imem (suc start.cycles) (not r.0) r.1) (step start)
unfolding init
step-WellFormed_example = step-WellFormed start (init-IsValid sample) refl

run-Ends_example : (s' : Sim) × (run 100 start ≡ some (some (s'.cycles, s'))) × Ends 100 start s'
run-Ends_example = run-Ends 100 start (init-IsValid sample)

exec_cmp_signed_example :
    let f = (exec_cmp 0x80 1 start).flags in
    ((ltb_ℤ (s8 0x80) (s8 1) ≡ true) ↔ (f.n ≢ f.v))
    × ((f.v ≡ 1) ⊎ ((ltb_ℤ (s8 0x80) (s8 1) ≡ true) ↔ (f.n ≡ 1)))
exec_cmp_signed_example = exec_cmp_signed 0x80 1 start (omega arith) (omega arith)

-- At the RET, R1 has changed since the CALL.
abbrev late : Sim
late = record start {
  dmem = set start.dmem 0xff 9;
  sp = 0xfe;
  regs = set start.regs 1 7;
  pc = 0x30;
}

exec_call-ret_example :
    (s' : Sim) × (exec_call 9 start ≡ some s')
    × (s'.sp ≡ late.sp)
    × (get_elem? s'.dmem start.sp ≡ some 9)
    × (s'.dmem ≡ set start.dmem start.sp 9)
    × (exec_ret late ≡ some (9, record late { sp = start.sp }))
unfolding init
exec_call-ret_example = exec_call-ret 9 start late (init-IsValid sample) refl refl

exec_st-ld_example :
    (s' : Sim) × (exec_st 0 16 0x3f start ≡ some s')
    × (s' ≡ record start { dmem = set start.dmem (wrap 8 (pos 16 +ℤ s6 0x3f)) 0 })
    × (exec_ld 2 15 0 s' ≡ reg_write 2 0 s')
unfolding reg_read mem_addr s6
exec_st-ld_example = exec_st-ld 0 0 16 0x3f 2 15 0 start (init-IsValid sample) refl refl
