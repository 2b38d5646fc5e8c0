-- ===== src/Socgen/Firmware/Timer.antt =====
-- socgen/firmware.py, `build_timer_demo`: what the interrupted program is to do, and its words.
use risc_v_so_c.Base.{
  ℕ, suc, ◌+◌, ◌%◌, ◌^◌, ◌≡◌, refl, Bool, true, false, List, [], ◌∷◌, ◌++◌, replicate,
}
use risc_v_so_c.Base.Int.{pos, ◌+ℤ◌, wrap}
use risc_v_so_c.Base.Text.{text_eq}
use risc_v_so_c.Base.Dict.{get, put, contains}
use risc_v_so_c.Base.Results.{ok, ◌>>=◌}
use risc_v_so_c.Socgen.Asm
use risc_v_so_c.Socgen.Asm.Output.{assemble, resolve_entries, resolve_entry}
use risc_v_so_c.Socgen.Memmap.{ram, clint}
use risc_v_so_c.Socgen.Firmware.{build_timer_demo}
use risc_v_so_c.Socgen.Rv32.Hart.{Access, load, store}

-- Either the main program makes a step, or it is interrupted before its next step.
pub data Event : Type 0 where
  instruction interrupt : Event

-- The timer's level for each cycle of an event. The handler has thirteen instructions, and the level does
-- not matter in it.
abbrev pub cycles : Event → List Bool
cycles instruction = false ∷ []
cycles interrupt = replicate 14 true

abbrev pub schedule : List Event → List Bool
schedule [] = []
schedule (e ∷ es) = cycles e ++ schedule es

-- Where the main program stands: before the loop, or at an instruction of the loop.
pub data Place : Type 0 where
  clearing counting storing jumping : Place

abbrev pub address : Place → ℕ
address clearing = 128
address counting = 132
address storing = 136
address jumping = 140

abbrev pub following : Place → Place
following clearing = counting
following counting = storing
following storing = jumping
following jumping = counting

-- A new deadline: the low half is parked at -1 before the high half is written, and then gets the time
-- that the bus answers and 400.
abbrev pub rearm : (List Access → ℕ → ℕ) → List Access → List Access
rearm bus done =
    let parked = store (clint.base + 0x4004) 0 ∷ store (clint.base + 0x4000) 0xffffffff ∷ done in
    let now = bus parked (clint.base + 0xbff8) in
    store (clint.base + 0x4000) (wrap 32 (pos now +ℤ pos 400)) ∷ load (clint.base + 0xbff8) ∷ parked

-- The accesses of the handler for interrupt number `t`, which came at the address `at`.
abbrev pub handled : (List Access → ℕ → ℕ) → ℕ → ℕ → List Access → List Access
handled bus at t done = rearm bus (
    store (ram.base + 12) at
    ∷ store (ram.base + 8) 0x80000007
    ∷ store (ram.base + 4) (t % 2 ^ 32)
    ∷ done)

-- The accesses of the main program at `place`, which has counted to `c`.
abbrev pub worked : Place → ℕ → List Access → List Access
worked storing c done = store ram.base (suc c % 2 ^ 32) ∷ done
worked _ c done = done

abbrev pub reached : Place → ℕ → ℕ
reached storing c = suc c
reached _ c = c

-- All accesses, the newest first, after `c` rounds and `t` interrupts.
abbrev pub demanded : (List Access → ℕ → ℕ) → Place → ℕ → ℕ → List Event → List Access → List Access
demanded bus place c t [] done = done
demanded bus place c t (instruction ∷ es) done =
    demanded bus (following place) (reached place c) t es (worked place c done)
demanded bus place c t (interrupt ∷ es) done =
    demanded bus place c (suc t) es (handled bus (address place) (suc t) done)

abbrev pub program : List ℕ
program =
    0x02000c63 ∷ 0x001a8a93 ∷ 0x015a2223 ∷ 0x34202d73 ∷ 0x01aa2423 ∷ 0x34102df3 ∷ 0x01ba2623
    ∷ 0xfff00c93 ∷ 0x019c2023 ∷ 0x000e2023 ∷ 0x000b2b83 ∷ 0x190b8b93 ∷ 0x017c2023 ∷ 0x30200073
    ∷ 0x00000a13 ∷ 0x4000cb37 ∷ 0xff8b0b13 ∷ 0x40004c37 ∷ 0x40004e37 ∷ 0x004e0e13 ∷ 0x00000a93
    ∷ 0xfff00c93 ∷ 0x019c2023 ∷ 0x000e2023 ∷ 0x000b2b83 ∷ 0x190b8b93 ∷ 0x017c2023 ∷ 0x00400293
    ∷ 0x30529073 ∷ 0x08000313 ∷ 0x30431073 ∷ 0x30046073 ∷ 0x00000093 ∷ 0x00108093 ∷ 0x001a2023
    ∷ 0xfe000ce3 ∷ []

pub assembled : (build_timer_demo >>= assemble) ≡ ok program
unfolding build_timer_demo assemble resolve_entries resolve_entry get put contains text_eq Asm.li
    Asm.li_parts Asm.lui Asm.addi Asm.i_type Asm.i_word Asm.check_imm Asm.reg Asm.emit Asm.sw
    Asm.s_type Asm.s_word Asm.label Asm.lw Asm.beq Asm.b_type Asm.b_word Asm.csrr Asm.csrw
    Asm.csrrsi Asm.mret Asm.csrrw Asm.csrrs Asm.system
assembled = refl
