-- ===== src/Tests/Runs.antt =====
-- Runs of the programs of socgen/firmware.py on given buses.
use risc_v_so_c.Base.{
  ℕ, zero, suc, ◌+◌, ◌<◌, ◌≡◌, refl, arith, length, ltb, if◌then◌else◌, true, some, List, [], ◌∷◌,
  ◌++◌, replicate,
}
use risc_v_so_c.Base.Results.{ok, ◌>>=◌}
use risc_v_so_c.Socgen.Asm.Output.{assemble}
use risc_v_so_c.Socgen.Memmap.{aes, uart}
use risc_v_so_c.Socgen.Firmware.{build, build_timer_demo, slot_main, slot_ticks}
use risc_v_so_c.Socgen.Rv32.{Registers}
use risc_v_so_c.Socgen.Rv32.Hart.{Access, store, Hart, reset, step, steps, run}
use risc_v_so_c.Socgen.Firmware.Polling.{polled, build-Polls}
use risc_v_so_c.Socgen.Firmware.Timer.{
  Event, instruction, interrupt, schedule, clearing, rearm, demanded,
}
use risc_v_so_c.Socgen.Firmware.Counts.{written, slot, build_timer_demo-counted}

abbrev registers : Registers
registers i = 7 + i

-- The accelerator is done at the third load of its status.
abbrev accelerator : List Access → ℕ → ℕ
accelerator done a = if ltb (length done) 11 then 0 else 1

busy : (k : ℕ) → k < 2 → accelerator (polled k) (aes.base + 0x24) ≡ 0
busy zero lt = refl
busy (suc zero) lt = refl
busy (suc (suc k)) lt = omega arith

build-Polls_example :
    (words : List ℕ) × (count : ℕ) × (h : Hart) × ((build >>= assemble) ≡ ok words)
    × (steps accelerator words count (reset registers) ≡ some h)
    × (h.accesses ≡ store uart.base 0x41 ∷ polled 3)
    × (step accelerator words h ≡ some h)
build-Polls_example = build-Polls accelerator registers 2 busy (omega arith)

-- The time that the bus answers is the number of accesses before.
abbrev clock : List Access → ℕ → ℕ
clock done a = length done

-- An interrupt before the loop, and one between the addition and the store.
abbrev events : List Event
events =
    interrupt ∷ instruction ∷ instruction ∷ interrupt ∷ instruction ∷ instruction ∷ instruction
    ∷ instruction ∷ []

build_timer_demo-counted_example :
    (words : List ℕ) × (h : Hart) × ((build_timer_demo >>= assemble) ≡ ok words)
    × (run clock words (replicate 19 true ++ schedule events) (reset registers) ≡ some h)
    × (h.accesses ≡ demanded clock clearing 0 0 events (rearm clock []))
    × (written (slot slot_main) h.accesses ≡ 2 ∷ 1 ∷ [])
    × (written (slot slot_ticks) h.accesses ≡ 2 ∷ 1 ∷ [])
build_timer_demo-counted_example = build_timer_demo-counted clock registers events
